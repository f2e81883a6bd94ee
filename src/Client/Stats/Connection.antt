-- ===== src/Client/Stats/Connection.antt =====
-- The connection phase of a substream over a run of received controls.
use datamancer.Base.{String, ◌≡◌, Bool, true, false, List, [], ◌∷◌, arith, All}
use datamancer.Core.Event.{
  Timestamp, Control, ControlKind, provider_connected, provider_disconnected, DisconnectCause,
}
use datamancer.Client.Stats.{
  LiveStats, StreamConnection, up, down, unchanged, connected, disconnected, transition,
  record_connection,
}

-- The controls of a run, recorded one after the other.
unfoldable pub receive : LiveStats → List Control → LiveStats
receive s [] = s
receive s (c ∷ cs) = receive (record_connection s c).0 cs

abbrev pub is_connect : ControlKind → Bool
is_connect (provider_connected provider) = true
is_connect _ = false

abbrev is_disconnect : ControlKind → Bool
is_disconnect (provider_disconnected provider reason cause) = true
is_disconnect _ = false

-- The cause that a run of controls leaves: that of its last disconnect.
abbrev newer_cause : ControlKind → DisconnectCause → DisconnectCause
newer_cause (provider_disconnected provider reason cause) old = cause
newer_cause _ old = old

abbrev pub last_cause : DisconnectCause → List Control → DisconnectCause
last_cause cause [] = cause
last_cause cause (c ∷ cs) = last_cause (newer_cause c.kind cause) cs

transition-down :
    (k : ControlKind) (rx since : Timestamp) (cause : DisconnectCause)
    → is_connect k ≡ false
    → transition k rx (down since cause) ≡ (down since (newer_cause k cause), unchanged)
unfolding transition
transition-down k rx since cause h = ground arith

receive-down :
    (s : LiveStats) (since : Timestamp) (cause : DisconnectCause) (cs : List Control)
    → s.connection ≡ down since cause
    → All (λ c. is_connect c.kind ≡ false) cs
    → (receive s cs).connection ≡ down since (last_cause cause cs)
unfolding receive record_connection
receive-down s since cause [] e h = e
receive-down s since cause (c ∷ cs) e h =
    receive-down (record_connection s c).0 since (newer_cause c.kind cause) cs
      (rw (e, transition-down c.kind c.rx_ts since cause h.0)) h.1

abbrev pub is_down : StreamConnection → Bool
is_down (down since cause) = true
is_down _ = false

abbrev pub is_up : StreamConnection → Bool
is_up (up since) = true
is_up _ = false

transition-lost :
    (provider reason : String) (cause : DisconnectCause) (rx : Timestamp) (p : StreamConnection)
    → is_down p ≡ false
    → transition (provider_disconnected provider reason cause) rx p ≡ (down rx cause, disconnected)
unfolding transition
transition-lost provider reason cause rx p h = ground arith

transition-found :
    (provider : String) (rx : Timestamp) (p : StreamConnection)
    → is_up p ≡ false
    → transition (provider_connected provider) rx p ≡ (up rx, connected (is_down p))
unfolding transition
transition-found provider rx p h = ground arith

transition-up :
    (k : ControlKind) (rx since : Timestamp)
    → is_disconnect k ≡ false
    → transition k rx (up since) ≡ (up since, unchanged)
unfolding transition
transition-up k rx since h = ground arith

receive-up :
    (s : LiveStats) (since : Timestamp) (cs : List Control)
    → s.connection ≡ up since
    → All (λ c. is_disconnect c.kind ≡ false) cs
    → (receive s cs).connection ≡ up since
unfolding receive record_connection
receive-up s since [] e h = e
receive-up s since (c ∷ cs) e h =
    receive-up (record_connection s c).0 since cs (rw (e, transition-up c.kind c.rx_ts since h.0))
      h.1

-- From a phase that is not down, a disconnect followed by any controls but connects reports a
-- disconnect, and leaves the substream down since the receipt of that first disconnect, with the
-- cause of the last one.
pub receive-outage :
    (s : LiveStats) (c : Control) (provider reason : String) (cause : DisconnectCause)
    (cs : List Control)
    → is_down s.connection ≡ false
    → c.kind ≡ provider_disconnected provider reason cause
    → All (λ d. is_connect d.kind ≡ false) cs
    → ((record_connection s c).1 ≡ disconnected)
      × ((receive s (c ∷ cs)).connection ≡ down c.rx_ts (last_cause cause cs))
unfolding receive record_connection
receive-outage s c provider reason cause cs h k rest =
    let lost = transition-lost provider reason cause c.rx_ts s.connection h in
    (rw (k, lost), receive-down (record_connection s c).0 c.rx_ts cause cs (rw (k, lost)) rest)

-- From a phase that is not up, a connect followed by any controls but disconnects reports a
-- connect, a reconnect exactly when the phase was down, and leaves the substream up since the
-- receipt of that first connect.
pub receive-recovery :
    (s : LiveStats) (c : Control) (provider : String) (cs : List Control)
    → is_up s.connection ≡ false
    → c.kind ≡ provider_connected provider
    → All (λ d. is_disconnect d.kind ≡ false) cs
    → ((record_connection s c).1 ≡ connected (is_down s.connection))
      × ((receive s (c ∷ cs)).connection ≡ up c.rx_ts)
unfolding receive record_connection
receive-recovery s c provider cs h k rest =
    let found = transition-found provider c.rx_ts s.connection h in
    (rw (k, found), receive-up (record_connection s c).0 c.rx_ts cs (rw (k, found)) rest)
