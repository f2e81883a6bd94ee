-- ===== src/Session/Lifecycle/Commands.antt =====
-- What commands and controls keep and count.
use datamancer.Base.{
  ℕ, ◌+◌, ◌%◌, ◌≡◌, refl, ◌∙◌, ap, Bool, true, false, Option, none, some, List, [], ◌∷◌, arith,
  if◌then◌else◌, ◌>>=◌, Bool-cases, inl, inr, leb, some-eq, subst,
}
use native.Mathlib.Nat.{add-zero, add_assoc}
use datamancer.Core.Event.{
  Timestamp, MarketEvent, control, Control, ControlKind, provider_connected, provider_disconnected,
  seq_max, stamp_seq,
}
use datamancer.Channel.{Channel}
use datamancer.Client.FanOut.{FanOut}
use datamancer.Client.Stats.{transition, record_connection}
use datamancer.Client.Stats.Connection.{is_down}
use datamancer.Provider.Accounting.{record_provider_control}
use datamancer.Session.Options.{PersistenceOptions, uses_cache}
use datamancer.Session.Controller.{
  Controller, stamp, tee, deliver_with, after_stamp, emit, Arrival, live_arrival,
}
use datamancer.Session.Lifecycle.{
  note_provider_arrival, apply_persistence, handle_command, SessionCommand, set_persistence,
  add_subscriber, close, is_present, shutdown, add_to,
}

-- The persistence that a session is set to has a cache and a tap log behind it where it needs them.
pub record IsBacked (ch : Channel) (c : Controller ch) : Type 0 where
  pub cache_there : uses_cache c.persistence ≡ true → c.has_cache ≡ true
  pub log_there : c.persistence.write_tap_log ≡ true → is_present c.tap_log ≡ true

after_stamp-IsBacked :
    (ch : Channel) (c : Controller ch) (ev : MarketEvent) (arrival : Arrival)
    → IsBacked ch c
    → IsBacked ch (after_stamp ch c ev arrival)
unfolding after_stamp tee deliver_with
after_stamp-IsBacked ch c ev arrival v = ground arith

after_stamp-next :
    (ch : Channel) (c : Controller ch) (n : ℕ)
    → IsBacked ch c
    → IsBacked ch (record c { next_seq = n })
after_stamp-next ch c n v = record { cache_there = v.cache_there; log_there = v.log_there }

apply_persistence-IsBacked :
    (ch : Channel) (c : Controller ch) (o : PersistenceOptions)
    → IsBacked ch c
    → IsBacked ch (apply_persistence ch c o).0
unfolding apply_persistence
apply_persistence-IsBacked ch c o v = ground arith

deliver_with-IsBacked :
    (ch : Channel) (c : Controller ch) (ev : MarketEvent) (arrival : Arrival)
    → IsBacked ch c
    → IsBacked ch (deliver_with ch c ev arrival)
unfolding deliver_with
deliver_with-IsBacked ch c ev arrival v = ground arith

add_to-IsBacked :
    (ch : Channel) (c : Controller ch) (f : Option (FanOut ch)) (id : ℕ) (tx : ch.Tx)
    → IsBacked ch c
    → IsBacked ch (add_to ch c f id tx)
unfolding add_to
add_to-IsBacked ch c none id tx v = v
add_to-IsBacked ch c (some f) id tx v = record {
  cache_there = v.cache_there;
  log_there = v.log_there;
}

emit-IsBacked :
    (ch : Channel) (c c' : Controller ch) (ev : MarketEvent)
    → IsBacked ch c
    → emit ch c ev ≡ some c'
    → IsBacked ch c'
unfolding emit stamp
emit-IsBacked ch c c' ev v e = elim (Bool-cases (leb seq_max (c.next_seq + 1))) [
  | inl full ↦ let stuck : none ≡ some c' = rw full at e in cc
  | inr room ↦
      let stamped = stamp_seq ev c.next_seq in
      let c1 = record c { next_seq = c.next_seq + 1 } in
      let done : some (deliver_with ch c1 stamped live_arrival) ≡ some c' = rw room at e in
      subst (IsBacked ch) (some-eq done)
        (deliver_with-IsBacked ch c1 stamped live_arrival (after_stamp-next ch c _ v))
]

closed-IsBacked :
    (ch : Channel) (c c' : Controller ch) (goes_on : Bool) (o : Option (Controller ch))
    → ((d : Controller ch) → o ≡ some d → IsBacked ch d)
    → ◌>>=◌ {B = Controller ch × Bool} o (λ d. some (d, false)) ≡ some (c', goes_on)
    → IsBacked ch c'
closed-IsBacked ch c c' g none h e = cc
closed-IsBacked ch c c' g (some d) h e =
    subst (IsBacked ch) (ap (λ (p : Controller ch × Bool). p.0) (some-eq e)) (h d refl)

-- Starting from a controller whose persistence has its cache and tap log behind it, no command
-- changes that: a request for persistence that is not there is refused, and leaves the settings.
pub handle_command-IsBacked :
    (ch : Channel) (c c' : Controller ch) (cmd : Option (SessionCommand ch)) (now : Timestamp)
    (goes_on : Bool)
    → IsBacked ch c
    → handle_command ch c cmd now ≡ some (c', goes_on)
    → IsBacked ch c'
unfolding handle_command shutdown
handle_command-IsBacked ch c c' (some (set_persistence o)) now g v e =
    subst (IsBacked ch) (ap (λ (p : Controller ch × Bool). p.0) (some-eq e))
      (apply_persistence-IsBacked ch c o v)
handle_command-IsBacked ch c c' (some (add_subscriber id tx)) now g v e =
    subst (IsBacked ch) (ap (λ (p : Controller ch × Bool). p.0) (some-eq e))
      (add_to-IsBacked ch c c.fanout id tx v)
handle_command-IsBacked ch c c' (some close) now g v e =
    closed-IsBacked ch c c' g (shutdown ch c now) (λ d. emit-IsBacked ch c d _ v) e
handle_command-IsBacked ch c c' none now g v e =
    subst (IsBacked ch) (ap (λ (p : Controller ch × Bool). p.0) (some-eq e)) v

-- The controls of a run, noted one after the other.
pub note_all : (ch : Channel) → Controller ch → List Control → Controller ch
note_all ch c [] = c
note_all ch c (k ∷ ks) = note_all ch (note_provider_arrival ch c (control k)) ks

-- The outages that a run of controls ends: connects with a disconnect before them and no connect
-- in between. The flag tells that an outage is on.
abbrev ends : Bool → ControlKind → ℕ
ends on (provider_connected provider) = if on then 1 else 0
ends on _ = 0

abbrev outage_after : Bool → ControlKind → Bool
outage_after on (provider_connected provider) = false
outage_after on (provider_disconnected provider reason cause) = true
outage_after on _ = on

abbrev pub outages_ended : Bool → List Control → ℕ
outages_ended on [] = 0
outages_ended on (k ∷ ks) = ends on k.kind + outages_ended (outage_after on k.kind) ks

module _ (ch : Channel) where
  note-step :
      (c : Controller ch) (k : Control) (n : ℕ)
      → c.accounting.reconnects ≡ n % 18446744073709551616
      → let c' = note_provider_arrival ch c (control k) in
        (c'.accounting.reconnects
          ≡ (n + ends (is_down c.stats.connection) k.kind) % 18446744073709551616)
        × (is_down c'.stats.connection ≡ outage_after (is_down c.stats.connection) k.kind)
  unfolding note_provider_arrival record_connection transition record_provider_control
  note-step c k n e = (ground arith, ground arith)

  -- Over any run of received controls a session adds to its provider's reconnect counter, which
  -- other sessions may add to as well, the number of outages that the run ends, modulo 2^64: connects with a disconnect before them and no connect
  -- in between, an outage that was on at the start included.
  pub note_all-reconnects :
      (c : Controller ch) (ks : List Control) (n : ℕ)
      → c.accounting.reconnects ≡ n % 18446744073709551616
      → (note_all ch c ks).accounting.reconnects
        ≡ (n + outages_ended (is_down c.stats.connection) ks) % 18446744073709551616
  unfolding note_all
  note_all-reconnects c [] n e = rw add-zero e
  note_all-reconnects c (k ∷ ks) n e =
      let c' = note_provider_arrival ch c (control k) in
      let (count, phase) = note-step c k n e in
      let rest = note_all-reconnects c' ks (n + ends (is_down c.stats.connection) k.kind) count in
      let later = λ (b : Bool).
        (n + ends (is_down c.stats.connection) k.kind + outages_ended b ks)
        % 18446744073709551616 in
      rest
      ∙ ap later phase
      ∙ ap (λ (m : ℕ). m % 18446744073709551616)
          (add_assoc n (ends (is_down c.stats.connection) k.kind) _)
