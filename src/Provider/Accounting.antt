-- ===== src/Provider/Accounting.antt =====
-- crates/datamancer/src/accounting.rs: `ProviderAccounting`. Atomics and the mutex become fields;
-- an error text that the lock's poisoning would skip is always stored.
pub mod Connections
use datamancer.Base.{
  ℕ, ◌+◌, Bool, true, false, not, ◌&&◌, ◌||◌, Option, none, some, String, List, [], ◌∷◌,
  if◌then◌else◌,
}
use datamancer.Core.Event.{
  MarketEvent, trade, quote, bar, control, Control, ControlKind, gap, provider_disconnected,
  provider_error, DisconnectCause, error, unauthenticated, companion_unreachable, disabled,
}
use datamancer.Client.Stats.{
  ConnectionChange, unchanged, connected, disconnected, StreamConnection, pending, up, down,
  fetch_add1,
}

-- crates/datamancer-core/src/snapshot.rs
pub data ConnectionState : Type 0 where
  is_unknown is_connected is_disconnected is_unauthenticated : ConnectionState

pub record ProviderAccounting : Type 0 where
  pub history_fetches : ℕ
  pub history_fetch_coalesced : ℕ
  pub live_starts : ℕ
  pub subscribes : ℕ
  pub unsubscribes : ℕ
  pub reconnects : ℕ
  pub messages : ℕ
  pub gaps_emitted : ℕ
  pub ever_connected : Bool
  pub last_error : Option String
  pub auth_failed : Bool

-- `ProviderAccounting::default`
abbrev pub fresh : ProviderAccounting
fresh = record {
  history_fetches = 0;
  history_fetch_coalesced = 0;
  live_starts = 0;
  subscribes = 0;
  unsubscribes = 0;
  reconnects = 0;
  messages = 0;
  gaps_emitted = 0;
  ever_connected = false;
  last_error = none;
  auth_failed = false;
}

abbrev pub record_history_fetch : ProviderAccounting → ProviderAccounting
record_history_fetch a = record a { history_fetches = fetch_add1 a.history_fetches }

abbrev pub record_history_fetch_coalesced : ProviderAccounting → ProviderAccounting
record_history_fetch_coalesced a = record a {
  history_fetch_coalesced = fetch_add1 a.history_fetch_coalesced;
}

abbrev record_live_start : ProviderAccounting → ProviderAccounting
record_live_start a = record a { live_starts = fetch_add1 a.live_starts }

abbrev record_subscribe : ProviderAccounting → ProviderAccounting
record_subscribe a = record a { subscribes = fetch_add1 a.subscribes }

abbrev pub record_unsubscribe : ProviderAccounting → ProviderAccounting
record_unsubscribe a = record a { unsubscribes = fetch_add1 a.unsubscribes }

abbrev pub forwarded_control : ProviderAccounting → ControlKind → ProviderAccounting
forwarded_control a (gap provider instrument span) = record a {
  gaps_emitted = fetch_add1 a.gaps_emitted;
}
forwarded_control a _ = a

abbrev pub record_forwarded : ProviderAccounting → MarketEvent → Bool → ProviderAccounting
record_forwarded a (control c) live = forwarded_control a c.kind
record_forwarded a _ live = if live then record a { messages = fetch_add1 a.messages } else a

unfoldable pub record_error : ProviderAccounting → String → ProviderAccounting
record_error a message = record a { last_error = some message }

-- `rejected` tells that the error is `Error::Unauthenticated`, and `message` is its text.
abbrev record_open_failure : ProviderAccounting → Bool → String → ProviderAccounting
record_open_failure a rejected message =
    record_error (if rejected then record a { auth_failed = true } else a) message

abbrev is_unauthenticated_cause : DisconnectCause → Bool
is_unauthenticated_cause unauthenticated = true
is_unauthenticated_cause _ = false

fold_change : ProviderAccounting → ConnectionChange → ProviderAccounting
fold_change a (connected reconnect) = record a {
  ever_connected = true;
  auth_failed = false;
  reconnects = if reconnect then fetch_add1 a.reconnects else a.reconnects;
}
fold_change a _ = a

fold_kind : ProviderAccounting → ControlKind → ProviderAccounting
unfolding record_error
fold_kind a (provider_disconnected provider reason cause) =
    if is_unauthenticated_cause cause
    then record_error (record a { auth_failed = true }) reason
    else a
fold_kind a (provider_error provider message) = record_error a message
fold_kind a _ = a

unfoldable pub record_provider_control :
    ProviderAccounting → ControlKind → ConnectionChange → ProviderAccounting
unfolding fold_change fold_kind
record_provider_control a kind change = fold_kind (fold_change a change) kind

-- The flags of `connection_state`.
record Phases : Type 0 where
  any_seen : Bool
  up_seen : Bool
  down_seen : Bool
  rejected : Bool

see : Phases → StreamConnection → Phases
see p (up since) = record p { any_seen = true; up_seen = true }
see p (down since cause) = record p {
  any_seen = true;
  down_seen = true;
  rejected = p.rejected || is_unauthenticated_cause cause;
}
see p pending = record p { any_seen = true }

see_all : Phases → List StreamConnection → Phases
unfolding see
see_all p [] = p
see_all p (phase ∷ streams) = see_all (see p phase) streams

decide_state : ProviderAccounting → Phases → ConnectionState
decide_state a p =
    if p.up_seen
    then is_connected
    else if p.rejected || (not p.any_seen && a.auth_failed)
    then is_unauthenticated
    else if p.down_seen || (not p.any_seen && a.ever_connected)
    then is_disconnected
    else is_unknown

pub connection_state : ProviderAccounting → List StreamConnection → ConnectionState
unfolding see_all decide_state
connection_state a streams = decide_state a (
    see_all (record { any_seen = false; up_seen = false; down_seen = false; rejected = false })
      streams)
