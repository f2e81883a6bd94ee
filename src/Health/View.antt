-- ===== src/Health/View.antt =====
-- crates/datamancer-core/src/health.rs: the health reduction of a snapshot.
use datamancer.Base.{
  ℕ, Bool, true, false, not, Option, none, some, String, List, map, ℤ, ◌==◌, nat_eq, if◌then◌else◌,
}
use datamancer.Base.Int.{ltb_ℤ, leb_ℤ}
use datamancer.Core.Instrument.{Instrument}
use datamancer.Core.Event.{Timestamp, EventKind, GapSpan, disabled}
use datamancer.Client.Stats.{StreamConnection, down}
use datamancer.Provider.Accounting.{
  ConnectionState, is_unknown, is_connected, is_disconnected, is_unauthenticated,
}
use datamancer.Health.Snapshot.{sub_i64, ProviderSnapshot, StreamSnapshot, SystemSnapshot}

pub data ProviderState : Type 0 where
  connected_provider connecting disconnected_provider unauthenticated_provider companion_down :
      ProviderState
  disabled_provider idle : ProviderState

pub data Liveness : Type 0 where
  awaiting_data live backfill_in_progress : Liveness
  stale : (since : Timestamp) → Liveness
  quiet : (since : Timestamp) → Liveness
  gapped : (spans : List GapSpan) → Liveness

pub record ProviderHealth : Type 0 where
  pub provider : String
  pub state : ProviderState
  pub detail : Option String

pub record StreamHealth : Type 0 where
  pub instrument : Instrument
  pub kind : EventKind
  pub liveness : Liveness
  pub last_event_source_ts : Option Timestamp
  pub gap_count : ℕ
  pub latency : Option ℤ

pub record DaemonHealth : Type 0 where
  pub version : Option String
  pub credential_backend : Option String
  pub captured_at : Timestamp

pub record HealthView : Type 0 where
  pub schema_version : ℕ
  pub daemon : DaemonHealth
  pub providers : List ProviderHealth
  pub streams : List StreamHealth

abbrev of_connection : ConnectionState → ProviderState
of_connection is_connected = connected_provider
of_connection is_disconnected = disconnected_provider
of_connection is_unauthenticated = unauthenticated_provider
of_connection is_unknown = connecting

abbrev is_auth_fault : ConnectionState → Bool
is_auth_fault is_unauthenticated = true
is_auth_fault _ = false

unfoldable pub provider_state : ProviderSnapshot → ProviderState
provider_state p =
    if not p.enabled
    then disabled_provider
    else if is_auth_fault p.state
    then unauthenticated_provider
    else if p.active_subscriptions == 0
    then idle
    else of_connection p.state

unfoldable pub fault_since : StreamConnection → Option Timestamp
fault_since (down since disabled) = none
fault_since (down since cause) = some since
fault_since _ = none

-- The arms of `liveness` below the fault check.
abbrev pub gap_liveness : Option Timestamp → List GapSpan → Timestamp → ℤ → Liveness
gap_liveness none spans captured_at quiet_after = live
gap_liveness (some gap_rx) spans captured_at quiet_after =
    if leb_ℤ (sub_i64 captured_at gap_rx) quiet_after then gapped spans else live

abbrev pub data_liveness : Option Timestamp → StreamSnapshot → Timestamp → ℤ → Liveness
data_liveness none s captured_at quiet_after = awaiting_data
data_liveness (some rx) s captured_at quiet_after =
    if ltb_ℤ quiet_after (sub_i64 captured_at rx)
    then quiet rx
    else gap_liveness s.last_gap_rx_ts s.recent_gaps captured_at quiet_after

abbrev pub fault_liveness : Option Timestamp → StreamSnapshot → Timestamp → ℤ → Liveness
fault_liveness (some since) s captured_at quiet_after = stale since
fault_liveness none s captured_at quiet_after = data_liveness s.last_rx_ts s captured_at quiet_after

unfoldable pub liveness : StreamSnapshot → Timestamp → ℤ → Liveness
unfolding fault_since
liveness s captured_at quiet_after =
    if s.backfilling
    then backfill_in_progress
    else fault_liveness (fault_since s.connection) s captured_at quiet_after

unfoldable pub stream_health : Timestamp → ℤ → StreamSnapshot → StreamHealth
unfolding liveness
stream_health captured_at quiet_after s = record {
  instrument = s.instrument;
  kind = s.kind;
  liveness = liveness s captured_at quiet_after;
  last_event_source_ts = s.last_source_ts;
  gap_count = s.gap_count;
  latency = s.latency_ns;
}

provider_health : ProviderSnapshot → ProviderHealth
unfolding provider_state
provider_health p = record {
  provider = p.provider;
  state = provider_state p;
  detail = p.last_error;
}

-- `HealthView::SCHEMA_VERSION`
abbrev schema_version : ℕ
schema_version = 3

unfoldable pub from_snapshot : SystemSnapshot → ℤ → HealthView
unfolding provider_health stream_health
from_snapshot snapshot quiet_after = record {
  schema_version = schema_version;
  daemon = record { version = none; credential_backend = none; captured_at = snapshot.captured_at };
  providers = map provider_health snapshot.providers;
  streams = map (stream_health snapshot.captured_at quiet_after) snapshot.authoritative_sessions;
}
