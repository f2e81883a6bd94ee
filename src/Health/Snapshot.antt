-- ===== src/Health/Snapshot.antt =====
-- crates/datamancer-core/src/snapshot.rs and `assemble_snapshot` of crates/datamancer/src/session.rs.
-- The samples it takes (wall clock, upgraded handles, what a provider answers) are its arguments.
use datamancer.Base.{
  ℕ, Bool, true, Option, none, some, String, List, [], ◌∷◌, map, ℤ, pos, negsuc, ◌==◌, string_eq,
  if◌then◌else◌, leb, length,
}
use datamancer.Base.Int.{◌+ℤ◌, ◌-ℤ◌, ltb_ℤ}
use datamancer.Core.Instrument.{Instrument, AssetClass}
use datamancer.Core.Adjustment.{Adjustment}
use datamancer.Core.Event.{Timestamp, Seq, EventKind, GapSpan, i64_max}
use datamancer.Client.Stats.{
  LiveStats, StreamConnection, seq_position, last_source_ts_of, last_rx_ts_of, last_gap_rx_ts_of,
}
use datamancer.Client.Occupancy.{ClientStats}
use datamancer.Provider.Accounting.{ProviderAccounting, ConnectionState, connection_state}

abbrev two_64 : ℤ
two_64 = pos 18446744073709551616

abbrev i64_min : ℤ
i64_min = negsuc 9223372036854775807

-- i64 subtraction of a release build, which wraps; a debug build panics where it does.
unfoldable pub sub_i64 : ℤ → ℤ → ℤ
sub_i64 a b =
    let d = a -ℤ b in
    if ltb_ℤ i64_max d then d -ℤ two_64 else if ltb_ℤ d i64_min then d +ℤ two_64 else d

-- `u32::try_from(n).unwrap_or(u32::MAX)`
abbrev pub to_u32 : ℕ → ℕ
to_u32 n = if leb n 4294967295 then n else 4294967295

pub record ProviderSnapshot : Type 0 where
  pub provider : String
  pub state : ConnectionState
  pub history_fetches : ℕ
  pub history_fetch_coalesced : ℕ
  pub live_starts : ℕ
  pub subscribes : ℕ
  pub unsubscribes : ℕ
  pub reconnects : ℕ
  pub rate_limit_hits : Option ℕ
  pub messages : ℕ
  pub bytes : Option ℕ
  pub gaps_emitted : ℕ
  pub last_error : Option String
  pub enabled : Bool
  pub active_subscriptions : ℕ

pub record CacheCatalogEntry : Type 0 where
  pub provider : String
  pub symbol : String
  pub asset_class : Option AssetClass
  pub kind : EventKind
  pub adjustment : Adjustment
  pub segments : List GapSpan
  pub event_count : ℕ
  pub est_bytes : Option ℕ

pub record CacheSnapshot : Type 0 where
  pub entries : List CacheCatalogEntry
  pub total_disk_bytes : Option ℕ

-- `AuthoritativeSessionSnapshot`
pub record StreamSnapshot : Type 0 where
  pub instrument : Instrument
  pub kind : EventKind
  pub subscriber_refcount : ℕ
  pub seq_position : Option Seq
  pub last_source_ts : Option Timestamp
  pub last_rx_ts : Option Timestamp
  pub latency_ns : Option ℤ
  pub gap_count : ℕ
  pub recent_gaps : List GapSpan
  pub last_gap_rx_ts : Option Timestamp
  pub backfilling : Bool
  pub connection : StreamConnection

-- `ClientSessionSnapshot`, its resume buffer's occupancy in place
pub record ClientSnapshot : Type 0 where
  pub id : ℕ
  pub subscriptions : List (Instrument × EventKind)
  pub capacity : ℕ
  pub occupancy : ℕ
  pub dropped_events : ℕ

pub record SystemSnapshot : Type 0 where
  pub captured_at : Timestamp
  pub providers : List ProviderSnapshot
  pub cache : CacheSnapshot
  pub authoritative_sessions : List StreamSnapshot
  pub client_sessions : List ClientSnapshot

-- A registered provider as its trait answers: `id`, `enabled` and `metrics` (bytes, rate limit hits).
pub record ProviderFacts : Type 0 where
  pub id : String
  pub enabled : Bool
  pub metrics : Option (ℕ × ℕ)

-- An upgraded entry of the live-session registry, as `assemble_snapshot` reads it: `stats` is what it
-- reads for the stream, and `phase` what `stats.connection()` gave before, for the provider's state;
-- a controller may have written in between.
pub record AuthHandle : Type 0 where
  pub provider_id : String
  pub instrument : Instrument
  pub kind : EventKind
  pub phase : StreamConnection
  pub stats : LiveStats

abbrev find_provider : String → List ProviderFacts → Option ProviderFacts
find_provider id [] = none
find_provider id (p ∷ ps) = if p.id == id then some p else find_provider id ps

abbrev pub own_handles : String → List AuthHandle → List AuthHandle
own_handles id [] = []
own_handles id (h ∷ hs) = if h.provider_id == id then h ∷ own_handles id hs else own_handles id hs

abbrev pub phase_of : AuthHandle → StreamConnection
phase_of h = h.phase

-- `is_none_or(|p| p.enabled())`
abbrev pub enabled_of : Option ProviderFacts → Bool
enabled_of none = true
enabled_of (some p) = p.enabled

abbrev metrics_of : Option ProviderFacts → Option (ℕ × ℕ)
metrics_of none = none
metrics_of (some p) = p.metrics

abbrev first_of : Option (ℕ × ℕ) → Option ℕ
first_of none = none
first_of (some m) = some m.0

abbrev second_of : Option (ℕ × ℕ) → Option ℕ
second_of none = none
second_of (some m) = some m.1

unfoldable pub provider_snapshot :
    List AuthHandle → Option ProviderFacts → String → ProviderAccounting → ProviderSnapshot
provider_snapshot handles facts id acc =
    let own = own_handles id handles in
    record {
      provider = id;
      state = connection_state acc (map phase_of own);
      history_fetches = acc.history_fetches;
      history_fetch_coalesced = acc.history_fetch_coalesced;
      live_starts = acc.live_starts;
      subscribes = acc.subscribes;
      unsubscribes = acc.unsubscribes;
      reconnects = acc.reconnects;
      rate_limit_hits = second_of (metrics_of facts);
      messages = acc.messages;
      bytes = first_of (metrics_of facts);
      gaps_emitted = acc.gaps_emitted;
      last_error = acc.last_error;
      enabled = enabled_of facts;
      active_subscriptions = to_u32 (length own);
    }

provider_snapshots :
    List AuthHandle
    → List ProviderFacts
    → List (String × ProviderAccounting)
    → List ProviderSnapshot
unfolding provider_snapshot
provider_snapshots handles providers [] = []
provider_snapshots handles providers ((id, acc) ∷ accs) =
    provider_snapshot handles (find_provider id providers) id acc
    ∷ provider_snapshots handles providers accs

-- `with_timestamps`
abbrev latency : Option Timestamp → Option Timestamp → Option ℤ
latency (some source) (some rx) = some (sub_i64 rx source)
latency none rx = none
latency (some source) none = none

unfoldable pub stream_snapshot : AuthHandle → StreamSnapshot
stream_snapshot h = record {
  instrument = h.instrument;
  kind = h.kind;
  subscriber_refcount = to_u32 h.stats.subscribers;
  seq_position = seq_position h.stats;
  last_source_ts = last_source_ts_of h.stats;
  last_rx_ts = last_rx_ts_of h.stats;
  latency_ns = latency (last_source_ts_of h.stats) (last_rx_ts_of h.stats);
  gap_count = h.stats.gap_count;
  recent_gaps = h.stats.recent_gaps;
  last_gap_rx_ts = last_gap_rx_ts_of h.stats;
  backfilling = h.stats.backfilling;
  connection = h.stats.connection;
}

client_snapshot : ClientStats → ClientSnapshot
client_snapshot s = record {
  id = s.id;
  subscriptions = s.subscriptions;
  capacity = s.capacity;
  occupancy = s.occupancy;
  dropped_events = s.dropped_events;
}

unfoldable pub assemble_snapshot :
    Timestamp
    → List AuthHandle
    → List ProviderFacts
    → List (String × ProviderAccounting)
    → List ClientStats
    → CacheSnapshot
    → SystemSnapshot
unfolding provider_snapshots stream_snapshot client_snapshot
assemble_snapshot captured_at handles providers accs clients cache = record {
  captured_at = captured_at;
  providers = provider_snapshots handles providers accs;
  cache = cache;
  authoritative_sessions = map stream_snapshot handles;
  client_sessions = map client_snapshot clients;
}
