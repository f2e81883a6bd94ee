-- ===== src/Client/Stats.antt =====
-- crates/datamancer/src/client.rs: `LiveStats`, the counters of one authoritative session. Atomics
-- and mutexes become fields: the controller is their only writer.
pub mod Connection
pub mod Gaps
use datamancer.Base.{
  ℕ, ◌+◌, ◌%◌, Bool, true, false, Option, none, some, List, [], ◌∷◌, ◌++◌, ℤ, pos, ◌==◌, nat_eq,
  length, if◌then◌else◌, drop,
}
use datamancer.Core.Event.{
  Timestamp, Seq, GapSpan, MarketEvent, trade, quote, bar, control, Control, ControlKind, gap,
  provider_connected, provider_disconnected, DisconnectCause, data_source_ts, data_rx_ts, event_seq,
}

-- crates/datamancer-core/src/snapshot.rs
pub data StreamConnection : Type 0 where
  pending : StreamConnection
  up : (since : Timestamp) → StreamConnection
  down : (since : Timestamp) → (cause : DisconnectCause) → StreamConnection

pub data ConnectionChange : Type 0 where
  unchanged : ConnectionChange
  connected : (reconnect : Bool) → ConnectionChange
  disconnected : ConnectionChange

pub record LiveStats : Type 0 where
  pub has_seq : Bool
  pub last_seq : ℕ
  pub has_ts : Bool
  pub last_source_ts : ℤ
  pub last_rx_ts : ℤ
  pub gap_count : ℕ
  pub recent_gaps : List GapSpan
  pub has_gap_rx : Bool
  pub last_gap_rx_ts : ℤ
  pub backfilling : Bool
  pub subscribers : ℕ
  pub connection : StreamConnection

abbrev pub recent_gaps_cap : ℕ
recent_gaps_cap = 8

-- u64 `fetch_add(1)`, which wraps
abbrev pub fetch_add1 : ℕ → ℕ
fetch_add1 n = (n + 1) % 18446744073709551616

unfoldable pub new : LiveStats
new = record {
  has_seq = false;
  last_seq = 0;
  has_ts = false;
  last_source_ts = pos 0;
  last_rx_ts = pos 0;
  gap_count = 0;
  recent_gaps = [];
  has_gap_rx = false;
  last_gap_rx_ts = pos 0;
  backfilling = false;
  subscribers = 0;
  connection = pending;
}

abbrev pub set_subscribers : LiveStats → ℕ → LiveStats
set_subscribers s n = record s { subscribers = n }

abbrev pub set_backfilling : LiveStats → Bool → LiveStats
set_backfilling s active = record s { backfilling = active }

store_seq : LiveStats → Option Seq → LiveStats
store_seq s none = s
store_seq s (some seq) = record s { last_seq = seq; has_seq = true }

pub record_seq : LiveStats → MarketEvent → LiveStats
unfolding store_seq
record_seq s ev = store_seq s (event_seq ev)

store_ts : LiveStats → Option Timestamp → Option Timestamp → LiveStats
store_ts s (some source) (some rx) = record s {
  last_source_ts = source;
  last_rx_ts = rx;
  has_ts = true;
}
store_ts s none rx = s
store_ts s (some source) none = s

-- The ring of the last gap spans, oldest first.
pub push_gap : List GapSpan → GapSpan → List GapSpan
push_gap ring span = (if length ring == recent_gaps_cap then drop 1 ring else ring) ++ (span ∷ [])

record_control : LiveStats → Timestamp → ControlKind → LiveStats
unfolding push_gap
record_control s rx_ts (gap provider instrument span) = record s {
  gap_count = fetch_add1 s.gap_count;
  last_gap_rx_ts = rx_ts;
  has_gap_rx = true;
  recent_gaps = push_gap s.recent_gaps span;
}
record_control s rx_ts _ = s

record_body : LiveStats → MarketEvent → LiveStats
unfolding record_control store_ts
record_body s (control c) = record_control s c.rx_ts c.kind
record_body s ev = store_ts s (data_source_ts ev) (data_rx_ts ev)

pub record_event : LiveStats → MarketEvent → LiveStats
unfolding record_seq record_body
record_event s ev = record_body (record_seq s ev) ev

abbrev pub record_seed : LiveStats → MarketEvent → LiveStats
unfolding record_seq
record_seed s ev = record_seq s ev

-- The readers: `then` on the flag.
abbrev then_some {ℓ} : {A : Type ℓ} → Bool → A → Option A
then_some true a = some a
then_some false a = none

pub seq_position : LiveStats → Option Seq
seq_position s = then_some s.has_seq s.last_seq

pub last_source_ts_of : LiveStats → Option Timestamp
last_source_ts_of s = then_some s.has_ts s.last_source_ts

abbrev pub last_rx_ts_of : LiveStats → Option Timestamp
last_rx_ts_of s = then_some s.has_ts s.last_rx_ts

abbrev pub last_gap_rx_ts_of : LiveStats → Option Timestamp
last_gap_rx_ts_of s = then_some s.has_gap_rx s.last_gap_rx_ts

-- The match of `record_connection` on the control's kind and the current phase: the new phase, and
-- the transition.
unfoldable pub transition :
    ControlKind → Timestamp → StreamConnection → StreamConnection × ConnectionChange
transition (provider_connected provider) rx_ts (up since) = (up since, unchanged)
transition (provider_connected provider) rx_ts pending = (up rx_ts, connected false)
transition (provider_connected provider) rx_ts (down since cause) = (up rx_ts, connected true)
transition (provider_disconnected provider reason cause) rx_ts (down since old) =
    (down since cause, unchanged)
transition (provider_disconnected provider reason cause) rx_ts pending =
    (down rx_ts cause, disconnected)
transition (provider_disconnected provider reason cause) rx_ts (up since) =
    (down rx_ts cause, disconnected)
transition kind rx_ts phase = (phase, unchanged)

unfoldable pub record_connection : LiveStats → Control → LiveStats × ConnectionChange
unfolding transition
record_connection s c =
    let (phase, change) = transition c.kind c.rx_ts s.connection in
    (record s { connection = phase }, change)
