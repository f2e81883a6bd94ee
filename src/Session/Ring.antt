-- ===== src/Session/Ring.antt =====
-- crates/datamancer/src/session.rs: `EventRing`, the bounded buffer of a session whose consumer is
-- away, with the loss it has to report.
pub mod Loss
pub mod Capacity
use datamancer.Base.{
  ℕ, suc, List, [], ◌∷◌, ◌++◌, Option, none, some, if◌then◌else◌, ◌==◌, nat_eq, length, leb,
}
use datamancer.Base.Int.{min_ℤ, max_ℤ}
use datamancer.Core.Event.{
  Timestamp, Seq, GapSpan, MarketEvent, trade, quote, bar, control, Control, gap, ControlKind,
  event_seq, data_source_ts, next_ts,
}

pub record EventRing : Type 0 where
  pub capacity : ℕ
  pub buf : List MarketEvent
  pub dropped : Option GapSpan
  pub dropped_first_seq : Option Seq

-- `EventRing::new`; `capacity.max(1)`
unfoldable pub new : ℕ → EventRing
new capacity = record {
  capacity = if leb capacity 1 then 1 else capacity;
  buf = [];
  dropped = none;
  dropped_first_seq = none;
}

-- `let (from, to) = …` of `note_drop`; `none` is its early return.
abbrev pub kind_span : ControlKind → Option (Timestamp × Timestamp)
kind_span (gap provider instrument span) = some (span.from_source_ts, span.to_source_ts)
kind_span _ = none

abbrev data_span : Option Timestamp → Option (Timestamp × Timestamp)
data_span none = none
data_span (some ts) = some (ts, next_ts ts)

abbrev pub loss_span : MarketEvent → Option (Timestamp × Timestamp)
loss_span (control c) = kind_span c.kind
loss_span ev = data_span (data_source_ts ev)

-- `match &mut self.dropped`
abbrev extend : Option GapSpan → Timestamp → Timestamp → GapSpan
extend (some span) from to = record {
  from_source_ts = min_ℤ span.from_source_ts from;
  to_source_ts = max_ℤ span.to_source_ts to;
}
extend none from to = record { from_source_ts = from; to_source_ts = to }

-- `get_or_insert_with`; every event has a sequence number, so its `expect` is not reached.
abbrev first_or : Option Seq → MarketEvent → Option Seq
first_or (some s) ev = some s
first_or none ev = event_seq ev

abbrev extend_by : Option GapSpan → Option (Timestamp × Timestamp) → Option GapSpan
extend_by dropped none = dropped
extend_by dropped (some (from, to)) = some (extend dropped from to)

unfoldable pub note_drop : EventRing → MarketEvent → EventRing
note_drop r ev = record r {
  dropped_first_seq = first_or r.dropped_first_seq ev;
  dropped = extend_by r.dropped (loss_span ev);
}

-- `pop_front` of a full buffer, which it notes
abbrev evict : EventRing → List MarketEvent → EventRing
evict r [] = r
evict r (evicted ∷ rest) = note_drop (record r { buf = rest }) evicted

unfoldable pub push : EventRing → MarketEvent → EventRing
unfolding note_drop
push r ev =
    let r' = if length r.buf == r.capacity then evict r r.buf else r in
    record r' { buf = r'.buf ++ (ev ∷ []) }

abbrev pub into_parts : EventRing → Option GapSpan × Option Seq × List MarketEvent
into_parts r = (r.dropped, r.dropped_first_seq, r.buf)

-- A run of pushes.
unfoldable pub push_all : EventRing → List MarketEvent → EventRing
push_all r [] = r
push_all r (ev ∷ evs) = push_all (push r ev) evs
