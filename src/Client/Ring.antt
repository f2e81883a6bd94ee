-- ===== src/Client/Ring.antt =====
-- crates/datamancer/src/client.rs: `ClientRing`, the resume buffer of a detached client, with the
-- loss of each instrument on its own account.
pub mod PerInstrument
use datamancer.Base.{
  ℕ, Bool, true, false, Option, none, some, String, List, [], ◌∷◌, ◌++◌, map, ◌==◌, nat_eq, lookup,
  insert, length, leb, if◌then◌else◌,
}
use datamancer.Base.Int.{min_ℤ, max_ℤ}
use datamancer.Core.Instrument.{Instrument, instrument_eq}
use datamancer.Core.Event.{
  Timestamp, Seq, GapSpan, MarketEvent, control, ControlKind, gap, event_seq, data_source_ts,
  data_instrument, next_ts, synthetic,
}

pub record DroppedSpan : Type 0 where
  pub span : GapSpan
  pub first_seq : Seq
  pub provider : String

abbrev pub Entry : Type 0
Entry = MarketEvent × String

pub record ClientRing : Type 0 where
  pub capacity : ℕ
  pub buf : List Entry
  pub dropped : List (Instrument × DroppedSpan)

-- `(instrument, from, to, gap_provider)` of `note_drop`; `none` is its early return.
pub record Dropped : Type 0 where
  pub instrument : Instrument
  pub from : Timestamp
  pub to : Timestamp
  pub provider : String

abbrev pub kind_dropped : ControlKind → Option Dropped
kind_dropped (gap provider instrument span) = some (record {
  instrument = instrument;
  from = span.from_source_ts;
  to = span.to_source_ts;
  provider = provider;
})
kind_dropped _ = none

abbrev data_dropped : Option Instrument → Option Timestamp → String → Option Dropped
data_dropped (some instrument) (some ts) provider =
    some (record { instrument = instrument; from = ts; to = next_ts ts; provider = provider })
data_dropped none ts provider = none
data_dropped (some instrument) none provider = none

abbrev pub dropped_of : Entry → Option Dropped
dropped_of (control c, provider) = kind_dropped c.kind
dropped_of (ev, provider) = data_dropped (data_instrument ev) (data_source_ts ev) provider

abbrev unwrap_or : Option Seq → Seq → Seq
unwrap_or (some s) d = s
unwrap_or none d = d

abbrev pub seq_or_synthetic : MarketEvent → Seq
seq_or_synthetic ev = unwrap_or (event_seq ev) synthetic

-- `match self.dropped.get_mut(&instrument)`
abbrev pub widen : Option DroppedSpan → Dropped → Seq → DroppedSpan
widen (some existing) d seq = record existing {
  span = record {
    from_source_ts = min_ℤ existing.span.from_source_ts d.from;
    to_source_ts = max_ℤ existing.span.to_source_ts d.to;
  };
}
widen none d seq = record {
  span = record { from_source_ts = d.from; to_source_ts = d.to };
  first_seq = seq;
  provider = d.provider;
}

unfoldable pub note :
    List (Instrument × DroppedSpan) → Option Dropped → Seq → List (Instrument × DroppedSpan)
note dropped none seq = dropped
note dropped (some d) seq = insert d.instrument (widen (lookup d.instrument dropped) d seq) dropped

unfoldable pub note_drop : ClientRing → Entry → ClientRing
unfolding note
note_drop r e = record r { dropped = note r.dropped (dropped_of e) (seq_or_synthetic e.0) }

unfoldable pub new : ℕ → ClientRing
new capacity = record { capacity = if leb capacity 1 then 1 else capacity; buf = []; dropped = [] }

unfoldable pub evict : ClientRing → List Entry → ClientRing × Bool
unfolding note_drop
evict r [] = (r, false)
evict r (oldest ∷ rest) = (note_drop (record r { buf = rest }) oldest, true)

-- The ring with the event, and whether it evicted the oldest one.
unfoldable pub push : ClientRing → MarketEvent → String → ClientRing × Bool
unfolding evict
push r ev provider =
    let (r', evicted) = if length r.buf == r.capacity then evict r r.buf else (r, false) in
    (record r' { buf = r'.buf ++ ((ev, provider) ∷ []) }, evicted)

-- `InstrumentGap`
pub record InstrumentGap : Type 0 where
  pub first_seq : Seq
  pub instrument : Instrument
  pub span : GapSpan
  pub provider : String

-- The standard library's stable `sort_by_key`, as an insertion sort.
unfoldable pub insert_gap : InstrumentGap → List InstrumentGap → List InstrumentGap
insert_gap g [] = g ∷ []
insert_gap g (h ∷ gs) = if leb g.first_seq h.first_seq then g ∷ h ∷ gs else h ∷ insert_gap g gs

unfoldable pub sort_gaps : List InstrumentGap → List InstrumentGap
unfolding insert_gap
sort_gaps [] = []
sort_gaps (g ∷ gs) = insert_gap g (sort_gaps gs)

abbrev to_gap : Instrument × DroppedSpan → InstrumentGap
to_gap (i, d) = record {
  first_seq = d.first_seq;
  instrument = i;
  span = d.span;
  provider = d.provider;
}

unfoldable pub into_parts : ClientRing → List InstrumentGap × List Entry
unfolding sort_gaps
into_parts r = (sort_gaps (map to_gap r.dropped), r.buf)
