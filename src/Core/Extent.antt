-- ===== src/Core/Extent.antt =====
-- crates/datamancer-core/src/event.rs: what is missed by who misses an event, said of the events
-- themselves: of a trade, a quote or a bar its instant, of a gap its span, of any other control
-- nothing.
use datamancer.Base.{
  Option, none, some, List, [], ◌∷◌, ◌++◌, pos, if◌then◌else◌, ◌≡◌, refl, ap, ◌∙◌,
}
use datamancer.Base.Int.{◌+ℤ◌, min_ℤ, max_ℤ, ltb_ℤ}
use datamancer.Core.Instrument.{Instrument}
use datamancer.Core.Event.{
  Timestamp, Seq, GapSpan, i64_max, MarketEvent, trade, quote, bar, control, ControlKind, gap,
}

pub record Extent : Type 0 where
  pub instrument : Instrument
  pub from : Timestamp
  pub to : Timestamp
  pub seq : Seq

-- [t, t + 1), cut at the greatest i64.
abbrev pub instant : Instrument → Timestamp → Seq → Extent
instant i t seq = record {
  instrument = i;
  from = t;
  to = if ltb_ℤ t i64_max then t +ℤ pos 1 else i64_max;
  seq = seq;
}

abbrev pub kind_extent : ControlKind → Seq → Option Extent
kind_extent (gap provider instrument span) seq = some (record {
  instrument = instrument;
  from = span.from_source_ts;
  to = span.to_source_ts;
  seq = seq;
})
kind_extent _ seq = none

abbrev pub extent : MarketEvent → Option Extent
extent (trade t) = some (instant t.instrument t.source_ts t.seq)
extent (quote q) = some (instant q.instrument q.source_ts q.seq)
extent (bar b) = some (instant b.instrument b.source_ts b.seq)
extent (control c) = kind_extent c.kind c.seq

-- The earliest beginning and the latest end.
abbrev pub earliest : Timestamp → List Extent → Timestamp
earliest t [] = t
earliest t (x ∷ xs) = earliest (min_ℤ t x.from) xs

abbrev pub latest : Timestamp → List Extent → Timestamp
latest t [] = t
latest t (x ∷ xs) = latest (max_ℤ t x.to) xs

-- The least span over some extents.
abbrev pub hull : List Extent → Option GapSpan
hull [] = none
hull (x ∷ xs) = some (record { from_source_ts = earliest x.from xs; to_source_ts = latest x.to xs })

-- The extents of a list of events.
abbrev pub with_extent : Option Extent → List Extent → List Extent
with_extent none rest = rest
with_extent (some x) rest = x ∷ rest

abbrev pub extents : List MarketEvent → List Extent
extents [] = []
extents (ev ∷ evs) = with_extent (extent ev) (extents evs)

pub earliest-append :
    (t : Timestamp) (xs : List Extent) (y : Extent)
    → earliest t (xs ++ (y ∷ [])) ≡ min_ℤ (earliest t xs) y.from
earliest-append t [] y = refl
earliest-append t (x ∷ xs) y = earliest-append (min_ℤ t x.from) xs y

pub latest-append :
    (t : Timestamp) (xs : List Extent) (y : Extent)
    → latest t (xs ++ (y ∷ [])) ≡ max_ℤ (latest t xs) y.to
latest-append t [] y = refl
latest-append t (x ∷ xs) y = latest-append (max_ℤ t x.to) xs y

with_extent-append :
    (e : Option Extent) (xs ys : List Extent) → with_extent e (xs ++ ys) ≡ with_extent e xs ++ ys
with_extent-append none xs ys = refl
with_extent-append (some x) xs ys = refl

pub extents-append :
    (evs : List MarketEvent) (ev : MarketEvent)
    → extents (evs ++ (ev ∷ [])) ≡ extents evs ++ with_extent (extent ev) []
extents-append [] ev = refl
extents-append (x ∷ evs) ev =
    ap (with_extent (extent x)) (extents-append evs ev)
    ∙ with_extent-append (extent x) (extents evs) (with_extent (extent ev) [])
