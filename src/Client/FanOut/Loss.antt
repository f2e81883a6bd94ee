-- ===== src/Client/FanOut/Loss.antt =====
-- The trades, quotes, bars and gaps that a referrer misses are reported to it.
use datamancer.Base.{
  ◌≡◌, refl, sym, subst, ◌⊎◌, inl, inr, false, Option, none, some, String, List, [], ◌∷◌, ◌++◌,
  ◌≤ℤ◌, arith,
}
use datamancer.Core.Instrument.{Instrument}
use datamancer.Core.Event.{
  GapSpan, MarketEvent, control, ControlKind, gap, trade, quote, bar, provider_connected,
  provider_disconnected, provider_error, subscription_changed, session_closing,
}
use datamancer.Core.Extent.{Extent, extent, kind_extent}
use datamancer.Channel.{Channel, TrySend, accepted, full, closed}
use datamancer.Client.FanOut.{
  PendingGap, Coords, absorb, to_event, gap_coords, absorb_drop, absorb_coords, control_coords,
  data_coords, Referrer, serve, serve_pending, settle, settle_gap, offer,
}

-- The span holds what the coordinates say is lost.
abbrev SpanHolds : GapSpan → Extent → Type 0
SpanHolds span c = (span.from_source_ts ≤ℤ c.from) × (c.to ≤ℤ span.to_source_ts)

abbrev KindReports : ControlKind → Extent → Type 0
KindReports (gap provider instrument span) c = (instrument ≡ c.instrument) × SpanHolds span c
KindReports _ c = ⊥

-- A received event is the lost one, or a gap report on its instrument over its span.
abbrev pub Reports : MarketEvent → MarketEvent → Extent → Type 0
Reports (control r) ev c = (control r ≡ ev) ⊎ KindReports r.kind c
Reports (trade r) ev c = trade r ≡ ev
Reports (quote r) ev c = quote r ≡ ev
Reports (bar r) ev c = bar r ≡ ev

abbrev SomeReports : List MarketEvent → MarketEvent → Extent → Type 0
SomeReports [] ev c = ⊥
SomeReports (r ∷ rs) ev c = Reports r ev c ⊎ SomeReports rs ev c

abbrev Owed : Option PendingGap → Extent → Type 0
Owed none c = ⊥
Owed (some p) c = (p.instrument ≡ c.instrument) × SpanHolds p.span c

abbrev Accounted : List MarketEvent → Option PendingGap → MarketEvent → Option Extent → Type 0
Accounted received pending ev none = Unit
Accounted received pending ev (some c) = SomeReports received ev c ⊎ Owed pending c

SomeReports-append :
    (rs ss : List MarketEvent) (ev : MarketEvent) (c : Extent)
    → SomeReports rs ev c
    → SomeReports (rs ++ ss) ev c
SomeReports-append (r ∷ rs) ss ev c (inl h) = inl h
SomeReports-append (r ∷ rs) ss ev c (inr h) = inr (SomeReports-append rs ss ev c h)
SomeReports-append [] ss ev c h = absurd h

SomeReports-last :
    (rs : List MarketEvent) (r ev : MarketEvent) (c : Extent)
    → Reports r ev c
    → SomeReports (rs ++ (r ∷ [])) ev c
SomeReports-last [] r ev c h = inl h
SomeReports-last (x ∷ rs) r ev c h = inr (SomeReports-last rs r ev c h)

Reports-self : (ev : MarketEvent) (c : Extent) → Reports ev ev c
Reports-self (control r) c = inl refl
Reports-self (trade r) c = refl
Reports-self (quote r) c = refl
Reports-self (bar r) c = refl

-- The code's coordinates of a dropped event are its extent, with a provider.
abbrev coords_from : Option Extent → String → Option Coords
coords_from none provider = none
coords_from (some x) provider = some (record {
  instrument = x.instrument;
  from = x.from;
  to = x.to;
  provider = provider;
  seq = x.seq;
})

gap_coords-extent :
    (ev : MarketEvent) → (provider : String) × (gap_coords ev ≡ coords_from (extent ev) provider)
unfolding gap_coords control_coords data_coords
gap_coords-extent (trade t) = (t.instrument.provider, refl)
gap_coords-extent (quote q) = (q.instrument.provider, refl)
gap_coords-extent (bar b) = (b.instrument.provider, refl)
gap_coords-extent (control c) = go c.kind
  where
    go :
        (kind : ControlKind)
        → (provider : String) × (control_coords kind c.seq
            ≡ coords_from (kind_extent kind c.seq) provider)
    go (provider_connected p) = (p, refl)
    go (provider_disconnected p reason cause) = (p, refl)
    go (provider_error p message) = (p, refl)
    go (subscription_changed p i k active) = (p, refl)
    go (gap p i span) = (p, refl)
    go session_closing = ("", refl)

Owed-absorb_drop :
    (pending : Option PendingGap) (ev : MarketEvent) (c : Extent)
    → Owed pending c
    → Owed (absorb_drop pending ev) c
unfolding absorb_drop
Owed-absorb_drop (some p) ev c h = go (gap_coords ev)
  where
    go : (k : Option Coords) → Owed (absorb_coords (some p) k) c
    go none = h
    go (some k) = ground arith
Owed-absorb_drop none ev c h = absurd h

-- The gap that is owed, if any, is on the instrument.
abbrev pub PendingFor : Instrument → Option PendingGap → Type 0
PendingFor i none = Unit
PendingFor i (some p) = p.instrument ≡ i

abbrev pub ExtentFor : Instrument → Option Extent → Type 0
ExtentFor i none = Unit
ExtentFor i (some c) = c.instrument ≡ i

pub absorb_drop-PendingFor :
    (i : Instrument) (pending : Option PendingGap) (ev : MarketEvent)
    → ExtentFor i (extent ev)
    → PendingFor i pending
    → PendingFor i (absorb_drop pending ev)
unfolding absorb_drop absorb
absorb_drop-PendingFor i pending ev f h =
    let (provider, e) = gap_coords-extent ev in rw e (go pending (extent ev) provider f h)
  where
    go :
        (q : Option PendingGap) (x : Option Extent) (provider : String)
        → ExtentFor i x
        → PendingFor i q
        → PendingFor i (absorb_coords q (coords_from x provider))
    go none none provider f h = tt
    go (some p) none provider f h = h
    go none (some x) provider f h = f
    go (some p) (some x) provider f h = h

Owed-dropped :
    (pending : Option PendingGap) (ev : MarketEvent) (c : Extent)
    → PendingFor c.instrument pending
    → extent ev ≡ some c
    → Owed (absorb_drop pending ev) c
unfolding absorb_drop absorb
Owed-dropped none ev c h e =
    let (provider, same) = gap_coords-extent ev in rw (same, e) (refl, (omega arith, omega arith))
Owed-dropped (some p) ev c h e =
    let (provider, same) = gap_coords-extent ev in rw (same, e) (h, (ground arith, ground arith))

module _ (ch : Channel) where
  -- What the referrer was given of an event: itself, or a report, or a gap it is still owed.
  abbrev pub IsAccounted : Referrer ch → MarketEvent → Type 0
  IsAccounted r ev = Accounted (ch.received r.tx) r.pending ev (extent ev)

  Accounted-append :
      (rs ss : List MarketEvent) (q : Option PendingGap) (ev : MarketEvent) (c : Option Extent)
      → Accounted rs q ev c
      → Accounted (rs ++ ss) q ev c
  Accounted-append rs ss q ev none h = tt
  Accounted-append rs ss q ev (some c) (inl h) = inl (SomeReports-append rs ss ev c h)
  Accounted-append rs ss q ev (some c) (inr h) = inr h

  Accounted-absorb :
      (rs : List MarketEvent) (q : Option PendingGap) (ev : MarketEvent) (c : Option Extent)
      (lost : MarketEvent)
      → Accounted rs q ev c
      → Accounted rs (absorb_drop q lost) ev c
  Accounted-absorb rs q ev none lost h = tt
  Accounted-absorb rs q ev (some c) lost (inl h) = inl h
  Accounted-absorb rs q ev (some c) lost (inr h) = inr (Owed-absorb_drop q lost c h)

  -- A gap that is handed over reports what it was owed for.
  Accounted-flush :
      (rs : List MarketEvent) (p : PendingGap) (ev : MarketEvent) (c : Option Extent)
      → Accounted rs (some p) ev c
      → Accounted (rs ++ (to_event p ∷ [])) none ev c
  unfolding to_event
  Accounted-flush rs p ev none h = tt
  Accounted-flush rs p ev (some c) (inl h) = inl (SomeReports-append rs _ ev c h)
  Accounted-flush rs p ev (some c) (inr h) = inl (SomeReports-last rs _ ev c (inr h))

  module _ (r : Referrer ch) (ev : MarketEvent) where
    settle-keeps :
        (res : TrySend) (tx : ch.Tx) (old : MarketEvent)
        → (res ≡ accepted → ch.received tx ≡ ch.received r.tx ++ (ev ∷ []))
        → (res ≡ full → ch.received tx ≡ ch.received r.tx)
        → IsAccounted r old
        → (settle ch r ev (res, tx)).1 ≡ false
        → IsAccounted (settle ch r ev (res, tx)).0 old
    unfolding settle
    settle-keeps accepted tx old a f h live =
        rw (a refl) (Accounted-append (ch.received r.tx) (ev ∷ []) r.pending old (extent old) h)
    settle-keeps full tx old a f h live =
        rw (f refl) (Accounted-absorb (ch.received r.tx) r.pending old (extent old) ev h)
    settle-keeps closed tx old a f h live = cc

    settle-counts :
        (res : TrySend) (tx : ch.Tx) (c : Extent)
        → (res ≡ accepted → ch.received tx ≡ ch.received r.tx ++ (ev ∷ []))
        → PendingFor c.instrument r.pending
        → extent ev ≡ some c
        → (settle ch r ev (res, tx)).1 ≡ false
        → IsAccounted (settle ch r ev (res, tx)).0 ev
    unfolding settle
    settle-counts accepted tx c a h e live =
        rw (e, a refl) (inl (SomeReports-last (ch.received r.tx) ev ev c (Reports-self ev c)))
    settle-counts full tx c a h e live =
        subst (Accounted (ch.received tx) (absorb_drop r.pending ev) ev) (sym e)
          (inr (Owed-dropped r.pending ev c h e))
    settle-counts closed tx c a h e live = cc

    offer-keeps :
        (old : MarketEvent)
        → IsAccounted r old
        → (offer ch r ev).1 ≡ false
        → IsAccounted (offer ch r ev).0 old
    unfolding offer
    offer-keeps old =
        let (res, tx) = ch.try_send r.tx ev in
        settle-keeps res tx old (ch.try_send_accepts r.tx ev) (ch.try_send_full r.tx ev)

    offer-counts :
        (c : Extent)
        → PendingFor c.instrument r.pending
        → extent ev ≡ some c
        → (offer ch r ev).1 ≡ false
        → IsAccounted (offer ch r ev).0 ev
    unfolding offer
    offer-counts c =
        let (res, tx) = ch.try_send r.tx ev in settle-counts res tx c (ch.try_send_accepts r.tx ev)

  module _ (r : Referrer ch) (p : PendingGap) (ev : MarketEvent) (owes : r.pending ≡ some p) where
    settle_gap-keeps :
        (res : TrySend) (tx : ch.Tx) (old : MarketEvent)
        → (res ≡ accepted → ch.received tx ≡ ch.received r.tx ++ (to_event p ∷ []))
        → (res ≡ full → ch.received tx ≡ ch.received r.tx)
        → IsAccounted r old
        → (settle_gap ch r ev (res, tx)).1 ≡ false
        → IsAccounted (settle_gap ch r ev (res, tx)).0 old
    unfolding settle_gap
    settle_gap-keeps accepted tx old a f h live =
        offer-keeps (record { tx = tx; pending = none }) ev old
          (rw (a refl) (Accounted-flush (ch.received r.tx) p old (extent old) (rw owes at h))) live
    settle_gap-keeps full tx old a f h live =
        rw (f refl) (Accounted-absorb (ch.received r.tx) r.pending old (extent old) ev h)
    settle_gap-keeps closed tx old a f h live = cc

    settle_gap-counts :
        (res : TrySend) (tx : ch.Tx) (c : Extent)
        → PendingFor c.instrument r.pending
        → extent ev ≡ some c
        → (settle_gap ch r ev (res, tx)).1 ≡ false
        → IsAccounted (settle_gap ch r ev (res, tx)).0 ev
    unfolding settle_gap
    settle_gap-counts accepted tx c h e live =
        offer-counts (record { tx = tx; pending = none }) ev c tt e live
    settle_gap-counts full tx c h e live =
        subst (Accounted (ch.received tx) (absorb_drop r.pending ev) ev) (sym e)
          (inr (Owed-dropped r.pending ev c h e))
    settle_gap-counts closed tx c h e live = cc

  module _ (r : Referrer ch) (ev : MarketEvent) where
    pub serve-keeps :
        (old : MarketEvent)
        → IsAccounted r old
        → (serve ch r ev).1 ≡ false
        → IsAccounted (serve ch r ev).0 old
    unfolding serve
    serve-keeps old = go r.pending refl
      where
        go :
            (q : Option PendingGap)
            → r.pending ≡ q
            → IsAccounted r old
            → (serve_pending ch r ev q).1 ≡ false
            → IsAccounted (serve_pending ch r ev q).0 old
        go none e = offer-keeps r ev old
        go (some p) e =
            let (res, tx) = ch.try_send r.tx (to_event p) in
            settle_gap-keeps r p ev e res tx old (ch.try_send_accepts r.tx (to_event p))
              (ch.try_send_full r.tx (to_event p))

    pub serve-counts :
        (c : Extent)
        → PendingFor c.instrument r.pending
        → extent ev ≡ some c
        → (serve ch r ev).1 ≡ false
        → IsAccounted (serve ch r ev).0 ev
    unfolding serve
    serve-counts c = go r.pending refl
      where
        go :
            (q : Option PendingGap)
            → r.pending ≡ q
            → PendingFor c.instrument r.pending
            → extent ev ≡ some c
            → (serve_pending ch r ev q).1 ≡ false
            → IsAccounted (serve_pending ch r ev q).0 ev
        go none e = offer-counts r ev c
        go (some p) e =
            let (res, tx) = ch.try_send r.tx (to_event p) in settle_gap-counts r p ev e res tx c
