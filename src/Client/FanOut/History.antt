-- ===== src/Client/FanOut/History.antt =====
-- A referrer over its whole life.
use datamancer.Base.{
  suc, ◌≤◌, ◌≡◌, subst, false, Option, none, some, List, [], ◌∷◌, All, Option-cases, inl, inr, sym,
}
use datamancer.Core.Instrument.{Instrument}
use datamancer.Core.Event.{Seq, MarketEvent}
use datamancer.Core.Extent.{extent}
use datamancer.Channel.{Channel, TrySend, accepted, full, closed}
use datamancer.Client.FanOut.{
  PendingGap, to_event, Referrer, serve, serve_pending, settle, settle_gap, offer,
}
use datamancer.Client.FanOut.Loss.{
  IsAccounted, PendingFor, ExtentFor, absorb_drop-PendingFor, serve-keeps, serve-counts,
}
use datamancer.Client.FanOut.Order.{seq_of, IsOrdered, serve-IsOrdered}

-- The referrer after it was served the events of a history, newest first, with its consumer taking
-- events from the channel in between.
pub data Served (ch : Channel) (start : Referrer ch) : List MarketEvent → Referrer ch → Type 0 where
  joined : Served ch start [] start
  delivered :
      {h : List MarketEvent} {r : Referrer ch} (ev : MarketEvent)
      → Served ch start h r
      → (serve ch r ev).1 ≡ false
      → Served ch start (ev ∷ h) (serve ch r ev).0
  consumed :
      {h : List MarketEvent} {r : Referrer ch} (tx : ch.Tx)
      → Served ch start h r
      → ch.received tx ≡ ch.received r.tx
      → Served ch start h (record r { tx = tx })

-- The history, newest first, is numbered strictly rising from `start` on.
abbrev pub next_seq : Seq → List MarketEvent → Seq
next_seq start [] = start
next_seq start (ev ∷ h) = suc (seq_of ev)

abbrev IsNumbered : Seq → List MarketEvent → Type 0
IsNumbered start [] = Unit
IsNumbered start (ev ∷ h) = (next_seq start h ≤ seq_of ev) × IsNumbered start h

module _ (ch : Channel) where
  settle-PendingFor :
      (i : Instrument) (r : Referrer ch) (ev : MarketEvent) (res : TrySend) (tx : ch.Tx)
      → ExtentFor i (extent ev)
      → PendingFor i r.pending
      → PendingFor i (settle ch r ev (res, tx)).0.pending
  unfolding settle
  settle-PendingFor i r ev accepted tx f h = h
  settle-PendingFor i r ev full tx f h = absorb_drop-PendingFor i r.pending ev f h
  settle-PendingFor i r ev closed tx f h = h

  settle_gap-PendingFor :
      (i : Instrument) (r : Referrer ch) (ev : MarketEvent) (res : TrySend) (tx : ch.Tx)
      → ExtentFor i (extent ev)
      → PendingFor i r.pending
      → PendingFor i (settle_gap ch r ev (res, tx)).0.pending
  unfolding settle_gap offer
  settle_gap-PendingFor i r ev accepted tx f h =
      let (res, tx') = ch.try_send tx ev in
      settle-PendingFor i (record { tx = tx; pending = none }) ev res tx' f tt
  settle_gap-PendingFor i r ev full tx f h = absorb_drop-PendingFor i r.pending ev f h
  settle_gap-PendingFor i r ev closed tx f h = h

  serve-PendingFor :
      (i : Instrument) (r : Referrer ch) (ev : MarketEvent)
      → ExtentFor i (extent ev)
      → PendingFor i r.pending
      → PendingFor i (serve ch r ev).0.pending
  unfolding serve offer
  serve-PendingFor i r ev = go r.pending
    where
      go :
          (q : Option PendingGap)
          → ExtentFor i (extent ev)
          → PendingFor i r.pending
          → PendingFor i (serve_pending ch r ev q).0.pending
      go none = let (res, tx) = ch.try_send r.tx ev in settle-PendingFor i r ev res tx
      go (some p) =
          let (res, tx) = ch.try_send r.tx (to_event p) in settle_gap-PendingFor i r ev res tx

  Served-PendingFor :
      (i : Instrument) (start : Referrer ch) {h : List MarketEvent} {r : Referrer ch}
      → Served ch start h r
      → PendingFor i start.pending
      → All (λ ev. ExtentFor i (extent ev)) h
      → PendingFor i r.pending
  Served-PendingFor i start joined p f = p
  Served-PendingFor i start (delivered {r = r} ev s live) p f =
      serve-PendingFor i r ev f.0 (Served-PendingFor i start s p f.1)
  Served-PendingFor i start (consumed tx s e) p f = Served-PendingFor i start s p f

  All-keeps :
      (r : Referrer ch) (ev : MarketEvent) (h : List MarketEvent)
      → (serve ch r ev).1 ≡ false
      → All (IsAccounted ch r) h
      → All (IsAccounted ch (serve ch r ev).0) h
  All-keeps r ev [] live a = tt
  All-keeps r ev (x ∷ h) live a = (serve-keeps ch r ev x a.0 live, All-keeps r ev h live a.1)

  All-consumed :
      (r : Referrer ch) (tx : ch.Tx) (h : List MarketEvent)
      → ch.received tx ≡ ch.received r.tx
      → All (IsAccounted ch r) h
      → All (IsAccounted ch (record r { tx = tx })) h
  All-consumed r tx [] e a = tt
  All-consumed r tx (x ∷ h) e a = (rw e a.0, All-consumed r tx h e a.1)

  serve_self :
      (i : Instrument) (r : Referrer ch) (ev : MarketEvent)
      → ExtentFor i (extent ev)
      → PendingFor i r.pending
      → (serve ch r ev).1 ≡ false
      → IsAccounted ch (serve ch r ev).0 ev
  serve_self i r ev f p live = elim (Option-cases (extent ev)) [
    | inl e ↦ rw e tt
    | inr (c, e) ↦
        let same : c.instrument ≡ i = rw e at f in
        serve-counts ch r ev c (subst (λ j. PendingFor j r.pending) (sym same) p) e live
  ]

  -- A referrer that joined with nothing owed and is served the events of one instrument, its
  -- consumer reading in between, is told of each trade, quote, bar and gap among them: it received
  -- the event itself, or a gap over its instant or span, or is still owed such a gap. Other controls
  -- may be lost without a report.
  pub Served-IsAccounted :
      (i : Instrument) (start : Referrer ch) {h : List MarketEvent} {r : Referrer ch}
      → Served ch start h r
      → start.pending ≡ none
      → All (λ ev. ExtentFor i (extent ev)) h
      → All (IsAccounted ch r) h
  Served-IsAccounted i start joined p f = tt
  Served-IsAccounted i start (delivered {h = h} {r = r} ev s live) p f = (
    serve_self i r ev f.0 (Served-PendingFor i start s (rw p tt) f.1) live,
    All-keeps r ev h live (Served-IsAccounted i start s p f.1),
  )
  Served-IsAccounted i start (consumed {h = h} {r = r} tx s e) p f =
      All-consumed r tx h e (Served-IsAccounted i start s p f)

  -- If it joined with a rising channel, and the events are numbered strictly rising beyond it, then
  -- what it has received rises strictly, gap reports included, and any gap it is owed is numbered
  -- between what it received and the next event.
  pub Served-IsOrdered :
      (start : Referrer ch) (n : Seq) {h : List MarketEvent} {r : Referrer ch}
      → Served ch start h r
      → IsOrdered ch start n
      → IsNumbered n h
      → IsOrdered ch r (next_seq n h)
  Served-IsOrdered start n joined o f = o
  Served-IsOrdered start n (delivered {h = h} {r = r} ev s live) o f =
      serve-IsOrdered ch r ev (next_seq n h) f.0 (Served-IsOrdered start n s o f.1) live
  Served-IsOrdered start n (consumed tx s e) o f = rw e (Served-IsOrdered start n s o f)
