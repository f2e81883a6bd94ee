-- ===== src/Session/Live/Backfill.antt =====
-- A backfill from end to end: the plan, and then the seam.
use datamancer.Base.{
  ◌≡◌, refl, sym, ap, ◌∙◌, Bool, true, false, Option, some, List, [], ◌∷◌, ◌++◌, if◌then◌else◌,
  bind-some, some-eq, triple-eq, ◌>>=◌,
}
use datamancer.Base.Int.{leb_ℤ}
use datamancer.Core.Event.{Timestamp, MarketEvent}
use datamancer.Channel.{Channel}
use datamancer.Session.Ring
use datamancer.Session.Ring.{EventRing, push_all}
use datamancer.Session.Tile.{Segment, tile}
use datamancer.Session.Controller.{Controller, forward, live_arrival}
use datamancer.Session.Lifecycle.{forward_all, flush_backfill_pending}
use datamancer.Session.Lifecycle.Seam.{report, flush-forward_all}
use datamancer.Session.Run.{World, SegmentOutcome, done, closed, BackfillSide, StoreCall, Stream}
use datamancer.Session.Run.Segments.{stream_segments}
use datamancer.Session.Run.Trace.{identity, Evolves, Evolves-trans, quiet}
use datamancer.Session.Run.Loops.{heard}
use datamancer.Session.Run.Plan.{attempted, plan_events, plan_polls, plan_stores}
use datamancer.Session.Run.Whole.{stream_segments_done, stream_segments-Evolves}
use datamancer.Session.Live.{
  backfill_gaps, with_backfilling, pending_of, backfill_ended, run_backfill,
}
use datamancer.Session.Live.Ending.{forward_with-unsubscribes}

module _ (ch : Channel) where
  -- The stream that a backfill starts with.
  abbrev pub backfill_start : Controller ch → Timestamp → Stream ch
  backfill_start c edge =
      let side : BackfillSide = record {
        edge = edge;
        is_open = true;
        pending = Ring.new c.ring_capacity;
      } in
      record { controller = with_backfilling ch c true; side = some side }

  forward_all-unsubscribes :
      (c c' : Controller ch) (evs : List MarketEvent)
      → forward_all ch c evs ≡ some c'
      → c'.accounting.unsubscribes ≡ c.accounting.unsubscribes
  unfolding forward_all forward
  forward_all-unsubscribes c c' [] e =
      ap (λ (x : Controller ch). x.accounting.unsubscribes) (sym (some-eq e))
  forward_all-unsubscribes c c' (ev ∷ evs) e =
      let (d, sent, rest) = bind-some (forward ch c ev) _ c' e in
      forward_all-unsubscribes d c' evs rest ∙ forward_with-unsubscribes ch c d ev live_arrival sent

  module _ (w : World ch) (c : Controller ch) (from edge : Timestamp) where
    abbrev pub backfill_plan : List Segment
    backfill_plan =
        attempted ch w (identity ch c) (some edge) (tile from edge (backfill_gaps ch w c from edge))

    -- The session when the plan is done and when the seam is.
    pub record Stitched (c' : Controller ch) (stores : List StoreCall) : Type 0 where
      pub planned : Controller ch
      pub delivers :
          Evolves ch c planned (plan_events ch w (identity ch c) (some edge) backfill_plan)
      pub seam : Controller ch
      pub flushed :
          let heard_all =
            heard ch true (plan_polls ch w (identity ch c) (some edge) backfill_plan) in
          let ring = push_all (Ring.new c.ring_capacity) heard_all in
          forward_all ch planned (report ch planned ring.dropped ++ ring.buf) ≡ some seam
      pub result : c' ≡ with_backfilling ch seam false
      pub stored : stores ≡ plan_stores ch w (identity ch c) (some edge) c.persistence backfill_plan

    stitched :
        (s : Stream ch) (c' : Controller ch) (stores stores' : List StoreCall)
        → stream_segments ch w c.persistence
            (backfill_start c edge)
            (tile from edge (backfill_gaps ch w c from edge))
          ≡ some (s, stores, done)
        → backfill_ended ch (Ring.new c.ring_capacity) (s, stores, done) ≡ some (c', stores', true)
        → Stitched c' stores'
    unfolding backfill_ended pending_of
    stitched s c' stores stores' ran e =
        let (v, side, st) =
          stream_segments_done ch w c.persistence (backfill_start c edge) s
            (tile from edge (backfill_gaps ch w c from edge)) stores ran in
        let (d, flushed, rest) =
          bind-some
            (flush_backfill_pending ch s.controller (pending_of s.side (Ring.new c.ring_capacity)))
            _ (c', stores', true) e in
        let (same, st', t) = triple-eq rest in
        record {
          planned = s.controller;
          delivers =
              Evolves-trans ch c (with_backfilling ch c true) s.controller [] _
                (quiet ch c (with_backfilling ch c true) refl refl refl refl refl refl) v;
          seam = d;
          flushed =
              sym (
                flush-forward_all ch s.controller (
                  push_all (Ring.new c.ring_capacity)
                    (heard ch true (plan_polls ch w (identity ch c) (some edge) backfill_plan))))
              ∙ ap
                  (λ o.
                    flush_backfill_pending ch s.controller
                      (pending_of o (Ring.new c.ring_capacity)))
                  (sym side)
              ∙ flushed;
          result = sym same;
          stored = sym st' ∙ st;
        }

    backfill_ended-kept :
        (s : Stream ch) (c' : Controller ch) (stores stores' : List StoreCall)
        (outcome : SegmentOutcome) (on : Bool)
        → backfill_ended ch (Ring.new c.ring_capacity) (s, stores, outcome) ≡ some (c', stores', on)
        → (c'.stats.backfilling ≡ false)
          × (c'.accounting.unsubscribes ≡ s.controller.accounting.unsubscribes)
    unfolding backfill_ended flush_backfill_pending
    backfill_ended-kept s c' stores stores' closed on e =
        let (same, st, o) = triple-eq e in
        (
          ap (λ (x : Controller ch). x.stats.backfilling) (sym same),
          ap (λ (x : Controller ch). x.accounting.unsubscribes) (sym same),
        )
    backfill_ended-kept s c' stores stores' done on e =
        let ring = pending_of s.side (Ring.new c.ring_capacity) in
        let (d, flushed, rest) =
          bind-some (flush_backfill_pending ch s.controller ring) _ (c', stores', on) e in
        let (same, st, o) = triple-eq rest in
        (
          ap (λ (x : Controller ch). x.stats.backfilling) (sym same),
          ap (λ (x : Controller ch). x.accounting.unsubscribes) (sym same)
              ∙ forward_all-unsubscribes s.controller d _
                  (sym (flush-forward_all ch s.controller ring) ∙ flushed),
        )

    -- A backfill of a session that goes on: the plan up to the edge is delivered; then the live
    -- arrivals that came meanwhile, as the ring has kept them, are forwarded after a gap over the
    -- loss, if there is one; then the session is no longer backfilling. What the cache was told is
    -- what the plan fetched.
    pub run_backfill-Stitched :
        (c' : Controller ch) (stores : List StoreCall)
        → leb_ℤ edge from ≡ false
        → run_backfill ch w c from edge ≡ some (c', stores, true)
        → Stitched c' stores
    unfolding run_backfill backfill_ended
    run_backfill-Stitched c' stores late e =
        let segs = tile from edge (backfill_gaps ch w c from edge) in
        let begun : ◌>>=◌ {B = Controller ch × List StoreCall × Bool}
              (stream_segments ch w c.persistence (backfill_start c edge) segs)
              (backfill_ended ch (Ring.new c.ring_capacity))
            ≡ some (c', stores, true) =
          rw late at e in
        let ((s, st, outcome), ran, rest) =
          bind-some (stream_segments ch w c.persistence (backfill_start c edge) segs) _
            (c', stores, true) begun in
        go s st outcome ran rest
      where
        go :
            (s : Stream ch) (st : List StoreCall) (outcome : SegmentOutcome)
            → stream_segments ch w c.persistence
                (backfill_start c edge)
                (tile from edge (backfill_gaps ch w c from edge))
              ≡ some (s, st, outcome)
            → backfill_ended ch (Ring.new c.ring_capacity) (s, st, outcome)
              ≡ some (c', stores, true)
            → Stitched c' stores
        go s st done ran rest = stitched s c' st stores ran rest
        go s st closed ran rest = let clash : false ≡ true = (triple-eq rest).2 in cc

    -- However a backfill ends, the session is not left marked as backfilling, and the upstream is
    -- still held.
    pub run_backfill-kept :
        (c' : Controller ch) (stores : List StoreCall) (on : Bool)
        → c.stats.backfilling ≡ false
        → run_backfill ch w c from edge ≡ some (c', stores, on)
        → (c'.stats.backfilling ≡ false) × (c'.accounting.unsubscribes ≡ c.accounting.unsubscribes)
    unfolding run_backfill
    run_backfill-kept c' stores on quiet_before e = go (leb_ℤ edge from) e
      where
        go :
            (b : Bool)
            → ◌≡◌ {A = Option (Controller ch × List StoreCall × Bool)}
                (if b
                  then some (c, [], true)
                  else (stream_segments ch w c.persistence
                        (backfill_start c edge)
                        (tile from edge (backfill_gaps ch w c from edge))
                      >>= backfill_ended ch (Ring.new c.ring_capacity)))
                (some (c', stores, on))
            → (c'.stats.backfilling ≡ false)
              × (c'.accounting.unsubscribes ≡ c.accounting.unsubscribes)
        go true e =
            let (same, st, o) = triple-eq e in
            (
              ap (λ (x : Controller ch). x.stats.backfilling) (sym same) ∙ quiet_before,
              ap (λ (x : Controller ch). x.accounting.unsubscribes) (sym same),
            )
        go false e =
            let segs = tile from edge (backfill_gaps ch w c from edge) in
            let ((s, st, outcome), ran, rest) =
              bind-some (stream_segments ch w c.persistence (backfill_start c edge) segs) _
                (c', stores, on) e in
            let (evs, v) =
              stream_segments-Evolves ch w c.persistence (backfill_start c edge) s segs st outcome
                ran in
            let (flag, held) = backfill_ended-kept s c' st stores outcome on rest in
            (flag, held ∙ v.holds)
