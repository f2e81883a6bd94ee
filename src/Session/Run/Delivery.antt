-- ===== src/Session/Run/Delivery.antt =====
-- A cached segment delivers what its plan means to.
use datamancer.Base.{
  ◌≡◌, refl, sym, ap, ◌∙◌, subst, Bool, true, false, Option, none, some, List, [], ◌∷◌,
  if◌then◌else◌, bind-some, pair-eq,
}
use datamancer.Core.Event.{Timestamp, MarketEvent, control}
use datamancer.Channel.{Channel}
use datamancer.Session.Options.{PersistenceOptions}
use datamancer.Session.Tile.{Segment, covered}
use datamancer.Session.Controller.{emit_gap}
use datamancer.Session.Run.{
  Poll, World, SegmentOutcome, done, closed, StoreCall, Stream, replay_loop, key_of,
}
use datamancer.Session.Run.Segments.{
  Flow, continues, breaks, returns, flow_of, edge_of, gap_over, replay_opened, covered_segment,
}
use datamancer.Session.Run.Trace.{identity, Evolves, quiet}
use datamancer.Session.Run.Loops.{hear_all, Ran, replay_loop-Ran, hear_all-nil}
use datamancer.Session.Run.Plan.{
  segment_polls, segment_events, segment_stores, fails, gap_control, emit_gap-Evolves,
}

abbrev pub returned : Flow → Bool
returned returns = true
returned _ = false

module _ (ch : Channel) (w : World ch) (options : PersistenceOptions) where
  pub record Streamed (s s' : Stream ch) (seg : Segment) (stores : List StoreCall) (flow : Flow)
      : Type 0 where
    pub emitted : List MarketEvent
    pub evolves : Evolves ch s.controller s'.controller emitted
    pub full :
        returned flow ≡ false
        → let i = identity ch s.controller in
          let edge = edge_of s.side in
          (flow ≡ (if fails ch w i edge seg then breaks else continues))
          × (emitted ≡ segment_events ch w i edge seg)
          × (s'.side ≡ hear_all ch s.side (segment_polls ch w i edge seg))
          × (stores ≡ segment_stores ch w i edge options seg)

  gap_over-Streamed :
      (s s' : Stream ch) (f t : Timestamp) (flow : Flow)
      → gap_over ch s f t ≡ some (s', flow)
      → Evolves ch s.controller s'.controller
          (control (gap_control (identity ch s.controller) f t) ∷ [])
        × (flow ≡ continues)
        × (s'.side ≡ s.side)
  unfolding gap_over
  gap_over-Streamed s s' f t flow e =
      let (c, gapped, rest) = bind-some (emit_gap ch s.controller f f t) _ (s', flow) e in
      let (same, fl) = pair-eq rest in
      (
        subst
            (λ (x : Stream ch).
              Evolves ch s.controller x.controller
                (control (gap_control (identity ch s.controller) f t) ∷ []))
            same (emit_gap-Evolves ch s.controller c f t gapped),
        sym fl,
        sym (ap (λ (x : Stream ch). x.side) same),
      )

  pub covered_segment-Streamed :
      (s s' : Stream ch) (f t : Timestamp) (flow : Flow)
      → covered_segment ch w s f t ≡ some (s', flow)
      → Streamed s s' (covered f t) [] flow
  unfolding covered_segment replay_opened
  covered_segment-Streamed s s' f t flow e = go s.controller.has_cache refl e
    where
      of_gap :
          segment_events ch w (identity ch s.controller) (edge_of s.side) (covered f t)
            ≡ control (gap_control (identity ch s.controller) f t) ∷ []
          → segment_polls ch w (identity ch s.controller) (edge_of s.side) (covered f t) ≡ []
          → gap_over ch s f t ≡ some (s', flow)
          → Streamed s s' (covered f t) [] flow
      of_gap told quiet e =
          let (v, fl, side) = gap_over-Streamed s s' f t flow e in
          record {
            emitted = control (gap_control (identity ch s.controller) f t) ∷ [];
            evolves = v;
            full = λ r. (
              fl,
              sym told,
              side ∙ hear_all-nil ch s.side ∙ ap (hear_all ch s.side) (sym quiet),
              refl,
            );
          }

      flow_of-done : (o : SegmentOutcome) → returned (flow_of o) ≡ false → o ≡ done
      flow_of-done done r = refl
      flow_of-done closed r = cc

      of_replay :
          (o : Option (List (Poll ch)))
          → w.open_replay (key_of ch s.controller f t) ≡ o
          → s.controller.has_cache ≡ true
          → replay_opened ch s f t o ≡ some (s', flow)
          → Streamed s s' (covered f t) [] flow
      of_replay none found h e = of_gap (rw (h, found)) (rw (h, found)) e
      of_replay (some ps) found h e =
          let ((s1, outcome), ran, rest) = bind-some (replay_loop ch s ps) _ (s', flow) e in
          let (same, fl) = pair-eq rest in
          let v =
            subst (λ (x : Stream ch). Ran ch s x ps outcome) same
              (replay_loop-Ran ch s s1 ps outcome ran) in
          record {
            emitted = v.emitted;
            evolves = v.evolves;
            full = λ r.
                let ended : outcome ≡ done = flow_of-done outcome (ap returned fl ∙ r) in
                let (told, side) = v.full ended in
                (sym fl ∙ ap flow_of ended, rw (h, found) told, rw (h, found) side, refl);
          }

      go :
          (b : Bool)
          → s.controller.has_cache ≡ b
          → (if b
              then replay_opened ch s f t (w.open_replay (key_of ch s.controller f t))
              else gap_over ch s f t)
            ≡ some (s', flow)
          → Streamed s s' (covered f t) [] flow
      go true h e = of_replay (w.open_replay (key_of ch s.controller f t)) refl h e
      go false h e = of_gap (rw h) (rw h) e
