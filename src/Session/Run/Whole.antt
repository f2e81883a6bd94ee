-- ===== src/Session/Run/Whole.antt =====
-- A planned request from end to end: what `stream_segments` delivers, stores and keeps pending.
use datamancer.Base.{
  ◌≡◌, refl, sym, ap, ◌∙◌, subst, Bool, true, false, Option, none, some, List, [], ◌∷◌, ◌++◌,
  if◌then◌else◌, bind-some, triple-eq, ◌>>=◌, append_nil,
}
use datamancer.Core.Event.{Timestamp, MarketEvent}
use datamancer.Channel.{Channel}
use datamancer.Session.Options.{PersistenceOptions}
use datamancer.Session.Tile.{Segment, covered}
use datamancer.Session.Tile
use datamancer.Session.Run.{
  Poll, World, SegmentOutcome, done, closed, BackfillSide, StoreCall, Stream, Fetched, request_of,
  nothing_fetched, fetch_loop,
}
use datamancer.Session.Run.Segments.{
  Flow, continues, breaks, returns, edge_of, covered_segment, fetch_ended, count_fetch, gap_segment,
  one_segment, stream_segments,
}
use datamancer.Session.Run.Trace.{identity, Evolves, Evolves-trans, Evolves_self, quiet}
use datamancer.Session.Run.Loops.{hear_all, hear_all-nil, hear_all-append, fetch_loop-Ran}
use datamancer.Session.Run.Plan.{
  segment_polls, segment_events, segment_stores, fails, attempted, plan_events, plan_polls,
  plan_stores,
}
use datamancer.Session.Run.Delivery.{Streamed, covered_segment-Streamed}
use datamancer.Session.Run.Settle.{sent, writes, fetch_loop-Gathered, settle_fetch-Streamed}

module _ (ch : Channel) (w : World ch) (options : PersistenceOptions) where
  fetch_ended-Streamed :
      (s s1 s' : Stream ch) (f t : Timestamp) (got : Fetched) (outcome : SegmentOutcome)
      (stores : List StoreCall) (flow : Flow)
      → fetch_loop ch
          (writes ch w options s f t)
          (count_fetch ch s)
          nothing_fetched
          (sent ch w options s f t)
        ≡ some (s1, got, outcome)
      → fetch_ended ch options f t
          (w.fetch_history (request_of ch s.controller f t)).1
          (s1, got, outcome)
        ≡ some (s', stores, flow)
      → Streamed ch w options s s' (Tile.gap f t) stores flow
  unfolding fetch_ended
  fetch_ended-Streamed s s1 s' f t got done stores flow ran e =
      settle_fetch-Streamed ch w options s f t s1 s' flow stores got
        (w.fetch_history (request_of ch s.controller f t)).1 refl
        (fetch_loop-Gathered ch w options s f t s1 got ran) e
  fetch_ended-Streamed s s1 s' f t got closed stores flow ran e =
      let (same, st, fl) = triple-eq e in
      let v =
        (fetch_loop-Ran ch (writes ch w options s f t) (count_fetch ch s) nothing_fetched
          (sent ch w options s f t) s1 got closed ran).0 in
      record {
        emitted = v.emitted;
        evolves =
            subst (λ (x : Stream ch). Evolves ch s.controller x.controller v.emitted) same
              (Evolves-trans ch s.controller (count_fetch ch s).controller s1.controller []
                v.emitted
                (quiet ch s.controller (count_fetch ch s).controller refl refl refl refl refl refl)
                v.evolves);
        full = λ r. cc;
      }

  pub one_segment-Streamed :
      (s s' : Stream ch) (seg : Segment) (stores : List StoreCall) (flow : Flow)
      → one_segment ch w options s seg ≡ some (s', stores, flow)
      → Streamed ch w options s s' seg stores flow
  unfolding one_segment gap_segment
  one_segment-Streamed s s' (covered f t) stores flow e =
      let ((s1, fl), ran, rest) = bind-some (covered_segment ch w s f t) _ (s', stores, flow) e in
      let (same, st, fs) = triple-eq rest in
      subst (λ (x : Stream ch). Streamed ch w options s x (covered f t) stores flow) same
        (subst (λ x. Streamed ch w options s s1 (covered f t) x flow) st
          (subst (Streamed ch w options s s1 (covered f t) []) fs
            (covered_segment-Streamed ch w options s s1 f t fl ran)))
  one_segment-Streamed s s' (Tile.gap f t) stores flow e =
      let ((s1, got, outcome), ran, rest) =
        bind-some
          (fetch_loop ch (writes ch w options s f t) (count_fetch ch s) nothing_fetched
            (sent ch w options s f t))
          _ (s', stores, flow) e in
      fetch_ended-Streamed s s1 s' f t got outcome stores flow ran rest

  -- The whole plan.
  pub record Planned (s s' : Stream ch) (segs : List Segment) (stores : List StoreCall)
      (outcome : SegmentOutcome) : Type 0 where
    pub emitted : List MarketEvent
    pub evolves : Evolves ch s.controller s'.controller emitted
    pub full :
        outcome ≡ done
        → let i = identity ch s.controller in
          let edge = edge_of s.side in
          let plan = attempted ch w i edge segs in
          (emitted ≡ plan_events ch w i edge plan)
          × (s'.side ≡ hear_all ch s.side (plan_polls ch w i edge plan))
          × (stores ≡ plan_stores ch w i edge options plan)

  attempted_last :
      (s : Stream ch) (seg : Segment) (segs : List Segment)
      → fails ch w (identity ch s.controller) (edge_of s.side) seg ≡ true
      → attempted ch w (identity ch s.controller) (edge_of s.side) (seg ∷ segs) ≡ seg ∷ []
  unfolding attempted
  attempted_last s seg segs h = rw h

  attempted_more :
      (s : Stream ch) (seg : Segment) (segs : List Segment)
      → fails ch w (identity ch s.controller) (edge_of s.side) seg ≡ false
      → attempted ch w (identity ch s.controller) (edge_of s.side) (seg ∷ segs)
        ≡ seg ∷ attempted ch w (identity ch s.controller) (edge_of s.side) segs
  unfolding attempted
  attempted_more s seg segs h = rw h

  edge_of-hear_all :
      (side : Option BackfillSide) (ps : List (Poll ch))
      → edge_of (hear_all ch side ps) ≡ edge_of side
  edge_of-hear_all none ps = refl
  edge_of-hear_all (some side) ps = refl

  flow-fails : (b : Bool) → continues ≡ (if b then breaks else continues) → b ≡ false
  flow-fails true e = cc
  flow-fails false e = refl

  flow_fails : (b : Bool) → breaks ≡ (if b then breaks else continues) → b ≡ true
  flow_fails true e = refl
  flow_fails false e = cc

  -- After a segment that went well, the plan goes on with the rest.
  Planned-more :
      (s s1 s' : Stream ch) (seg : Segment) (segs : List Segment) (st more : List StoreCall)
      (outcome : SegmentOutcome)
      → Streamed ch w options s s1 seg st continues
      → Planned s1 s' segs more outcome
      → Planned s s' (seg ∷ segs) (st ++ more) outcome
  unfolding plan_events plan_polls plan_stores
  Planned-more s s1 s' seg segs st more outcome v u =
      let i = identity ch s.controller in
      let edge = edge_of s.side in
      let (fl, told, side, stored) = v.full refl in
      let same : identity ch s1.controller ≡ i = v.evolves.keeps in
      let kept : edge_of s1.side ≡ edge = ap edge_of side ∙ edge_of-hear_all s.side _ in
      let plan = attempted ch w i edge segs in
      let cut = attempted_more s seg segs (flow-fails _ fl) in
      record {
        emitted = v.emitted ++ u.emitted;
        evolves =
            Evolves-trans ch s.controller s1.controller s'.controller v.emitted u.emitted v.evolves
              u.evolves;
        full = λ d.
            let (told', side', stored') = u.full d in
            (
              rw (cut, told, told', same, kept),
              rw (
                cut,
                side',
                kept,
                same,
                side,
                hear_all-append ch s.side (segment_polls ch w i edge seg)
                    (plan_polls ch w i edge plan),
              ),
              rw (cut, stored, stored', same, kept),
            );
      }

  -- A segment that fails is the last.
  Planned-last :
      (s s1 : Stream ch) (seg : Segment) (segs : List Segment) (st : List StoreCall)
      → Streamed ch w options s s1 seg st breaks
      → Planned s s1 (seg ∷ segs) st done
  unfolding plan_events plan_polls plan_stores
  Planned-last s s1 seg segs st v =
      let i = identity ch s.controller in
      let edge = edge_of s.side in
      let (fl, told, side, stored) = v.full refl in
      let cut = attempted_last s seg segs (flow_fails _ fl) in
      record {
        emitted = v.emitted;
        evolves = v.evolves;
        full = λ d. (
          told ∙ rw (cut, append_nil (segment_events ch w i edge seg)),
          side ∙ rw (cut, append_nil (segment_polls ch w i edge seg)),
          stored ∙ rw (cut, append_nil (segment_stores ch w i edge options seg)),
        );
      }

  pub stream_segments-Planned :
      (s s' : Stream ch) (segs : List Segment) (stores : List StoreCall) (outcome : SegmentOutcome)
      → stream_segments ch w options s segs ≡ some (s', stores, outcome)
      → Planned s s' segs stores outcome
  unfolding stream_segments attempted plan_events plan_polls plan_stores
  stream_segments-Planned s s' [] stores outcome e =
      let (same, st, o) = triple-eq e in
      record {
        emitted = [];
        evolves =
            subst (λ (x : Stream ch). Evolves ch s.controller x.controller []) same
              (Evolves_self ch s.controller);
        full =
            λ d. (refl, sym (ap (λ (x : Stream ch). x.side) same) ∙ hear_all-nil ch s.side, sym st);
      }
  stream_segments-Planned s s' (seg ∷ segs) stores outcome e =
      let ((s1, st, fl), ran, rest) =
        bind-some (one_segment ch w options s seg) _ (s', stores, outcome) e in
      go s1 st fl (one_segment-Streamed s s1 seg st fl ran)
        (λ x more o r. stream_segments-Planned s1 x segs more o r) rest
    where
      go :
          (s1 : Stream ch) (st : List StoreCall) (fl : Flow)
          → Streamed ch w options s s1 seg st fl
          → ((x : Stream ch) (more : List StoreCall) (o : SegmentOutcome)
              → stream_segments ch w options s1 segs ≡ some (x, more, o)
              → Planned s1 x segs more o)
          → ◌≡◌ {A = Option (Stream ch × List StoreCall × SegmentOutcome)}
              (elim fl [
                | continues ↦ do
                  (x, more, o) ← stream_segments ch w options s1 segs
                  some (x, st ++ more, o)
                | breaks ↦ some (s1, st, done)
                | returns ↦ some (s1, st, closed)
              ])
              (some (s', stores, outcome))
          → Planned s s' (seg ∷ segs) stores outcome
      go s1 st continues v later rest =
          let ((x, more, o), ran, last) =
            bind-some (stream_segments ch w options s1 segs) _ (s', stores, outcome) rest in
          let (same, all, out) = triple-eq last in
          subst (λ (y : Stream ch). Planned s y (seg ∷ segs) stores outcome) same
            (subst (λ y. Planned s x (seg ∷ segs) y outcome) all
              (subst (Planned s x (seg ∷ segs) (st ++ more)) out
                (Planned-more s s1 x seg segs st more o v (later x more o ran))))
      go s1 st breaks v later rest =
          let (same, all, out) = triple-eq rest in
          subst (λ (y : Stream ch). Planned s y (seg ∷ segs) stores outcome) same
            (subst (λ y. Planned s s1 (seg ∷ segs) y outcome) all
              (subst (Planned s s1 (seg ∷ segs) st) out (Planned-last s s1 seg segs st v)))
      go s1 st returns v later rest =
          let (same, all, out) = triple-eq rest in
          subst (λ (y : Stream ch). Planned s y (seg ∷ segs) stores outcome) same
            (subst (Planned s s1 (seg ∷ segs) stores) out
              (record { emitted = v.emitted; evolves = v.evolves; full = λ d. cc }))

  -- A planned request that is not cut short delivers what the plan means to, up to the first fetch
  -- that fails: the items of each cached segment, or a gap where there is no replay; the items of
  -- each fetched segment, and after a failure a gap over what was not confirmed and the provider's
  -- error. The events are numbered one after the other from the session's counter, and none goes to
  -- the tap log. Each fetched segment is stored with all its items, with a claim to all of it, or
  -- only to the last item where the fetch failed or ran up to the live edge. The live arrivals that
  -- came meanwhile are pending, in order.
  pub stream_segments_done :
      (s s' : Stream ch) (segs : List Segment) (stores : List StoreCall)
      → stream_segments ch w options s segs ≡ some (s', stores, done)
      → let i = identity ch s.controller in
        let edge = edge_of s.side in
        let plan = attempted ch w i edge segs in
        Evolves ch s.controller s'.controller (plan_events ch w i edge plan)
        × (s'.side ≡ hear_all ch s.side (plan_polls ch w i edge plan))
        × (stores ≡ plan_stores ch w i edge options plan)
  stream_segments_done s s' segs stores e =
      let v = stream_segments-Planned s s' segs stores done e in
      let (told, side, stored) = v.full refl in
      (subst (Evolves ch s.controller s'.controller) told v.evolves, side, stored)

  -- However a planned request ends, by a close, a last leave or an end of the plan, some events were
  -- delivered, numbered one after the other from the session's counter, among joins and leaves of
  -- referrers, and nothing went to the tap log.
  pub stream_segments-Evolves :
      (s s' : Stream ch) (segs : List Segment) (stores : List StoreCall) (outcome : SegmentOutcome)
      → stream_segments ch w options s segs ≡ some (s', stores, outcome)
      → (evs : List MarketEvent) × Evolves ch s.controller s'.controller evs
  stream_segments-Evolves s s' segs stores outcome e =
      let v = stream_segments-Planned s s' segs stores outcome e in (v.emitted, v.evolves)
