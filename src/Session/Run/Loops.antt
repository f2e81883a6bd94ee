-- ===== src/Session/Run/Loops.antt =====
-- The two `select!` loops of `stream_segments`, over all their polls.
use datamancer.Base.{
  ◌≡◌, refl, sym, ap, ◌∙◌, subst, Bool, true, false, Option, none, some, List, [], ◌∷◌, ◌++◌, arith,
  bind-some, pair-eq, triple-eq,
}
use datamancer.Core.Event.{MarketEvent}
use datamancer.Channel.{Channel}
use datamancer.Session.Ring.{push_all}
use datamancer.Session.Controller.{emit}
use datamancer.Session.Lifecycle.{handle_command}
use datamancer.Session.Run.{
  Poll, command, removal, arrival, item, SegmentOutcome, done, closed, BackfillSide, Stream, round,
  removal_arm, live_arm, replay_loop, Fetched, gather, fetch_loop,
}
use datamancer.Session.Run.Trace.{Evolves, Evolves-trans, Evolves_self}
use datamancer.Session.Run.Rounds.{items, round-Evolves}

module _ (ch : Channel) where
  -- The live arrivals among polls, as long as the live side is open, and whether it still is.
  abbrev pub heard : Bool → List (Poll ch) → List MarketEvent
  heard false ps = []
  heard true [] = []
  heard true (arrival none ∷ ps) = []
  heard true (arrival (some ev) ∷ ps) = ev ∷ heard true ps
  heard true (_ ∷ ps) = heard true ps

  abbrev pub still_open : Bool → List (Poll ch) → Bool
  still_open false ps = false
  still_open true [] = true
  still_open true (arrival none ∷ ps) = false
  still_open true (_ ∷ ps) = still_open true ps

  -- The live side after polls: all that was heard is pending, in order.
  abbrev pub hear_all : Option BackfillSide → List (Poll ch) → Option BackfillSide
  hear_all none ps = none
  hear_all (some side) ps = some (record side {
    is_open = still_open side.is_open ps;
    pending = push_all side.pending (heard side.is_open ps);
  })

  hear_all-one :
      (side : Option BackfillSide) (p : Poll ch) (ps : List (Poll ch))
      → hear_all side (p ∷ ps) ≡ hear_all (hear_all side (p ∷ [])) ps
  unfolding push_all
  hear_all-one none p ps = refl
  hear_all-one (some side) p ps = go side.is_open p
    where
      go :
          (b : Bool) (p : Poll ch)
          → hear_all (some (record side { is_open = b })) (p ∷ ps)
            ≡ hear_all (hear_all (some (record side { is_open = b })) (p ∷ [])) ps
      go false p = refl
      go true (command cmd now) = refl
      go true (removal r now) = refl
      go true (arrival none) = refl
      go true (arrival (some ev)) = refl
      go true (item ev) = refl

  live_arm-side :
      (s : Stream ch) (side : Option BackfillSide) (ev : Option MarketEvent)
      → s.side ≡ side
      → (live_arm ch s side ev).side ≡ hear_all side (arrival ev ∷ [])
  unfolding live_arm push_all
  live_arm-side s none ev e = e
  live_arm-side s (some side) ev e = go side.is_open ev e
    where
      go :
          (b : Bool) (ev : Option MarketEvent)
          → s.side ≡ some (record side { is_open = b })
          → (live_arm ch s (some (record side { is_open = b })) ev).side
            ≡ hear_all (some (record side { is_open = b })) (arrival ev ∷ [])
      go false ev e = e
      go true none e = refl
      go true (some ev) e = refl

  hear_all-other :
      (side : Option BackfillSide) (p : Poll ch)
      → ((b : Bool) → (heard b (p ∷ []) ≡ []) × (still_open b (p ∷ []) ≡ b))
      → side ≡ hear_all side (p ∷ [])
  unfolding push_all
  hear_all-other none p h = refl
  hear_all-other (some side) p h = rw ((h side.is_open).0, (h side.is_open).1)

  -- A round hears what its poll brings.
  round-side :
      (s s' : Stream ch) (p : Poll ch) (on : Bool)
      → round ch s p ≡ some (s', on)
      → s'.side ≡ hear_all s.side (p ∷ [])
  unfolding round
  round-side s s' (command cmd now) on e =
      let (d, handled, rest) = bind-some (handle_command ch s.controller cmd now) _ (s', on) e in
      ap (λ (t : Stream ch). t.side) (sym (pair-eq rest).0)
      ∙ hear_all-other s.side (command cmd now) (λ b. ground arith)
  round-side s s' (removal r now) on e =
      let (d, handled, rest) = bind-some (removal_arm ch s.controller s.side r now) _ (s', on) e in
      ap (λ (t : Stream ch). t.side) (sym (pair-eq rest).0)
      ∙ hear_all-other s.side (removal r now) (λ b. ground arith)
  round-side s s' (arrival ev) on e =
      ap (λ (t : Stream ch). t.side) (sym (pair-eq e).0) ∙ live_arm-side s s.side ev refl
  round-side s s' (item ev) on e =
      let (d, emitted, rest) = bind-some (emit ch s.controller ev) _ (s', on) e in
      ap (λ (t : Stream ch). t.side) (sym (pair-eq rest).0)
      ∙ hear_all-other s.side (item ev) (λ b. ground arith)

  -- The whole run of a loop: it evolves the session; if it was not cut short, the events that it
  -- emitted are just the stream's items, in order, and all that was heard meanwhile is pending.
  pub record Ran (s s' : Stream ch) (ps : List (Poll ch)) (outcome : SegmentOutcome) : Type 0 where
    pub emitted : List MarketEvent
    pub evolves : Evolves ch s.controller s'.controller emitted
    pub full : outcome ≡ done → (emitted ≡ items ch ps) × (s'.side ≡ hear_all s.side ps)

  pub hear_all-nil : (side : Option BackfillSide) → side ≡ hear_all side []
  unfolding push_all
  hear_all-nil none = refl
  hear_all-nil (some side) = go side.is_open
    where
      go :
          (b : Bool)
          → some (record side { is_open = b }) ≡ hear_all (some (record side { is_open = b })) []
      go false = refl
      go true = refl

  items-cons :
      (p : Poll ch) (ps : List (Poll ch)) → items ch (p ∷ ps) ≡ items ch (p ∷ []) ++ items ch ps
  items-cons (command cmd now) ps = refl
  items-cons (removal r now) ps = refl
  items-cons (arrival ev) ps = refl
  items-cons (item ev) ps = refl

  Ran-start : (s : Stream ch) → Ran s s [] done
  Ran-start s = record {
    emitted = [];
    evolves = Evolves_self ch s.controller;
    full = λ e. (refl, hear_all-nil s.side);
  }

  Ran-step :
      (s s1 s' : Stream ch) (p : Poll ch) (ps : List (Poll ch)) (outcome : SegmentOutcome)
      → round ch s p ≡ some (s1, true)
      → Ran s1 s' ps outcome
      → Ran s s' (p ∷ ps) outcome
  Ran-step s s1 s' p ps outcome e v =
      let (evs, w, same) = round-Evolves ch s s1 p true e in
      record {
        emitted = evs ++ v.emitted;
        evolves =
            Evolves-trans ch s.controller s1.controller s'.controller evs v.emitted w v.evolves;
        full = λ d. (
          rw (same refl, (v.full d).0, items-cons p ps),
          (v.full d).1
              ∙ ap (λ side. hear_all side ps) (round-side s s1 p true e)
              ∙ sym (hear_all-one s.side p ps),
        );
      }

  Ran-stop :
      (s s1 : Stream ch) (p : Poll ch) (ps : List (Poll ch))
      → round ch s p ≡ some (s1, false)
      → Ran s s1 (p ∷ ps) closed
  Ran-stop s s1 p ps e =
      let (evs, w, same) = round-Evolves ch s s1 p false e in
      record { emitted = evs; evolves = w; full = λ d. cc }

  pub replay_loop-Ran :
      (s s' : Stream ch) (ps : List (Poll ch)) (outcome : SegmentOutcome)
      → replay_loop ch s ps ≡ some (s', outcome)
      → Ran s s' ps outcome
  unfolding replay_loop
  replay_loop-Ran s s' [] outcome e =
      let (same, o) = pair-eq e in
      subst (λ (t : Stream ch). Ran s t [] outcome) same (subst (Ran s s []) o (Ran-start s))
  replay_loop-Ran s s' (p ∷ ps) outcome e =
      let ((s1, on), step, rest) = bind-some (round ch s p) _ (s', outcome) e in
      go s1 on step (λ r. replay_loop-Ran s1 s' ps outcome r) rest
    where
      go :
          (s1 : Stream ch) (on : Bool)
          → round ch s p ≡ some (s1, on)
          → (replay_loop ch s1 ps ≡ some (s', outcome) → Ran s1 s' ps outcome)
          → ◌≡◌ {A = Option (Stream ch × SegmentOutcome)}
              (elim on [ true ↦ replay_loop ch s1 ps | false ↦ some (s1, closed) ])
              (some (s', outcome))
          → Ran s s' (p ∷ ps) outcome
      go s1 true step later rest = Ran-step s s1 s' p ps outcome step (later rest)
      go s1 false step later rest =
          let (same, o) = pair-eq rest in
          subst (λ (t : Stream ch). Ran s t (p ∷ ps) outcome) same
            (subst (Ran s s1 (p ∷ ps)) o (Ran-stop s s1 p ps step))

  -- What a fetch gathers over its polls.
  abbrev pub gather_all : Bool → Fetched → List (Poll ch) → Fetched
  gather_all store got [] = got
  gather_all store got (p ∷ ps) = gather_all store (gather ch store got p) ps

  pub fetch_loop-Ran :
      (store : Bool) (s : Stream ch) (got : Fetched) (ps : List (Poll ch)) (s' : Stream ch)
      (got' : Fetched) (outcome : SegmentOutcome)
      → fetch_loop ch store s got ps ≡ some (s', got', outcome)
      → Ran s s' ps outcome × (outcome ≡ done → got' ≡ gather_all store got ps)
  unfolding fetch_loop
  fetch_loop-Ran store s got [] s' got' outcome e =
      let (same, kept, o) = triple-eq e in
      (
        subst (λ (t : Stream ch). Ran s t [] outcome) same (subst (Ran s s []) o (Ran-start s)),
        λ d. sym kept,
      )
  fetch_loop-Ran store s got (p ∷ ps) s' got' outcome e =
      let ((s1, on), step, rest) = bind-some (round ch s p) _ (s', got', outcome) e in
      go s1 on step (λ r. fetch_loop-Ran store s1 (gather ch store got p) ps s' got' outcome r) rest
    where
      go :
          (s1 : Stream ch) (on : Bool)
          → round ch s p ≡ some (s1, on)
          → (fetch_loop ch store s1 (gather ch store got p) ps ≡ some (s', got', outcome)
              → Ran s1 s' ps outcome
                × (outcome ≡ done → got' ≡ gather_all store (gather ch store got p) ps))
          → ◌≡◌ {A = Option (Stream ch × Fetched × SegmentOutcome)}
              (elim on [
                | true ↦ fetch_loop ch store s1 (gather ch store got p) ps
                | false ↦ some (s1, gather ch store got p, closed)
              ])
              (some (s', got', outcome))
          → Ran s s' (p ∷ ps) outcome × (outcome ≡ done → got' ≡ gather_all store got (p ∷ ps))
      go s1 true step later rest =
          (Ran-step s s1 s' p ps outcome step (later rest).0, (later rest).1)
      go s1 false step later rest =
          let (same, kept, o) = triple-eq rest in
          (
            subst (λ (t : Stream ch). Ran s t (p ∷ ps) outcome) same
                (subst (Ran s s1 (p ∷ ps)) o (Ran-stop s s1 p ps step)),
            λ d. cc,
          )

  -- Hearing one run of polls after another.
  pub hear_all-append :
      (side : Option BackfillSide) (a b : List (Poll ch))
      → hear_all (hear_all side a) b ≡ hear_all side (a ++ b)
  hear_all-append side [] b = ap (λ x. hear_all x b) (sym (hear_all-nil side))
  hear_all-append side (p ∷ a) b =
      ap (λ x. hear_all x b) (hear_all-one side p a)
      ∙ hear_all-append (hear_all side (p ∷ [])) a b
      ∙ sym (hear_all-one side p (a ++ b))
