-- ===== src/Session/Run/Room.antt =====
-- The room that the loops of a planned request need for their sequence numbers.
use datamancer.Base.{
  ◌≡◌, refl, ℕ, ◌+◌, ◌≤◌, ◌<◌, Bool, true, false, Option, none, some, List, [], ◌∷◌, arith, ◌>>=◌,
  if◌then◌else◌, length,
}
use datamancer.Core.Event.{Timestamp, seq_max, MarketEvent}
use datamancer.Channel.{Channel}
use datamancer.Session.Controller.{Controller}
use datamancer.Session.Lifecycle.{
  Removal, one, closed, note_provider_arrival, remove_subscriber, live_should_teardown,
  backfill_removal_triggers_teardown,
}
use datamancer.Session.Lifecycle.Room.{emits, shuts, commands, remove-next_seq}
use datamancer.Session.Run.{
  Poll, command, removal, arrival, item, BackfillSide, Stream, World, SegmentOutcome, done, round,
  removal_arm, live_arm, replay_loop, Fetched, gather, fetch_loop,
}
use datamancer.Session.Lifecycle
use datamancer.Session.Run

module _ (ch : Channel) where
  -- A controller that came out, and the numbers it has taken at most.
  abbrev Out : ℕ → Option (Controller ch × Bool) → Type 0
  Out n result = (c : Controller ch) × (on : Bool) × (result ≡ some (c, on)) × (c.next_seq ≤ n)

  arm-Out :
      (c : Controller ch) (side : Option BackfillSide) (r : Removal) (now : Timestamp)
      → c.next_seq + 1 < seq_max
      → Out (c.next_seq + 1) (removal_arm ch c side r now)
  unfolding removal_arm
  arm-Out c none r now room = (c, true, refl, omega arith)
  arm-Out c (some side) closed now room =
      let (c', e, n) = shuts ch c now room in (c', false, rw e refl, omega (arith, n))
  arm-Out c (some side) (one id) now room =
      go (live_should_teardown ch (remove_subscriber ch c id)) (remove-next_seq ch c id)
    where
      go :
          (down : Bool)
          → (remove_subscriber ch c id).next_seq ≡ c.next_seq
          → Out (c.next_seq + 1) (
              if down
              then (do
                c'' ← Lifecycle.shutdown ch (remove_subscriber ch c id) now
                some (c'', false))
              else some (remove_subscriber ch c id, true))
      go true same =
          let (c', e, n) = shuts ch (remove_subscriber ch c id) now (omega (arith, same)) in
          (c', false, rw e refl, omega (arith, n, same))
      go false same = (remove_subscriber ch c id, true, refl, omega (arith, same))

  live_arm-next_seq :
      (s : Stream ch) (side : Option BackfillSide) (ev : Option MarketEvent)
      → (live_arm ch s side ev).controller.next_seq ≡ s.controller.next_seq
  unfolding live_arm note_provider_arrival
  live_arm-next_seq s none ev = refl
  live_arm-next_seq s (some side) none = ground arith
  live_arm-next_seq s (some side) (some ev) = ground arith

  -- A round takes one number at most, and does not panic if there is one.
  pub round-Out :
      (s : Stream ch) (p : Poll ch)
      → s.controller.next_seq + 1 < seq_max
      → (s' : Stream ch) × (on : Bool) × (round ch s p ≡ some (s', on))
        × (s'.controller.next_seq ≤ s.controller.next_seq + 1)
  unfolding round
  round-Out s (command cmd now) room =
      let (c, on, e, n) = commands ch s.controller cmd now room in
      (record s { controller = c }, on, rw e refl, n)
  round-Out s (removal r now) room =
      let (c, on, e, n) = arm-Out s.controller s.side r now room in
      (record s { controller = c }, on, rw e refl, n)
  round-Out s (arrival ev) room =
      (live_arm ch s s.side ev, true, refl, omega (arith, live_arm-next_seq s s.side ev))
  round-Out s (item ev) room =
      let (c, e, n) = emits ch s.controller ev room in
      (record s { controller = c }, true, rw e refl, omega (arith, n))

  -- A loop that comes to an end, and the numbers it has taken at most.
  pub replay_loop-ends :
      (s : Stream ch) (ps : List (Poll ch))
      → s.controller.next_seq + length ps < seq_max
      → (s' : Stream ch) × (o : SegmentOutcome) × (replay_loop ch s ps ≡ some (s', o))
        × (s'.controller.next_seq ≤ s.controller.next_seq + length ps)
  unfolding replay_loop
  replay_loop-ends s [] room = (s, done, refl, omega arith)
  replay_loop-ends s (p ∷ ps) room =
      let (s1, on, e, n) = round-Out s p (omega arith) in
      let (s', o, f, m) = replay_loop-ends s1 ps (omega (arith, n)) in go s1 on e n s' o f m
    where
      go :
          (s1 : Stream ch) (on : Bool)
          → round ch s p ≡ some (s1, on)
          → s1.controller.next_seq ≤ s.controller.next_seq + 1
          → (s' : Stream ch) (o : SegmentOutcome) → replay_loop ch s1 ps ≡ some (s', o)
          → s'.controller.next_seq ≤ s1.controller.next_seq + length ps
          → (s' : Stream ch) × (o : SegmentOutcome) × (replay_loop ch s (p ∷ ps) ≡ some (s', o))
            × (s'.controller.next_seq ≤ s.controller.next_seq + length (p ∷ ps))
      go s1 true e n s' o f m = (s', o, rw (e, f) refl, omega arith)
      go s1 false e n s' o f m = (s1, Run.closed, rw e refl, omega arith)

  pub fetch_loop-ends :
      (store : Bool) (s : Stream ch) (got : Fetched) (ps : List (Poll ch))
      → s.controller.next_seq + length ps < seq_max
      → (s' : Stream ch) × (got' : Fetched) × (o : SegmentOutcome) × (fetch_loop ch store s got ps
          ≡ some (s', got', o))
        × (s'.controller.next_seq ≤ s.controller.next_seq + length ps)
  unfolding fetch_loop
  fetch_loop-ends store s got [] room = (s, got, done, refl, omega arith)
  fetch_loop-ends store s got (p ∷ ps) room =
      let (s1, on, e, n) = round-Out s p (omega arith) in
      let (s', got', o, f, m) =
        fetch_loop-ends store s1 (gather ch store got p) ps (omega (arith, n)) in
      go s1 on e n s' got' o f m
    where
      go :
          (s1 : Stream ch) (on : Bool)
          → round ch s p ≡ some (s1, on)
          → s1.controller.next_seq ≤ s.controller.next_seq + 1
          → (s' : Stream ch) (got' : Fetched) (o : SegmentOutcome)
          → fetch_loop ch store s1 (gather ch store got p) ps ≡ some (s', got', o)
          → s'.controller.next_seq ≤ s1.controller.next_seq + length ps
          → (s' : Stream ch) × (got' : Fetched) × (o : SegmentOutcome) × (fetch_loop ch store s got
                (p ∷ ps)
              ≡ some (s', got', o))
            × (s'.controller.next_seq ≤ s.controller.next_seq + length (p ∷ ps))
      go s1 true e n s' got' o f m = (s', got', o, rw (e, f) refl, omega arith)
      go s1 false e n s' got' o f m =
          (s1, gather ch store got p, Run.closed, rw e refl, omega arith)
