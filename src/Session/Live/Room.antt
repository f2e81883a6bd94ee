-- ===== src/Session/Live/Room.antt =====
-- The room that a live session needs for its sequence numbers.
use datamancer.Base.{
  ◌≡◌, refl, sym, ap, ◌∙◌, ℕ, ◌+◌, ◌≤◌, ◌<◌, Bool, true, false, Option, none, some, List, [], ◌∷◌,
  arith, Bool-cases, inl, inr, ◌>>=◌, if◌then◌else◌, subst,
}
use datamancer.Core.Event.{seq_max}
use datamancer.Channel.{Channel}
use datamancer.Session.Controller.{Controller, seed, live_arrival, forward, forward_with}
use datamancer.Session.Lifecycle.Room.{
  forwards, shuts, note-next_seq, remove-next_seq, apply-next_seq, add-next_seq,
}
use datamancer.Session.Lifecycle.{
  note_provider_arrival, handle_command, set_persistence, add_subscriber, close, apply_persistence,
  add_to, live_should_teardown, remove_subscriber,
}
use datamancer.Session.Live.{
  LivePoll, command, removal, arrival, seeded, seed_arm, live_round, live_loop,
}
use datamancer.Session.Live.Seeds.{live_loop_torn, live_loop_going, go_on}

module _ (ch : Channel) where
  -- The rounds that may take a sequence number: a close, an arrival and a seed.
  abbrev pub stamping : List (LivePoll ch) → ℕ
  stamping [] = 0
  stamping (command (some close) now ∷ ps) = 1 + stamping ps
  stamping (arrival (some ev) ∷ ps) = 1 + stamping ps
  stamping (seeded (some ev) ∷ ps) = 1 + stamping ps
  stamping (p ∷ ps) = stamping ps

  -- A round that does not panic, and the numbers it has taken at most.
  abbrev Rounds : ℕ → Option (Controller ch × Bool × Bool) → Type 0
  Rounds n result =
      (c : Controller ch) × (waits : Bool) × (on : Bool) × (result ≡ some (c, waits, on))
      × (c.next_seq ≤ n)

  abbrev pub Returns : ℕ → Option (Controller ch × Bool) → Type 0
  Returns n result =
      (c : Controller ch) × (ended : Bool) × (result ≡ some (c, ended)) × (c.next_seq ≤ n)

  when_fresh : (b : Bool) (x y : Option (Controller ch)) → b ≡ false → (if b then x else y) ≡ y
  when_fresh b x y h = rw h refl

  abbrev seeded_round : Option (Controller ch) → Option (Controller ch × Bool × Bool)
  seeded_round r = do c ← r; some (c, false, true)

  round-Rounds :
      (c : Controller ch) (waits : Bool) (p : LivePoll ch)
      → c.next_seq + stamping (p ∷ []) < seq_max
      → Rounds (c.next_seq + stamping (p ∷ [])) (live_round ch c waits p)
  unfolding live_round handle_command forward seed_arm add_to
  round-Rounds c waits (command (some (set_persistence o)) now) room =
      ((apply_persistence ch c o).0, waits, true, refl, omega (arith, apply-next_seq ch c o))
  round-Rounds c waits (command (some (add_subscriber id tx)) now) room = (
    add_to ch c c.fanout id tx,
    waits,
    true,
    refl,
    omega (arith, add-next_seq ch c c.fanout id tx),
  )
  round-Rounds c waits (command (some close) now) room =
      let (c', e, n) = shuts ch c now (omega arith) in
      (c', waits, false, rw e refl, omega (arith, n))
  round-Rounds c waits (command none now) room = (c, waits, false, refl, omega arith)
  round-Rounds c waits (removal none) room = (c, waits, false, refl, omega arith)
  round-Rounds c waits (removal (some id)) room =
      (remove_subscriber ch c id, waits, true, refl, omega (arith, remove-next_seq ch c id))
  round-Rounds c waits (arrival none) room = (c, waits, false, refl, omega arith)
  round-Rounds c waits (arrival (some ev)) room =
      let d = note_provider_arrival ch c ev in
      let same = note-next_seq ch c ev in
      let (c', e, n) = forwards ch d ev live_arrival (omega (arith, same)) in
      (c', waits, true, rw e refl, omega (arith, n, same))
  round-Rounds c false (seeded none) room = (c, false, true, refl, omega arith)
  round-Rounds c false (seeded (some ev)) room = (c, false, true, refl, omega arith)
  round-Rounds c true (seeded none) room = (c, false, true, refl, omega arith)
  round-Rounds c true (seeded (some ev)) room = elim (Bool-cases c.data_forwarded) [
    | inl b ↦ (c, false, true, rw b refl, omega arith)
    | inr b ↦
        let (c', e, n) = forwards ch c ev seed (omega arith) in
        let same = when_fresh c.data_forwarded (some c) (forward_with ch c ev seed) b ∙ e in
        (c', false, true, ap seeded_round same, omega (arith, n))
  ]

  stamping-cons :
      (p : LivePoll ch) (ps : List (LivePoll ch))
      → stamping (p ∷ ps) ≡ stamping (p ∷ []) + stamping ps
  stamping-cons (command (some close) now) ps = omega arith
  stamping-cons (command (some (set_persistence o)) now) ps = omega arith
  stamping-cons (command (some (add_subscriber id tx)) now) ps = omega arith
  stamping-cons (command none now) ps = omega arith
  stamping-cons (arrival (some ev)) ps = omega arith
  stamping-cons (arrival none) ps = omega arith
  stamping-cons (seeded (some ev)) ps = omega arith
  stamping-cons (seeded none) ps = omega arith
  stamping-cons (removal r) ps = omega arith

  -- A live loop does not panic, and comes to the end of its rounds or stops, as long as the counter
  -- has room for the rounds that take a number, a close, an arrival or a seed, which take at most one
  -- each.
  pub live_loop-Returns :
      (c : Controller ch) (waits : Bool) (ps : List (LivePoll ch))
      → c.next_seq + stamping ps < seq_max
      → Returns (c.next_seq + stamping ps) (live_loop ch c waits ps)
  unfolding live_loop
  live_loop-Returns c waits [] room = (c, live_should_teardown ch c, refl, omega arith)
  live_loop-Returns c waits (p ∷ ps) room = elim (Bool-cases (live_should_teardown ch c)) [
    | inl torn ↦ (c, true, live_loop_torn ch c waits (p ∷ ps) torn, omega arith)
    | inr up ↦
        let split = stamping-cons p ps in
        let (c', waits', on, e, n) = round-Rounds c waits p (omega (arith, split)) in
        subst (Returns (c.next_seq + stamping (p ∷ ps)))
          (sym (live_loop_going ch c waits p ps up ∙ ap (go_on ch ps) e))
          (go c' waits' on (omega (arith, n, split))
            (live_loop-Returns c' waits' ps (omega (arith, n, split))))
  ]
    where
      go :
          (c' : Controller ch) (waits' on : Bool)
          → c'.next_seq + stamping ps ≤ c.next_seq + stamping (p ∷ ps)
          → Returns (c'.next_seq + stamping ps) (live_loop ch c' waits' ps)
          → Returns (c.next_seq + stamping (p ∷ ps)) (go_on ch ps (some (c', waits', on)))
      go c' waits' true n (d, ended, e, m) = (d, ended, e, omega arith)
      go c' waits' false n rest = (c', true, refl, omega arith)
