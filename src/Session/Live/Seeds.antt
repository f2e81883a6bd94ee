-- ===== src/Session/Live/Seeds.antt =====
-- The seed of a live session: it only ever stands in for data that has not come.
use datamancer.Base.{
  ◌≡◌, refl, sym, ap, ◌∙◌, Bool, true, false, Option, none, some, List, [], ◌∷◌, arith, bind-some,
  pair-eq, ◌>>=◌, Bool-cases, inl, inr,
}
use datamancer.Core.Event.{Timestamp, MarketEvent}
use datamancer.Channel.{Channel}
use datamancer.Client.FanOut.{SubscriberId}
use datamancer.Session.Controller.{
  Controller, emit, forward, forward_with, stamp, deliver_with, after_stamp, tee,
}
use datamancer.Session.Lifecycle.{
  note_provider_arrival, handle_command, SessionCommand, set_persistence, add_subscriber, close,
  shutdown, apply_persistence, add_to, live_should_teardown, remove_subscriber,
}
use datamancer.Session.Live.{
  LivePoll, command, removal, arrival, seeded, seed_arm, live_round, live_loop,
}

module _ (ch : Channel) where
  -- The rounds without the seed.
  abbrev pub without_seeds : List (LivePoll ch) → List (LivePoll ch)
  without_seeds [] = []
  without_seeds (seeded ev ∷ ps) = without_seeds ps
  without_seeds (p ∷ ps) = p ∷ without_seeds ps

  forward-data_forwarded :
      (c c' : Controller ch) (ev : MarketEvent)
      → c.data_forwarded ≡ true
      → forward ch c ev ≡ some c'
      → c'.data_forwarded ≡ true
  unfolding forward forward_with stamp after_stamp tee deliver_with
  forward-data_forwarded c c' ev d e = ground arith

  handle_command-data_forwarded :
      (c c' : Controller ch) (cmd : Option (SessionCommand ch)) (now : Timestamp) (on : Bool)
      → c.data_forwarded ≡ true
      → handle_command ch c cmd now ≡ some (c', on)
      → c'.data_forwarded ≡ true
  unfolding handle_command shutdown apply_persistence add_to emit stamp deliver_with
  handle_command-data_forwarded c c' (some (set_persistence o)) now on d e = ground arith
  handle_command-data_forwarded c c' (some (add_subscriber id tx)) now on d e = ground arith
  handle_command-data_forwarded c c' (some close) now on d e = ground arith
  handle_command-data_forwarded c c' none now on d e = ground arith

  note-data_forwarded :
      (c : Controller ch) (ev : MarketEvent)
      → (note_provider_arrival ch c ev).data_forwarded ≡ c.data_forwarded
  unfolding note_provider_arrival
  note-data_forwarded c ev = ground arith

  remove-data_forwarded :
      (c : Controller ch) (id : SubscriberId)
      → (remove_subscriber ch c id).data_forwarded ≡ c.data_forwarded
  remove-data_forwarded c id = ground arith

  pub live_loop_torn :
      (c : Controller ch) (waits : Bool) (ps : List (LivePoll ch))
      → live_should_teardown ch c ≡ true
      → live_loop ch c waits ps ≡ some (c, true)
  unfolding live_loop
  live_loop_torn c waits [] h = rw h
  live_loop_torn c waits (p ∷ ps) h = rw (h, live_loop) refl

  -- One poll ahead of polls of which the seeds may be left out.
  abbrev Ignores : List (LivePoll ch) → Type 0
  Ignores ps =
      (c : Controller ch) (waits : Bool)
      → c.data_forwarded ≡ true
      → live_loop ch c waits ps ≡ live_loop ch c false (without_seeds ps)

  -- What follows a round, whether its controller goes on or not.
  abbrev next :
      Bool → List (LivePoll ch) → Option (Controller ch × Bool) → Option (Controller ch × Bool)
  next waits ps o = do
    (c, on) ← o
    elim on [ true ↦ live_loop ch c waits ps | false ↦ some (c, true) ]

  next-without_seeds :
      (waits : Bool) (ps : List (LivePoll ch)) (o : Option (Controller ch × Bool))
      → ((c : Controller ch) (on : Bool) → o ≡ some (c, on) → c.data_forwarded ≡ true)
      → Ignores ps
      → next waits ps o ≡ next false (without_seeds ps) o
  next-without_seeds waits ps none h later = refl
  next-without_seeds waits ps (some (c, true)) h later = later c waits (h c true refl)
  next-without_seeds waits ps (some (c, false)) h later = refl

  abbrev pub go_on :
      List (LivePoll ch) → Option (Controller ch × Bool × Bool) → Option (Controller ch × Bool)
  go_on ps o = do
    (c, waits, on) ← o
    elim on [ true ↦ live_loop ch c waits ps | false ↦ some (c, true) ]

  abbrev tagged : Bool → Option (Controller ch × Bool) → Option (Controller ch × Bool × Bool)
  tagged waits o = do (c, on) ← o; some (c, waits, on)

  go_on-tagged :
      (waits : Bool) (ps : List (LivePoll ch)) (o : Option (Controller ch × Bool))
      → go_on ps (tagged waits o) ≡ next waits ps o
  go_on-tagged waits ps none = refl
  go_on-tagged waits ps (some (c, true)) = refl
  go_on-tagged waits ps (some (c, false)) = refl

  pub live_loop_going :
      (c : Controller ch) (waits : Bool) (p : LivePoll ch) (ps : List (LivePoll ch))
      → live_should_teardown ch c ≡ false
      → live_loop ch c waits (p ∷ ps) ≡ go_on ps (live_round ch c waits p)
  unfolding live_loop
  live_loop_going c waits p ps h = rw (h, live_loop) refl

  seeded_round :
      (c : Controller ch) (waits : Bool) (ev : Option MarketEvent)
      → c.data_forwarded ≡ true
      → live_round ch c waits (seeded ev) ≡ some (c, false, true)
  unfolding live_round seed_arm
  seeded_round c true none d = refl
  seeded_round c true (some ev) d = rw d
  seeded_round c false ev d = refl

  -- The round of a poll that is not a seed, and then the rest.
  follow :
      (c : Controller ch) (waits : Bool) (p : LivePoll ch) (ps : List (LivePoll ch))
      (o : Option (Controller ch × Bool))
      → ((b : Bool) → live_round ch c b p ≡ tagged b o)
      → ((c : Controller ch) (on : Bool) → o ≡ some (c, on) → c.data_forwarded ≡ true)
      → Ignores ps
      → live_should_teardown ch c ≡ false
      → live_loop ch c waits (p ∷ ps) ≡ live_loop ch c false (p ∷ without_seeds ps)
  follow c waits p ps o round h later up =
      live_loop_going c waits p ps up
      ∙ ap (go_on ps) (round waits)
      ∙ go_on-tagged waits ps o
      ∙ next-without_seeds waits ps o h later
      ∙ sym (go_on-tagged false (without_seeds ps) o)
      ∙ ap (go_on (without_seeds ps)) (sym (round false))
      ∙ sym (live_loop_going c false p (without_seeds ps) up)

  tagged-forward :
      (b : Bool) (o : Option (Controller ch))
      → ◌≡◌ {A = Option (Controller ch × Bool × Bool)}
          (do c ← o; some (c, b, true))
          (tagged b (do c ← o; some (c, true)))
  tagged-forward b none = refl
  tagged-forward b (some c) = refl

  live_loop_none :
      (c : Controller ch) (waits : Bool) → live_loop ch c waits [] ≡ live_loop ch c false []
  unfolding live_loop
  live_loop_none c waits = refl

  Ignores-up :
      (c : Controller ch) (waits : Bool) (p : LivePoll ch) (ps : List (LivePoll ch))
      → c.data_forwarded ≡ true
      → live_should_teardown ch c ≡ false
      → Ignores ps
      → live_loop ch c waits (p ∷ ps) ≡ live_loop ch c false (without_seeds (p ∷ ps))
  unfolding live_round
  Ignores-up c waits (command cmd now) ps d up later =
      follow c waits (command cmd now) ps (handle_command ch c cmd now) (λ b. refl)
        (λ c' on e. handle_command-data_forwarded c c' cmd now on d e) later up
  Ignores-up c waits (removal (some id)) ps d up later =
      follow c waits (removal (some id)) ps (some (remove_subscriber ch c id, true)) (λ b. refl)
        (λ c' on e.
          ap (λ (x : Controller ch). x.data_forwarded) (sym (pair-eq e).0)
          ∙ remove-data_forwarded c id
          ∙ d)
        later up
  Ignores-up c waits (removal none) ps d up later =
      follow c waits (removal none) ps (some (c, false)) (λ b. refl)
        (λ c' on e. ap (λ (x : Controller ch). x.data_forwarded) (sym (pair-eq e).0) ∙ d) later up
  Ignores-up c waits (arrival (some ev)) ps d up later =
      let o : Option (Controller ch × Bool) = (do
        c' ← forward ch (note_provider_arrival ch c ev) ev
        some (c', true)) in
      follow c waits (arrival (some ev)) ps o
        (λ b. tagged-forward b (forward ch (note_provider_arrival ch c ev) ev))
        (λ c' on e.
          let (x, f, rest) =
            bind-some (forward ch (note_provider_arrival ch c ev) ev) _ (c', on) e in
          ap (λ (x : Controller ch). x.data_forwarded) (sym (pair-eq rest).0)
          ∙ forward-data_forwarded (note_provider_arrival ch c ev) x ev
              (note-data_forwarded c ev ∙ d) f)
        later up
  Ignores-up c waits (arrival none) ps d up later =
      follow c waits (arrival none) ps (some (c, false)) (λ b. refl)
        (λ c' on e. ap (λ (x : Controller ch). x.data_forwarded) (sym (pair-eq e).0) ∙ d) later up
  Ignores-up c waits (seeded ev) ps d up later =
      live_loop_going c waits (seeded ev) ps up
      ∙ ap (go_on ps) (seeded_round c waits ev d)
      ∙ later c false d

  -- Once a live session has forwarded data, a seed that comes changes nothing: its loop runs as it
  -- does over the same rounds without the seeds.
  pub live_loop-without_seeds :
      (c : Controller ch) (waits : Bool) (ps : List (LivePoll ch))
      → c.data_forwarded ≡ true
      → live_loop ch c waits ps ≡ live_loop ch c false (without_seeds ps)
  live_loop-without_seeds c waits [] d = live_loop_none c waits
  live_loop-without_seeds c waits (p ∷ ps) d = elim (Bool-cases (live_should_teardown ch c)) [
    | inl torn ↦
        live_loop_torn c waits (p ∷ ps) torn
        ∙ sym (live_loop_torn c false (without_seeds (p ∷ ps)) torn)
    | inr up ↦ Ignores-up c waits p ps d up (λ c' w e. live_loop-without_seeds c' w ps e)
  ]
