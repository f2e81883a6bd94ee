-- ===== src/Session/Live/Ending.antt =====
-- How a live session ends, and what it does to the upstream then.
use datamancer.Base.{
  ◌≡◌, refl, sym, ap, ◌∙◌, Bool, true, false, not, Option, none, some, List, [], ◌∷◌, arith,
  if◌then◌else◌, bind-some, pair-eq, some-eq, triple-eq, Bool-cases, inl, inr, ◌||◌,
}
use datamancer.Core.Event.{Timestamp, MarketEvent}
use datamancer.Channel.{Channel}
use datamancer.Provider.Accounting.{record_provider_control}
use datamancer.Session.Controller.{
  Controller, Arrival, seed, live_arrival, forward, forward_with, stamp, deliver_with, after_stamp,
  tee,
}
use datamancer.Session.Lifecycle.{
  note_provider_arrival, handle_command, SessionCommand, set_persistence, add_subscriber, close,
  shutdown, live_should_teardown,
}
use datamancer.Session.Run.Rounds.{handle_command-Evolves, remove_from-Evolves}
use datamancer.Session.Live.{
  LivePoll, command, removal, arrival, seeded, seed_arm, live_round, live_loop,
}
use datamancer.Session.Live.Seeds.{live_loop_torn, live_loop_going}

module _ (ch : Channel) where
  pub forward_with-unsubscribes :
      (c c' : Controller ch) (ev : MarketEvent) (a : Arrival)
      → forward_with ch c ev a ≡ some c'
      → c'.accounting.unsubscribes ≡ c.accounting.unsubscribes
  unfolding forward_with stamp after_stamp tee deliver_with
  forward_with-unsubscribes c c' ev a e = ground arith

  note-unsubscribes :
      (c : Controller ch) (ev : MarketEvent)
      → (note_provider_arrival ch c ev).accounting.unsubscribes ≡ c.accounting.unsubscribes
  unfolding note_provider_arrival record_provider_control
  note-unsubscribes c ev = ground arith

  -- The rounds that end the loop at once: a close, a dropped session, a closed removal channel and a
  -- provider that is gone.
  abbrev pub stops : LivePoll ch → Bool
  stops (command (some close) now) = true
  stops (command none now) = true
  stops (removal none) = true
  stops (arrival none) = true
  stops _ = false

  abbrev pub any_stop : List (LivePoll ch) → Bool
  any_stop [] = false
  any_stop (p ∷ ps) = stops p || any_stop ps

  handle_command-stops :
      (c c' : Controller ch) (cmd : Option (SessionCommand ch)) (now : Timestamp) (on : Bool)
      → handle_command ch c cmd now ≡ some (c', on)
      → on ≡ not (stops (command cmd now))
  unfolding handle_command
  handle_command-stops c c' (some (set_persistence o)) now on e = sym (pair-eq e).1
  handle_command-stops c c' (some (add_subscriber id tx)) now on e = sym (pair-eq e).1
  handle_command-stops c c' (some close) now on e =
      let (d, shut, rest) = bind-some (shutdown ch c now) _ (c', on) e in sym (pair-eq rest).1
  handle_command-stops c c' none now on e = sym (pair-eq e).1

  seed_arm-unsubscribes :
      (c c' : Controller ch) (ev : Option MarketEvent)
      → seed_arm ch c ev ≡ some c'
      → c'.accounting.unsubscribes ≡ c.accounting.unsubscribes
  unfolding seed_arm
  seed_arm-unsubscribes c c' none e =
      ap (λ (x : Controller ch). x.accounting.unsubscribes) (sym (some-eq e))
  seed_arm-unsubscribes c c' (some ev) e = go c.data_forwarded e
    where
      go :
          (b : Bool)
          → (if b then some c else forward_with ch c ev seed) ≡ some c'
          → c'.accounting.unsubscribes ≡ c.accounting.unsubscribes
      go true e = ap (λ (x : Controller ch). x.accounting.unsubscribes) (sym (some-eq e))
      go false e = forward_with-unsubscribes c c' ev seed e

  live_round-stops :
      (c c' : Controller ch) (waits waits' on : Bool) (p : LivePoll ch)
      → live_round ch c waits p ≡ some (c', waits', on)
      → (on ≡ not (stops p)) × (c'.accounting.unsubscribes ≡ c.accounting.unsubscribes)
  unfolding live_round forward
  live_round-stops c c' waits waits' on (command cmd now) e =
      let ((d, goes), handled, rest) =
        bind-some (handle_command ch c cmd now) _ (c', waits', on) e in
      let (same, w, o) = triple-eq rest in
      let (evs, v, q) = handle_command-Evolves ch c d cmd now goes handled in
      (
        sym o ∙ handle_command-stops c d cmd now goes handled,
        ap (λ (x : Controller ch). x.accounting.unsubscribes) (sym same) ∙ v.holds,
      )
  live_round-stops c c' waits waits' on (removal (some id)) e =
      let (same, w, o) = triple-eq e in
      (
        sym o,
        ap (λ (x : Controller ch). x.accounting.unsubscribes) (sym same)
            ∙ (remove_from-Evolves ch c c.fanout id refl).holds,
      )
  live_round-stops c c' waits waits' on (removal none) e =
      let (same, w, o) = triple-eq e in
      (sym o, ap (λ (x : Controller ch). x.accounting.unsubscribes) (sym same))
  live_round-stops c c' waits waits' on (arrival (some ev)) e =
      let n = note_provider_arrival ch c ev in
      let (d, sent, rest) = bind-some (forward ch n ev) _ (c', waits', on) e in
      let (same, w, o) = triple-eq rest in
      (
        sym o,
        ap (λ (x : Controller ch). x.accounting.unsubscribes) (sym same)
            ∙ forward_with-unsubscribes n d ev live_arrival sent
            ∙ note-unsubscribes c ev,
      )
  live_round-stops c c' waits waits' on (arrival none) e =
      let (same, w, o) = triple-eq e in
      (sym o, ap (λ (x : Controller ch). x.accounting.unsubscribes) (sym same))
  live_round-stops c c' true waits' on (seeded ev) e =
      let (d, sown, rest) = bind-some (seed_arm ch c ev) _ (c', waits', on) e in
      let (same, w, o) = triple-eq rest in
      (
        sym o,
        ap (λ (x : Controller ch). x.accounting.unsubscribes) (sym same)
            ∙ seed_arm-unsubscribes c d ev sown,
      )
  live_round-stops c c' false waits' on (seeded ev) e =
      let (same, w, o) = triple-eq e in
      (sym o, ap (λ (x : Controller ch). x.accounting.unsubscribes) (sym same))

  -- The loop holds the upstream, and ends with the first round that stops it at the latest.
  unfoldable pub Ends : Controller ch → Controller ch → Bool → List (LivePoll ch) → Type 0
  Ends c c' ended ps =
      (c'.accounting.unsubscribes ≡ c.accounting.unsubscribes) × (any_stop ps ≡ true → ended ≡ true)

  Ends-self :
      (c c' : Controller ch) (ended : Bool) (ps : List (LivePoll ch))
      → ◌≡◌ {A = Option (Controller ch × Bool)} (some (c, true)) (some (c', ended))
      → Ends c c' ended ps
  unfolding Ends
  Ends-self c c' ended ps e =
      let (same, o) = pair-eq e in
      (ap (λ (x : Controller ch). x.accounting.unsubscribes) (sym same), λ s. sym o)

  pub live_loop-Ends :
      (c c' : Controller ch) (waits ended : Bool) (ps : List (LivePoll ch))
      → live_loop ch c waits ps ≡ some (c', ended)
      → Ends c c' ended ps
  unfolding Ends live_loop
  live_loop-Ends c c' waits ended [] e =
      let (same, o) = pair-eq e in
      (ap (λ (x : Controller ch). x.accounting.unsubscribes) (sym same), λ s. cc)
  live_loop-Ends c c' waits ended (p ∷ ps) e = elim (Bool-cases (live_should_teardown ch c)) [
    | inl torn ↦ Ends-self c c' ended (p ∷ ps) (sym (live_loop_torn ch c waits (p ∷ ps) torn) ∙ e)
    | inr up ↦
        let ((d, w, on), ran, rest) =
          bind-some (live_round ch c waits p) _ (c', ended)
            (sym (live_loop_going ch c waits p ps up) ∙ e) in
        go d w on ran (λ r. live_loop-Ends d c' w ended ps r) rest
  ]
    where
      go :
          (d : Controller ch) (w on : Bool)
          → live_round ch c waits p ≡ some (d, w, on)
          → (live_loop ch d w ps ≡ some (c', ended) → Ends d c' ended ps)
          → ◌≡◌ {A = Option (Controller ch × Bool)}
              (elim on [ true ↦ live_loop ch d w ps | false ↦ some (d, true) ])
              (some (c', ended))
          → Ends c c' ended (p ∷ ps)
      go d w true ran later rest =
          let (s, held) = live_round-stops c d waits w true p ran in
          let (more, ends) = later rest in (more ∙ held, λ h. ends (ground (arith, s, h)))
      go d w false ran later rest =
          let (s, held) = live_round-stops c d waits w false p ran in
          let (same, o) = Ends-self d c' ended ps rest in (same ∙ held, λ h. sym (pair-eq rest).1)
