-- ===== src/Session/Run/Rounds.antt =====
-- What a round of a `select!` loop does: to the session, and to the live side of a backfill.
use datamancer.Base.{
  ◌≡◌, refl, sym, ◌∙◌, subst, Bool, true, false, Option, none, some, List, [], ◌∷◌, arith,
  if◌then◌else◌, ◌>>=◌, bind-some, pair-eq,
}
use datamancer.Core.Event.{Timestamp, MarketEvent, control, session_closing}
use datamancer.Channel.{Channel}
use datamancer.Client.FanOut.{FanOut, SubscriberId}
use datamancer.Client.FanOut.Lifetime.{adds, drops, act, act_all}
use datamancer.Provider.Accounting.{record_provider_control}
use datamancer.Session.Options.{PersistenceOptions}
use datamancer.Session.Controller.{Controller, emit}
use datamancer.Session.Lifecycle.{
  note_provider_arrival, Removal, one, closed, backfill_removal_triggers_teardown, SessionCommand,
  set_persistence, add_subscriber, close, handle_command, shutdown, apply_persistence, add_to,
  remove_from,
}
use datamancer.Session.Run.{
  Poll, command, removal, arrival, item, BackfillSide, Stream, round, removal_arm, live_arm,
}
use datamancer.Session.Run.Trace.{
  Evolves, Evolves-trans, Evolves_self, quiet, emit-Evolves, sink_all,
}

module _ (ch : Channel) where
  -- The event of a poll that the loop emits, if it is one.
  abbrev pub items : List (Poll ch) → List MarketEvent
  items [] = []
  items (item ev ∷ ps) = ev ∷ items ps
  items (_ ∷ ps) = items ps

  apply_persistence-Evolves :
      (c : Controller ch) (o : PersistenceOptions) → Evolves ch c (apply_persistence ch c o).0 []
  unfolding apply_persistence
  apply_persistence-Evolves c o =
      quiet ch c (apply_persistence ch c o).0 (ground arith) (ground arith) (ground arith)
        (ground arith) (ground arith) (ground arith)

  add_to-Evolves :
      (c : Controller ch) (o : Option (FanOut ch)) (id : SubscriberId) (tx : ch.Tx)
      → c.fanout ≡ o
      → Evolves ch c (add_to ch c o id tx) []
  unfolding add_to act_all act sink_all
  add_to-Evolves c none id tx e = Evolves_self ch c
  add_to-Evolves c (some f) id tx e = record {
    acts = adds id tx ∷ [];
    numbered = refl;
    fans = rw e refl;
    sinks = refl;
    counts = omega arith;
    logs = refl;
    keeps = refl;
    holds = refl;
  }

  pub remove_from-Evolves :
      (c : Controller ch) (o : Option (FanOut ch)) (id : SubscriberId)
      → c.fanout ≡ o
      → Evolves ch c (remove_from ch c o id) []
  unfolding act_all act sink_all
  remove_from-Evolves c none id e = Evolves_self ch c
  remove_from-Evolves c (some f) id e = record {
    acts = drops id ∷ [];
    numbered = refl;
    fans = rw e refl;
    sinks = refl;
    counts = omega arith;
    logs = refl;
    keeps = refl;
    holds = refl;
  }

  -- The control that a shutdown emits.
  abbrev pub closing : Timestamp → MarketEvent
  closing now = control (record { source_ts = now; rx_ts = now; seq = 0; kind = session_closing })

  pub shutdown-Evolves :
      (c c' : Controller ch) (now : Timestamp) (on : Bool)
      → ◌>>=◌ {B = Controller ch × Bool} (shutdown ch c now) (λ d. some (d, false)) ≡ some (c', on)
      → Evolves ch c c' (closing now ∷ []) × (on ≡ false)
  unfolding shutdown
  shutdown-Evolves c c' now on e =
      let (d, emitted, rest) = bind-some (shutdown ch c now) _ (c', on) e in
      let (same, off) = pair-eq rest in
      (
        subst (λ x. Evolves ch c x (closing now ∷ [])) same
            (emit-Evolves ch c d (closing now) emitted),
        sym off,
      )

  pub handle_command-Evolves :
      (c c' : Controller ch) (cmd : Option (SessionCommand ch)) (now : Timestamp) (on : Bool)
      → handle_command ch c cmd now ≡ some (c', on)
      → (evs : List MarketEvent) × Evolves ch c c' evs × (on ≡ true → evs ≡ [])
  unfolding handle_command shutdown
  handle_command-Evolves c c' (some (set_persistence o)) now on e =
      ([], subst (λ d. Evolves ch c d []) (pair-eq e).0 (apply_persistence-Evolves c o), λ t. refl)
  handle_command-Evolves c c' (some (add_subscriber id tx)) now on e = (
    [],
    subst (λ d. Evolves ch c d []) (pair-eq e).0 (add_to-Evolves c c.fanout id tx refl),
    λ t. refl,
  )
  handle_command-Evolves c c' (some close) now on e =
      let (v, off) = shutdown-Evolves c c' now on e in (closing now ∷ [], v, λ t. cc)
  handle_command-Evolves c c' none now on e =
      ([], subst (λ d. Evolves ch c d []) (pair-eq e).0 (Evolves_self ch c), λ t. refl)

  removal_arm-Evolves :
      (c c' : Controller ch) (side : Option BackfillSide) (r : Removal) (now : Timestamp)
      (on : Bool)
      → removal_arm ch c side r now ≡ some (c', on)
      → (evs : List MarketEvent) × Evolves ch c c' evs × (on ≡ true → evs ≡ [])
  unfolding removal_arm shutdown
  removal_arm-Evolves c c' none r now on e =
      ([], subst (λ d. Evolves ch c d []) (pair-eq e).0 (Evolves_self ch c), λ t. refl)
  removal_arm-Evolves c c' (some side) r now on e =
      let (d, down) = backfill_removal_triggers_teardown ch c r in go d down (left c r) e
    where
      left :
          (c : Controller ch) (r : Removal)
          → Evolves ch c (backfill_removal_triggers_teardown ch c r).0 []
      left c (one id) = remove_from-Evolves c c.fanout id refl
      left c closed = Evolves_self ch c

      go :
          (d : Controller ch) (down : Bool)
          → Evolves ch c d []
          → (if down
              then ◌>>=◌ {B = Controller ch × Bool} (shutdown ch d now) (λ x. some (x, false))
              else some (d, true))
            ≡ some (c', on)
          → (evs : List MarketEvent) × Evolves ch c c' evs × (on ≡ true → evs ≡ [])
      go d true v e =
          let (w, off) = shutdown-Evolves d c' now on e in
          (closing now ∷ [], Evolves-trans ch c d c' [] (closing now ∷ []) v w, λ t. cc)
      go d false v e = ([], subst (λ y. Evolves ch c y []) (pair-eq e).0 v, λ t. refl)

  live_arm-Evolves :
      (s : Stream ch) (side : Option BackfillSide) (ev : Option MarketEvent)
      → Evolves ch s.controller (live_arm ch s side ev).controller []
  unfolding live_arm note_provider_arrival record_provider_control
  live_arm-Evolves s none ev = Evolves_self ch s.controller
  live_arm-Evolves s (some side) ev =
      quiet ch s.controller (live_arm ch s (some side) ev).controller (ground arith) (ground arith)
        (ground arith) (ground arith) (ground arith) (ground arith)

  -- A round evolves the session, and one that goes on emits just its item.
  pub round-Evolves :
      (s s' : Stream ch) (p : Poll ch) (on : Bool)
      → round ch s p ≡ some (s', on)
      → (evs : List MarketEvent) × Evolves ch s.controller s'.controller evs
        × (on ≡ true → evs ≡ items (p ∷ []))
  unfolding round
  round-Evolves s s' (command cmd now) on e =
      let ((d, goes), handled, rest) =
        bind-some (handle_command ch s.controller cmd now) _ (s', on) e in
      let (same, g) = pair-eq rest in
      let (evs, v, q) = handle_command-Evolves s.controller d cmd now goes handled in
      (
        evs,
        subst (λ (t : Stream ch). Evolves ch s.controller t.controller evs) same v,
        λ t. q (g ∙ t),
      )
  round-Evolves s s' (removal r now) on e =
      let ((d, goes), handled, rest) =
        bind-some (removal_arm ch s.controller s.side r now) _ (s', on) e in
      let (same, g) = pair-eq rest in
      let (evs, v, q) = removal_arm-Evolves s.controller d s.side r now goes handled in
      (
        evs,
        subst (λ (t : Stream ch). Evolves ch s.controller t.controller evs) same v,
        λ t. q (g ∙ t),
      )
  round-Evolves s s' (arrival ev) on e = (
    [],
    subst (λ (t : Stream ch). Evolves ch s.controller t.controller []) (pair-eq e).0
        (live_arm-Evolves s s.side ev),
    λ t. refl,
  )
  round-Evolves s s' (item ev) on e =
      let (d, emitted, rest) = bind-some (emit ch s.controller ev) _ (s', on) e in
      (
        ev ∷ [],
        subst (λ (t : Stream ch). Evolves ch s.controller t.controller (ev ∷ [])) (pair-eq rest).0
            (emit-Evolves ch s.controller d ev emitted),
        λ t. refl,
      )
