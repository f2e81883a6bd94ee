-- ===== src/Session/Live/Upstream.antt =====
-- A live session from its start to its end: the upstream handle is released once, at the end.
use datamancer.Base.{
  ◌≡◌, refl, sym, ap, subst, ◌∙◌, Bool, true, false, not, Option, none, some, List, if◌then◌else◌,
  bind-some, some-eq, triple-eq, ◌>>=◌,
}
use datamancer.Core.Event.{Timestamp}
use datamancer.Channel.{Channel}
use datamancer.Client.FanOut.{FanOut}
use datamancer.Client.Stats.{fetch_add1}
use datamancer.Session.Controller.{Controller}
use datamancer.Session.Run.{World, StoreCall}
use datamancer.Session.Live.{
  LivePoll, live_loop, LiveRun, finish_live, count_fanout, backfill_from, run_live,
}
use datamancer.Session.Live.Ending.{any_stop, Ends, live_loop-Ends}
use datamancer.Session.Live.Backfill.{run_backfill-kept}

module _ (ch : Channel) (w : World ch) where
  -- The handle is there until the end, and the release is counted.
  pub record Released (c : Controller ch) (polls : List (LivePoll ch)) (r : LiveRun ch)
      : Type 0 where
    pub released : r.handle_there ≡ not r.ended
    pub counted :
        r.controller.accounting.unsubscribes
        ≡ (if r.ended then fetch_add1 c.accounting.unsubscribes else c.accounting.unsubscribes)
    pub stopped : any_stop ch polls ≡ true → r.ended ≡ true

  finish_live-Released :
      (c d : Controller ch) (polls : List (LivePoll ch)) (stores : List StoreCall) (ended : Bool)
      → d.accounting.unsubscribes ≡ c.accounting.unsubscribes
      → (any_stop ch polls ≡ true → ended ≡ true)
      → Released c polls (finish_live ch stores d ended)
  finish_live-Released c d polls stores true held stops = record {
    released = refl;
    counted = ap fetch_add1 held;
    stopped = stops;
  }
  finish_live-Released c d polls stores false held stops = record {
    released = refl;
    counted = held;
    stopped = stops;
  }

  count_fanout-kept :
      (c : Controller ch) (o : Option (FanOut ch))
      → ((count_fanout ch c o).stats.backfilling ≡ c.stats.backfilling)
        × ((count_fanout ch c o).accounting.unsubscribes ≡ c.accounting.unsubscribes)
  count_fanout-kept c none = (refl, refl)
  count_fanout-kept c (some f) = (refl, refl)

  backfill_from-unsubscribes :
      (c c' : Controller ch) (from : Option Timestamp) (now : Timestamp) (stores : List StoreCall)
      (on : Bool)
      → c.stats.backfilling ≡ false
      → backfill_from ch w c from now ≡ some (c', stores, on)
      → c'.accounting.unsubscribes ≡ c.accounting.unsubscribes
  backfill_from-unsubscribes c c' none now stores on b e =
      ap (λ (x : Controller ch). x.accounting.unsubscribes) (sym (triple-eq e).0)
  backfill_from-unsubscribes c c' (some from) now stores on b e =
      (run_backfill-kept ch w c from now c' stores on b e).1

  -- A run of a live session, of any rounds and with any backfill, has released its upstream handle
  -- exactly if it has ended, and has itself added one unsubscription to its provider's count then and
  -- none before; and it has
  -- ended if any of its rounds is a close, a dropped session, a closed removal channel or a provider
  -- that is gone.
  pub run_live-Released :
      (c : Controller ch) (from : Option Timestamp) (now : Timestamp) (waits : Bool)
      (polls : List (LivePoll ch)) (r : LiveRun ch)
      → c.stats.backfilling ≡ false
      → run_live ch w c from now waits polls ≡ some r
      → Released c polls r
  unfolding run_live Ends
  run_live-Released c from now waits polls r b e =
      let (flag, same_count) = count_fanout-kept c c.fanout in
      let ((d, stores, on), filled, rest) =
        bind-some (backfill_from ch w (count_fanout ch c c.fanout) from now) _ r e in
      go d stores on
        (backfill_from-unsubscribes (count_fanout ch c c.fanout) d from now stores on (flag ∙ b)
            filled
          ∙ same_count)
        rest
    where
      go :
          (d : Controller ch) (stores : List StoreCall) (on : Bool)
          → d.accounting.unsubscribes ≡ c.accounting.unsubscribes
          → ◌≡◌ {A = Option (LiveRun ch)}
              (elim on [
                | true ↦ do
                  (x, ended) ← live_loop ch d waits polls
                  some (finish_live ch stores x ended)
                | false ↦ some (finish_live ch stores d true)
              ])
              (some r)
          → Released c polls r
      go d stores true held rest =
          let ((x, ended), ran, last) = bind-some (live_loop ch d waits polls) _ r rest in
          let (kept, stops) = live_loop-Ends ch d x waits ended polls ran in
          subst (Released c polls) (some-eq last)
            (finish_live-Released c x polls stores ended (kept ∙ held) stops)
      go d stores false held rest =
          subst (Released c polls) (some-eq rest)
            (finish_live-Released c d polls stores true held (λ s. refl))
