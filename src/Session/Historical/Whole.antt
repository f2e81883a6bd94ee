-- ===== src/Session/Historical/Whole.antt =====
-- `run_historical` from its start to its end, on both paths.
use datamancer.Base.{
  ◌≡◌, ◌&&◌, refl, ap, ◌∙◌, subst, Bool, true, false, Option, none, some, String, List, [], ◌∷◌,
  ◌++◌, if◌then◌else◌, bind-some, pair-eq, some-eq, triple-eq, ◌>>=◌,
}
use datamancer.Core.Event.{Timestamp, GapSpan, MarketEvent}
use datamancer.Core.Request.{HistoryRequest}
use datamancer.Channel.{Channel}
use datamancer.Provider.Accounting.{record_history_fetch, record_history_fetch_coalesced}
use datamancer.Session.Options.{historical, uses_cache}
use datamancer.Session.Tile.{tile}
use datamancer.Session.Controller.{Controller, forward}
use datamancer.Session.Lifecycle.{handle_command}
use datamancer.Session.Run.{
  World, SegmentOutcome, done, closed, StoreCall, Stream, request_of, key_of,
}
use datamancer.Session.Run.Segments.{stream_segments}
use datamancer.Session.Run.Trace.{Evolves, Evolves-trans, Evolves_self, quiet}
use datamancer.Session.Run.Rounds.{handle_command-Evolves}
use datamancer.Session.Run.Plan.{emit_provider_error-Evolves}
use datamancer.Session.Run.Whole.{stream_segments-Evolves}
use datamancer.Session.Live.{or_whole, whole}
use datamancer.Session.Historical.{
  FetchPoll, command, fetched, forward_loop, finish_historical, gaps_after_slot, cached_gaps, Drain,
  finish_streamed, run_historical_cached, last_or, surface_error, run_fetch, run_historical,
}
use datamancer.Session.Historical.Trace.{
  Delivers, Delivers-trans, Delivers-scope, Delivers-self, finish_historical-Delivers,
  forward-Evolves,
}

module _ (ch : Channel) where
  -- The events of a fetch.
  abbrev pub fetched_of : List (FetchPoll ch) → List MarketEvent
  fetched_of [] = []
  fetched_of (fetched ev ∷ ps) = ev ∷ fetched_of ps
  fetched_of (command cmd now ∷ ps) = fetched_of ps

  -- A loop that was not cut short has delivered just what the fetch sent.
  pub record Forwarded (c d : Controller ch) (ps : List (FetchPoll ch)) (outcome : SegmentOutcome)
      : Type 0 where
    pub emitted : List MarketEvent
    pub evolves : Evolves ch c d emitted
    pub full : outcome ≡ done → emitted ≡ fetched_of ps

  Forwarded-same :
      (c d : Controller ch) (ps : List (FetchPoll ch)) (outcome : SegmentOutcome)
      → c ≡ d
      → (outcome ≡ done → [] ≡ fetched_of ps)
      → Forwarded c d ps outcome
  Forwarded-same c d ps outcome e h = record {
    emitted = [];
    evolves = subst (λ x. Evolves ch c x []) e (Evolves_self ch c);
    full = h;
  }

  -- The forwarding of an unplanned fetch: the events are delivered, numbered one after the other,
  -- past the tap log, and all of them and no others if the loop was not cut short.
  pub forward_loop-Forwarded :
      (c d : Controller ch) (last last' : Option Timestamp) (ps : List (FetchPoll ch))
      (outcome : SegmentOutcome) (f t : Timestamp)
      → c.scope ≡ historical f t
      → forward_loop ch c last ps ≡ some (d, last', outcome)
      → Forwarded c d ps outcome
  unfolding forward_loop
  forward_loop-Forwarded c d last last' [] outcome f t h e =
      Forwarded-same c d [] outcome (triple-eq e).0 (λ o. refl)
  forward_loop-Forwarded c d last last' (command cmd now ∷ ps) outcome f t h e =
      let ((x, on), ran, rest) = bind-some (handle_command ch c cmd now) _ (d, last', outcome) e in
      let (evs, v, q) = handle_command-Evolves ch c x cmd now on ran in
      let kept : x.scope ≡ historical f t = Delivers-scope ch c x f t (evs, v) h in
      go x on evs v q (λ r. forward_loop-Forwarded x d last last' ps outcome f t kept r) rest
    where
      go :
          (x : Controller ch) (on : Bool) (evs : List MarketEvent)
          → Evolves ch c x evs
          → (on ≡ true → evs ≡ [])
          → (forward_loop ch x last ps ≡ some (d, last', outcome) → Forwarded x d ps outcome)
          → ◌≡◌ {A = Option (Controller ch × Option Timestamp × SegmentOutcome)}
              (elim on [ true ↦ forward_loop ch x last ps | false ↦ some (x, last, closed) ])
              (some (d, last', outcome))
          → Forwarded c d (command cmd now ∷ ps) outcome
      go x true evs v q later r =
          let u = later r in
          record {
            emitted = evs ++ u.emitted;
            evolves = Evolves-trans ch c x d evs u.emitted v u.evolves;
            full = λ o. ap (λ l. l ++ u.emitted) (q refl) ∙ u.full o;
          }
      go x false evs v q later r =
          let (same, l, out) = triple-eq r in
          record { emitted = evs; evolves = subst (λ y. Evolves ch c y evs) same v; full = λ o. cc }
  forward_loop-Forwarded c d last last' (fetched ev ∷ ps) outcome f t h e =
      let (x, sent, rest) = bind-some (forward ch c ev) _ (d, last', outcome) e in
      let v = forward-Evolves ch c x ev f t h sent in
      let kept : x.scope ≡ historical f t = Delivers-scope ch c x f t (ev ∷ [], v) h in
      let u = forward_loop-Forwarded x d _ last' ps outcome f t kept rest in
      record {
        emitted = ev ∷ u.emitted;
        evolves = Evolves-trans ch c x d (ev ∷ []) u.emitted v u.evolves;
        full = λ o. ap (◌∷◌ ev) (u.full o);
      }

  surface_error-Delivers :
      (c d : Controller ch) (ts : Timestamp) (error : Option String)
      → surface_error ch c ts error ≡ some d
      → Delivers ch c d
  unfolding surface_error
  surface_error-Delivers c d ts none e = Delivers-self ch c d (some-eq e)
  surface_error-Delivers c d ts (some message) e =
      (_, emit_provider_error-Evolves ch c d ts message e)

  run_fetch-Delivers :
      (fetch : HistoryRequest → List (FetchPoll ch) × Option String) (c d : Controller ch)
      (from to f t : Timestamp) (drain : Drain ch) (on : Bool)
      → c.scope ≡ historical f t
      → run_fetch ch fetch c from to drain ≡ some (d, on)
      → Delivers ch c d
  unfolding run_fetch
  run_fetch-Delivers fetch c d from to f t drain on h e =
      let c0 = record c { accounting = record_history_fetch c.accounting } in
      let answer = fetch (request_of ch c from to) in
      let ((c1, last, outcome), ran, rest) =
        bind-some (forward_loop ch c0 none answer.0) _ (d, on) e in
      let v = forward_loop-Forwarded c0 c1 none last answer.0 outcome f t h ran in
      Delivers-trans ch c c1 d
        (
          _,
          Evolves-trans ch c c0 c1 [] v.emitted (quiet ch c c0 refl refl refl refl refl refl)
              v.evolves,
        )
        (go c1 last outcome rest)
    where
      go :
          (x : Controller ch) (last : Option Timestamp) (outcome : SegmentOutcome)
          → ◌≡◌ {A = Option (Controller ch × Bool)}
              (elim outcome [
                | closed ↦ some (x, true)
                | done ↦ do
                  c2 ← surface_error ch x (last_or last from) (fetch (request_of ch c from to)).1
                  finish_historical ch c2 drain.taken drain.now drain.later drain.polls
              ])
              (some (d, on))
          → Delivers ch x d
      go x last closed r = Delivers-self ch x d (pair-eq r).0
      go x last done r =
          let (y, told, rest) =
            bind-some (surface_error ch x (last_or last from) (fetch (request_of ch c from to)).1) _
              (d, on) r in
          Delivers-trans ch x y d
            (surface_error-Delivers x y (last_or last from) (fetch (request_of ch c from to)).1
              told)
            (finish_historical-Delivers ch y d drain.taken drain.now drain.later drain.polls on
              rest)

  gaps_after_slot-Delivers :
      (c : Controller ch) (gaps regaps : List GapSpan)
      → Delivers ch c (gaps_after_slot ch c gaps regaps).0
  unfolding gaps_after_slot
  gaps_after_slot-Delivers c [] regaps = Delivers-self ch c c refl
  gaps_after_slot-Delivers c (g ∷ gs) [] = (
    [],
    quiet ch c (record c { accounting = record_history_fetch_coalesced c.accounting }) refl refl
        refl refl refl refl,
  )
  gaps_after_slot-Delivers c (g ∷ gs) (r ∷ rs) = Delivers-self ch c c refl

  cached_gaps-Delivers :
      (w : World ch) (c : Controller ch) (from to : Timestamp) (regaps : Option (List GapSpan))
      → Delivers ch c (cached_gaps ch w c from to regaps).0
  unfolding cached_gaps
  cached_gaps-Delivers w c from to regaps = go c.persistence.read_cache
    where
      go :
          (b : Bool)
          → Delivers ch c
              (if b
                then gaps_after_slot ch c
                    (or_whole from to (w.gaps_of (key_of ch c from to)))
                    (or_whole from to regaps)
                else (c, whole from to)).0
      go true = gaps_after_slot-Delivers c _ _
      go false = Delivers-self ch c c refl

  finish_streamed-Delivers :
      (drain : Drain ch) (c d : Controller ch) (outcome : SegmentOutcome) (on : Bool)
      → finish_streamed ch drain c outcome ≡ some (d, on)
      → Delivers ch c d
  unfolding finish_streamed
  finish_streamed-Delivers drain c d closed on e = Delivers-self ch c d (pair-eq e).0
  finish_streamed-Delivers drain c d done on e =
      finish_historical-Delivers ch c d drain.taken drain.now drain.later drain.polls on e

  run_historical_cached-Delivers :
      (w : World ch) (c d : Controller ch) (from to : Timestamp) (regaps : Option (List GapSpan))
      (drain : Drain ch) (stores : List StoreCall) (on : Bool)
      → run_historical_cached ch w c from to regaps drain ≡ some (d, stores, on)
      → Delivers ch c d
  unfolding run_historical_cached
  run_historical_cached-Delivers w c d from to regaps drain stores on e =
      let c1 = (cached_gaps ch w c from to regaps).0 in
      let segs = tile from to (cached_gaps ch w c from to regaps).1 in
      let s : Stream ch = record { controller = c1; side = none } in
      let ((s', st, outcome), ran, rest) =
        bind-some (stream_segments ch w c.persistence s segs) _ (d, stores, on) e in
      let ((x, ended), finished, last) =
        bind-some (finish_streamed ch drain s'.controller outcome) _ (d, stores, on) rest in
      Delivers-trans ch c c1 d (cached_gaps-Delivers w c from to regaps) (
        Delivers-trans ch c1 s'.controller d
          (stream_segments-Evolves ch w c.persistence s s' segs st outcome ran)
          (subst (Delivers ch s'.controller) (triple-eq last).0
            (finish_streamed-Delivers drain s'.controller x outcome ended finished)))

  -- A historical session, with a cache or without, and however it goes and ends: the events that it
  -- delivers are numbered one after the other from its counter, and nothing goes to a tap log.
  pub run_historical-Delivers :
      (w : World ch) (fetch : HistoryRequest → List (FetchPoll ch) × Option String)
      (c d : Controller ch) (from to f t : Timestamp) (regaps : Option (List GapSpan))
      (drain : Drain ch) (stores : List StoreCall) (on : Bool)
      → c.scope ≡ historical f t
      → run_historical ch w fetch c from to regaps drain ≡ some (d, stores, on)
      → (evs : List MarketEvent) × Evolves ch c d evs
  unfolding run_historical
  run_historical-Delivers w fetch c d from to f t regaps drain stores on h e =
      go (uses_cache c.persistence && c.has_cache) e
    where
      go :
          (b : Bool)
          → ◌≡◌ {A = Option (Controller ch × List StoreCall × Bool)}
              (if b
                then run_historical_cached ch w c from to regaps drain
                else (do (c', ended) ← run_fetch ch fetch c from to drain; some (c', [], ended)))
              (some (d, stores, on))
          → Delivers ch c d
      go true e = run_historical_cached-Delivers w c d from to regaps drain stores on e
      go false e =
          let ((x, ended), ran, rest) =
            bind-some (run_fetch ch fetch c from to drain) _ (d, stores, on) e in
          subst (Delivers ch c) (triple-eq rest).0
            (run_fetch-Delivers fetch c x from to f t drain ended h ran)
