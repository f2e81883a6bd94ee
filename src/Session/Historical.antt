-- ===== src/Session/Historical.antt =====
-- crates/datamancer/src/session.rs: `run_historical`, `run_historical_cached` and
-- `finish_historical`. Polls come as lists, in any interleaving; where the list of the last loop ends
-- before it does, the session is still draining. The slot of `FetchLocks` is only who else fetches:
-- what the cache answers after it was awaited is an argument.
pub mod Trace
pub mod Whole
use datamancer.Base.{
  Bool, true, false, not, ◌&&◌, Option, none, some, String, List, [], ◌∷◌, if◌then◌else◌, ◌>>=◌,
}
use datamancer.Core.Event.{
  Timestamp, GapSpan, MarketEvent, control, session_closing, data_source_ts,
}
use datamancer.Core.Request.{HistoryRequest}
use datamancer.Channel.{Channel}
use datamancer.Provider.Accounting.{record_history_fetch, record_history_fetch_coalesced}
use datamancer.Session.Options.{PersistenceOptions, uses_cache}
use datamancer.Session.Tile.{tile}
use datamancer.Session.Controller.{
  Controller, Sink, attached, detached, emit, forward, emit_provider_error,
}
use datamancer.Session.Lifecycle.{SessionCommand, handle_command, shutdown}
use datamancer.Session.Run.{
  World, SegmentOutcome, done, closed, StoreCall, Stream, key_of, request_of, max_option,
}
use datamancer.Session.Run.Segments.{stream_segments}
use datamancer.Session.Live.{or_whole, whole}

-- A round of the loop over the fetch.
pub data FetchPoll (ch : Channel) : Type 0 where
  command : Option (SessionCommand ch) → (now : Timestamp) → FetchPoll ch
  fetched : MarketEvent → FetchPoll ch

-- A round of the loop that waits for the consumer.
pub data DrainPoll (ch : Channel) : Type 0 where
  command : Option (SessionCommand ch) → (now : Timestamp) → DrainPoll ch
  stream_closed : (now : Timestamp) → DrainPoll ch

-- The controller and `max_data_ts`; a command that ends the session aborts the fetch.
unfoldable pub forward_loop :
    (ch : Channel)
    → Controller ch
    → Option Timestamp
    → List (FetchPoll ch)
    → Option (Controller ch × Option Timestamp × SegmentOutcome)
unfolding handle_command forward
forward_loop ch c last [] = some (c, last, done)
forward_loop ch c last (command cmd now ∷ ps) = do
  (c', on) ← handle_command ch c cmd now
  elim on [ true ↦ forward_loop ch c' last ps | false ↦ some (c', last, closed) ]
forward_loop ch c last (fetched ev ∷ ps) = do
  let last' = max_option last (data_source_ts ev)
  c' ← forward ch c ev
  forward_loop ch c' last' ps

-- The controller, and whether it has ended.
unfoldable pub drain_loop :
    (ch : Channel) → Controller ch → List (DrainPoll ch) → Option (Controller ch × Bool)
unfolding handle_command shutdown
drain_loop ch c [] = some (c, false)
drain_loop ch c (command cmd now ∷ ps) = do
  (c', on) ← handle_command ch c cmd now
  elim on [ true ↦ drain_loop ch c' ps | false ↦ some (c', true) ]
drain_loop ch c (stream_closed now ∷ ps) = do c' ← shutdown ch c now; some (c', true)

unfoldable pub drain :
    (ch : Channel)
    → Controller ch
    → Sink ch
    → Timestamp
    → List (DrainPoll ch)
    → Option (Controller ch × Bool)
unfolding drain_loop shutdown
drain ch c (attached tx) now ps =
    if ch.is_closed tx then (do c' ← shutdown ch c now; some (c', true)) else drain_loop ch c ps
drain ch c (detached ring) now ps = do c' ← shutdown ch c now; some (c', true)

-- `taken` is `stream_taken`; `now` is the clock, `later` at a shutdown after the closing.
unfoldable pub finish_historical :
    (ch : Channel)
    → Controller ch
    → (taken : Bool) → (now later : Timestamp) → List (DrainPoll ch)
    → Option (Controller ch × Bool)
unfolding drain shutdown emit
finish_historical ch c false now later ps = do c' ← shutdown ch c now; some (c', true)
finish_historical ch c true now later ps = do
  c' ←
      emit ch c (control (record { source_ts = now; rx_ts = now; seq = 0; kind = session_closing }))
  drain ch c' c'.sink later ps

-- The gaps to fetch, with the cache asked again after the slot: nothing left then is a fetch that
-- another session has made.
unfoldable pub gaps_after_slot :
    (ch : Channel) → Controller ch → List GapSpan → List GapSpan → Controller ch × List GapSpan
gaps_after_slot ch c [] regaps = (c, [])
gaps_after_slot ch c (g ∷ gs) [] =
    (record c { accounting = record_history_fetch_coalesced c.accounting }, [])
gaps_after_slot ch c (g ∷ gs) (r ∷ rs) = (c, r ∷ rs)

unfoldable pub cached_gaps :
    (ch : Channel)
    → World ch
    → Controller ch
    → Timestamp
    → Timestamp
    → Option (List GapSpan)
    → Controller ch × List GapSpan
unfolding gaps_after_slot
cached_gaps ch w c from to regaps =
    if c.persistence.read_cache
    then gaps_after_slot ch c (or_whole from to (w.gaps_of (key_of ch c from to)))
        (or_whole from to regaps)
    else (c, whole from to)

-- What is known at the end of a session: who drains, when, and in which rounds.
pub record Drain (ch : Channel) : Type 0 where
  pub taken : Bool
  pub now : Timestamp
  pub later : Timestamp
  pub polls : List (DrainPoll ch)

unfoldable pub finish_streamed :
    (ch : Channel) → Drain ch → Controller ch → SegmentOutcome → Option (Controller ch × Bool)
unfolding finish_historical
finish_streamed ch d c closed = some (c, true)
finish_streamed ch d c done = finish_historical ch c d.taken d.now d.later d.polls

unfoldable pub run_historical_cached :
    (ch : Channel)
    → World ch
    → Controller ch
    → Timestamp
    → Timestamp
    → Option (List GapSpan)
    → Drain ch
    → Option (Controller ch × List StoreCall × Bool)
unfolding cached_gaps stream_segments finish_streamed
run_historical_cached ch w c from to regaps d = do
  let (c', gaps) = cached_gaps ch w c from to regaps
  let s : Stream ch = record { controller = c'; side = none }
  (s', stores, outcome) ← stream_segments ch w c.persistence s (tile from to gaps)
  (c'', ended) ← finish_streamed ch d s'.controller outcome
  some (c'', stores, ended)

abbrev pub last_or : Option Timestamp → Timestamp → Timestamp
last_or none from = from
last_or (some ts) from = ts

unfoldable pub surface_error :
    (ch : Channel) → Controller ch → Timestamp → Option String → Option (Controller ch)
unfolding emit_provider_error
surface_error ch c ts none = some c
surface_error ch c ts (some message) = emit_provider_error ch c ts message

-- The path without a cache: one fetch, with its polls and the text of its error.
unfoldable pub run_fetch :
    (ch : Channel)
    → (HistoryRequest → List (FetchPoll ch) × Option String)
    → Controller ch
    → Timestamp
    → Timestamp
    → Drain ch
    → Option (Controller ch × Bool)
unfolding forward_loop surface_error finish_historical
run_fetch ch fetch c from to d = do
  let (polls, error) = fetch (request_of ch c from to)
  let c0 : Controller ch = record c { accounting = record_history_fetch c.accounting }
  (c1, last, outcome) ← forward_loop ch c0 none polls
  elim outcome [
    | closed ↦ some (c1, true)
    | done ↦ do
      c2 ← surface_error ch c1 (last_or last from) error
      finish_historical ch c2 d.taken d.now d.later d.polls
  ]

unfoldable pub run_historical :
    (ch : Channel)
    → World ch
    → (HistoryRequest → List (FetchPoll ch) × Option String)
    → Controller ch
    → Timestamp
    → Timestamp
    → Option (List GapSpan)
    → Drain ch
    → Option (Controller ch × List StoreCall × Bool)
unfolding run_historical_cached run_fetch
run_historical ch w fetch c from to regaps d =
    if uses_cache c.persistence && c.has_cache
    then run_historical_cached ch w c from to regaps d
    else (do (c', ended) ← run_fetch ch fetch c from to d; some (c', [], ended))
