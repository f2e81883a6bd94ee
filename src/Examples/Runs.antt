-- ===== src/Examples/Runs.antt =====
-- Whole runs of sessions: a planned request, a backfill, a live session and a historical one.
use datamancer.Base.{
  arith, ◌≡◌, refl, Bool, true, false, Option, none, some, String, List, [], ◌∷◌, pos,
}
use datamancer.Core.Event.{MarketEvent}
use datamancer.Core.Request.{HistoryRequest}
use datamancer.Session.Options.{historical, cached, no_persistence}
use datamancer.Session.Ring
use datamancer.Session.Tile.{Segment, covered, gap}
use datamancer.Session.Controller.{Controller, emit, stamp}
use datamancer.Session.Lifecycle.{note_provider_arrival}
use datamancer.Session.Run.{
  arrival, item, World, SegmentOutcome, done, BackfillSide, StoreCall, Stream, round, replay_loop,
  fetch_loop, live_arm,
}
use datamancer.Session.Run.Segments.{
  stream_segments, one_segment, covered_segment, replay_opened, gap_segment, fetch_ended,
  settle_fetch,
}
use datamancer.Session.Run.Trace.{identity, Evolves}
use datamancer.Session.Run.Loops.{hear_all}
use datamancer.Session.Run.Plan.{attempted, plan_events, plan_polls, plan_stores}
use datamancer.Session.Run.Whole.{stream_segments_done}
use datamancer.Session.Run.Ends.{Finishes, stream_segments-Finishes}
use datamancer.Session.Tile.{tile, tile_loop}
use datamancer.Client.FanOut
use datamancer.Client.Stats
use datamancer.Session.Ring.{push_all}
use datamancer.Session.Controller.{
  after_stamp, deliver_with, forward, forward_with, emit_provider_error,
}
use datamancer.Session.Lifecycle.{
  flush_backfill_pending, flush_gap, forward_all, handle_command, shutdown,
}
use datamancer.Session.Live.{
  backfill_gaps, backfill_ended, pending_of, run_backfill, LivePoll, command, seeded, live_round,
  live_loop, LiveRun, run_live,
}
use datamancer.Session.Live.Backfill.{Stitched, run_backfill-Stitched}
use datamancer.Session.Live.Upstream.{Released, run_live-Released}
use datamancer.Session.Live.Seeds.{without_seeds, live_loop-without_seeds}
use datamancer.Session.Live.Room.{Returns, live_loop-Returns}
use datamancer.Session.Historical.{
  FetchPoll, fetched, Drain, forward_loop, surface_error, finish_historical, run_fetch,
  run_historical,
}
use datamancer.Session.Historical.Whole.{run_historical-Delivers}
use datamancer.Examples.Fixtures.{bounded, apple, trade_at}
use datamancer.Examples.Sessions.{session_at}

-- A cache that has one trade of any range, and a provider that sends one while another arrives live.
abbrev world : World bounded
world = record {
  gaps_of = λ key. some [];
  open_replay = λ key. some (item (trade_at apple 5 0) ∷ []);
  fetch_history =
      λ request. (item (trade_at apple 12 0) ∷ arrival (some (trade_at apple 30 0)) ∷ [], none);
}

abbrev cached_session : Controller bounded
cached_session = record (session_at 5) { persistence = cached; has_cache = true }

abbrev backfill : BackfillSide
backfill = record { edge = pos 20; is_open = true; pending = Ring.new 8 }

abbrev start : Stream bounded
start = record { controller = cached_session; side = some backfill }

abbrev segments : List Segment
segments = covered (pos 0) (pos 10) ∷ gap (pos 10) (pos 20) ∷ []

abbrev streamed : Option (Stream bounded × List StoreCall × SegmentOutcome)
streamed = stream_segments bounded world cached start segments

abbrev stream_of : Option (Stream bounded × List StoreCall × SegmentOutcome) → Stream bounded
stream_of none = start
stream_of (some (s, stores, outcome)) = s

abbrev stores_of : Option (Stream bounded × List StoreCall × SegmentOutcome) → List StoreCall
stores_of none = []
stores_of (some (s, stores, outcome)) = stores

streamed_done : streamed ≡ some (stream_of streamed, stores_of streamed, done)
unfolding stream_segments one_segment covered_segment replay_opened replay_loop gap_segment
    fetch_loop fetch_ended settle_fetch round live_arm emit stamp
streamed_done = refl

stream_segments_done_example :
    let s' = stream_of streamed in
    let i = identity bounded cached_session in
    let plan = attempted bounded world i (some (pos 20)) segments in
    Evolves bounded cached_session s'.controller (plan_events bounded world i (some (pos 20)) plan)
    × (s'.side ≡ hear_all bounded (some backfill) (plan_polls bounded world i (some (pos 20)) plan))
    × (stores_of streamed ≡ plan_stores bounded world i (some (pos 20)) cached plan)
stream_segments_done_example =
    stream_segments_done bounded world cached start (stream_of streamed) segments
      (stores_of streamed) streamed_done

stream_segments-Finishes_example : Finishes bounded world cached 12 streamed
stream_segments-Finishes_example =
    stream_segments-Finishes bounded world cached start segments (omega arith)

-- A backfill to the live edge.
abbrev filled : Option (Controller bounded × List StoreCall × Bool)
filled = run_backfill bounded world cached_session (pos 0) (pos 20)

abbrev controller_of : Option (Controller bounded × List StoreCall × Bool) → Controller bounded
controller_of none = cached_session
controller_of (some (c, stores, on)) = c

abbrev kept_of : Option (Controller bounded × List StoreCall × Bool) → List StoreCall
kept_of none = []
kept_of (some (c, stores, on)) = stores

filled_on : filled ≡ some (controller_of filled, kept_of filled, true)
unfolding run_backfill backfill_gaps backfill_ended pending_of stream_segments one_segment
    covered_segment replay_opened replay_loop gap_segment fetch_loop fetch_ended settle_fetch round
    live_arm emit stamp flush_backfill_pending flush_gap forward_all forward forward_with tile
    tile_loop Ring.new Ring.push push_all
filled_on = refl

run_backfill-Stitched_example :
    Stitched bounded world cached_session (pos 0) (pos 20) (controller_of filled) (kept_of filled)
run_backfill-Stitched_example =
    run_backfill-Stitched bounded world cached_session (pos 0) (pos 20) (controller_of filled)
      (kept_of filled) refl filled_on

-- A live session that forwards an arrival and is then dropped.
abbrev rounds : List (LivePoll bounded)
rounds = LivePoll.arrival (some (trade_at apple 40 0)) ∷ command none (pos 50) ∷ []

abbrev ran : Option (LiveRun bounded)
ran = run_live bounded world (session_at 5) none (pos 20) true rounds

abbrev run_of : Option (LiveRun bounded) → LiveRun bounded
run_of none = record { controller = session_at 5; handle_there = true; ended = false; stores = [] }
run_of (some r) = r

ran-some : ran ≡ some (run_of ran)
unfolding run_live live_loop live_round forward forward_with stamp handle_command
    note_provider_arrival FanOut.new FanOut.should_teardown FanOut.fanout after_stamp deliver_with
ran-some = refl

run_live-Released_example : Released bounded world (session_at 5) rounds (run_of ran)
unfolding Stats.new
run_live-Released_example =
    run_live-Released bounded world (session_at 5) none (pos 20) true rounds (run_of ran) refl
      ran-some

-- A session that has forwarded data, and a seed that comes late.
abbrev busy : Controller bounded
busy = record (session_at 5) { data_forwarded = true }

abbrev late : List (LivePoll bounded)
late = seeded (some (trade_at apple 3 0)) ∷ command none (pos 50) ∷ []

live_loop-without_seeds_example :
    live_loop bounded busy true late ≡ live_loop bounded busy false (without_seeds bounded late)
live_loop-without_seeds_example = live_loop-without_seeds bounded busy true late refl

live_loop-Returns_example : Returns bounded 6 (live_loop bounded busy true late)
live_loop-Returns_example = live_loop-Returns bounded busy true late (omega arith)

-- A historical session without a cache, whose stream nobody took.
abbrev past : Controller bounded
past = record (session_at 5) {
  scope = historical (pos 0) (pos 20);
  persistence = no_persistence;
  fanout = none;
}

abbrev fetch_one : HistoryRequest → List (FetchPoll bounded) × Option String
fetch_one request = (fetched (trade_at apple 12 0) ∷ [], some "rejected")

abbrev untaken : Drain bounded
untaken = record { taken = false; now = pos 60; later = pos 60; polls = [] }

abbrev told : Option (Controller bounded × List StoreCall × Bool)
told = run_historical bounded world fetch_one past (pos 0) (pos 20) none untaken

told-some : told ≡ some (controller_of told, kept_of told, true)
unfolding run_historical run_fetch forward_loop surface_error emit_provider_error finish_historical
    shutdown forward forward_with stamp emit after_stamp
told-some = refl

run_historical-Delivers_example :
    (evs : List MarketEvent) × Evolves bounded past (controller_of told) evs
run_historical-Delivers_example =
    run_historical-Delivers bounded world fetch_one past (controller_of told) (pos 0) (pos 20)
      (pos 0) (pos 20) none untaken (kept_of told) true refl told-some
