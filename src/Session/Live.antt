-- ===== src/Session/Live.antt =====
-- crates/datamancer/src/session.rs: `run_backfill` and `run_live`. The clock at the start of the
-- backfill is an argument, and the rounds of the live loop come as a list, in any interleaving; where
-- the list ends before the loop does, the session is still running.
pub mod Seeds
pub mod Ending
pub mod Backfill
pub mod Upstream
pub mod Room
use datamancer.Base.{
  Bool, true, false, not, ◌&&◌, Option, none, some, List, [], ◌∷◌, if◌then◌else◌, ◌>>=◌,
}
use datamancer.Base.Int.{leb_ℤ}
use datamancer.Core.Event.{Timestamp, GapSpan, MarketEvent}
use datamancer.Channel.{Channel}
use datamancer.Client.FanOut
use datamancer.Client.FanOut.{FanOut, SubscriberId}
use datamancer.Client.Stats.{set_backfilling, set_subscribers}
use datamancer.Session.Options.{PersistenceOptions}
use datamancer.Session.Ring
use datamancer.Session.Ring.{EventRing}
use datamancer.Session.Tile.{tile}
use datamancer.Session.Controller.{Controller, Arrival, seed, forward, forward_with}
use datamancer.Session.Lifecycle.{
  note_provider_arrival, flush_backfill_pending, SessionCommand, handle_command,
  live_should_teardown, remove_subscriber, teardown_upstream,
}
use datamancer.Session.Run.{
  World, SegmentOutcome, done, closed, BackfillSide, StoreCall, Stream, key_of,
}
use datamancer.Session.Run.Segments.{stream_segments}

abbrev pub whole : Timestamp → Timestamp → List GapSpan
whole from to = record { from_source_ts = from; to_source_ts = to } ∷ []

abbrev pub or_whole : Timestamp → Timestamp → Option (List GapSpan) → List GapSpan
or_whole from to none = whole from to
or_whole from to (some gaps) = gaps

-- The gaps of a backfill: what the cache says, or all of it.
unfoldable pub backfill_gaps :
    (ch : Channel) → World ch → Controller ch → Timestamp → Timestamp → List GapSpan
backfill_gaps ch w c from edge =
    if c.has_cache && c.persistence.read_cache
    then or_whole from edge (w.gaps_of (key_of ch c from edge))
    else whole from edge

-- `BackfillingGuard`: the flag is set for its lifetime.
abbrev pub with_backfilling : (ch : Channel) → Controller ch → Bool → Controller ch
with_backfilling ch c active = record c { stats = set_backfilling c.stats active }

-- The buffered arrivals are forwarded at the seam, unless the plan was cut short.
unfoldable pub pending_of : Option BackfillSide → EventRing → EventRing
pending_of none ring = ring
pending_of (some side) ring = side.pending

unfoldable pub backfill_ended :
    (ch : Channel)
    → EventRing
    → Stream ch × List StoreCall × SegmentOutcome
    → Option (Controller ch × List StoreCall × Bool)
unfolding flush_backfill_pending pending_of
backfill_ended ch ring (s, stores, closed) =
    some (with_backfilling ch s.controller false, stores, false)
backfill_ended ch ring (s, stores, done) = do
  c ← flush_backfill_pending ch s.controller (pending_of s.side ring)
  some (with_backfilling ch c false, stores, true)

-- The controller after a backfill, the store calls, and whether the session goes on.
unfoldable pub run_backfill :
    (ch : Channel)
    → World ch
    → Controller ch
    → Timestamp
    → (edge : Timestamp) → Option (Controller ch × List StoreCall × Bool)
unfolding backfill_ended backfill_gaps stream_segments
run_backfill ch w c from edge =
    let ring = Ring.new c.ring_capacity in
    let side : BackfillSide = record { edge = edge; is_open = true; pending = ring } in
    let s : Stream ch = record { controller = with_backfilling ch c true; side = some side } in
    let segments = tile from edge (backfill_gaps ch w c from edge) in
    if leb_ℤ edge from
    then some (c, [], true)
    else (do ended ← stream_segments ch w c.persistence s segments; backfill_ended ch ring ended)

-- A round of the live loop; `none` is a closed source, or for a seed a failure or no event.
pub data LivePoll (ch : Channel) : Type 0 where
  command : Option (SessionCommand ch) → (now : Timestamp) → LivePoll ch
  removal : Option SubscriberId → LivePoll ch
  arrival : Option MarketEvent → LivePoll ch
  seeded : Option MarketEvent → LivePoll ch

-- The seed is forwarded only while no data has been.
unfoldable pub seed_arm :
    (ch : Channel) → Controller ch → Option MarketEvent → Option (Controller ch)
unfolding forward_with
seed_arm ch c none = some c
seed_arm ch c (some ev) = if c.data_forwarded then some c else forward_with ch c ev seed

-- The controller, whether a seed may still come (`seed_rx.is_some()`), and whether the loop goes on.
unfoldable pub live_round :
    (ch : Channel) → Controller ch → Bool → LivePoll ch → Option (Controller ch × Bool × Bool)
unfolding handle_command note_provider_arrival seed_arm forward
live_round ch c waits (command cmd now) = do
  (c', on) ← handle_command ch c cmd now
  some (c', waits, on)
live_round ch c waits (removal (some id)) = some (remove_subscriber ch c id, waits, true)
live_round ch c waits (removal none) = some (c, waits, false)
live_round ch c waits (arrival (some ev)) = do
  c' ← forward ch (note_provider_arrival ch c ev) ev
  some (c', waits, true)
live_round ch c waits (arrival none) = some (c, waits, false)
live_round ch c true (seeded ev) = do c' ← seed_arm ch c ev; some (c', false, true)
live_round ch c false (seeded ev) = some (c, false, true)

-- The controller, and whether the loop has ended.
unfoldable pub live_loop :
    (ch : Channel) → Controller ch → Bool → List (LivePoll ch) → Option (Controller ch × Bool)
unfolding live_round
live_loop ch c waits [] = some (c, live_should_teardown ch c)
live_loop ch c waits (p ∷ ps) = elim (live_should_teardown ch c) [
  | true ↦ some (c, true)
  | false ↦ do
    (c', waits', on) ← live_round ch c waits p
    elim on [ true ↦ live_loop ch c' waits' ps | false ↦ some (c', true) ]
]

-- A session that has ended has released its upstream handle; one that runs still has it.
pub record LiveRun (ch : Channel) : Type 0 where
  pub controller : Controller ch
  pub handle_there : Bool
  pub ended : Bool
  pub stores : List StoreCall

abbrev pub finish_live : (ch : Channel) → List StoreCall → Controller ch → Bool → LiveRun ch
finish_live ch stores c true =
    let (c', there) = teardown_upstream ch c true in
    record { controller = c'; handle_there = there; ended = true; stores = stores }
finish_live ch stores c false = record {
  controller = c;
  handle_there = true;
  ended = false;
  stores = stores;
}

abbrev pub count_fanout : (ch : Channel) → Controller ch → Option (FanOut ch) → Controller ch
count_fanout ch c none = c
count_fanout ch c (some f) = record c {
  stats = set_subscribers c.stats (FanOut.subscriber_count ch f);
}

abbrev pub backfill_from :
    (ch : Channel)
    → World ch
    → Controller ch
    → Option Timestamp
    → Timestamp
    → Option (Controller ch × List StoreCall × Bool)
backfill_from ch w c none now = some (c, [], true)
backfill_from ch w c (some from) now = run_backfill ch w c from now

unfoldable pub run_live :
    (ch : Channel)
    → World ch
    → Controller ch
    → Option Timestamp
    → (now : Timestamp) → Bool
    → List (LivePoll ch)
    → Option (LiveRun ch)
unfolding run_backfill live_loop
run_live ch w c from now waits polls = do
  (c', stores, on) ← backfill_from ch w (count_fanout ch c c.fanout) from now
  elim on [
    | true ↦ do (c'', ended) ← live_loop ch c' waits polls; some (finish_live ch stores c'' ended)
    | false ↦ some (finish_live ch stores c' true)
  ]
