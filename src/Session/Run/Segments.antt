-- ===== src/Session/Run/Segments.antt =====
-- crates/datamancer/src/session.rs: `stream_segments` over the segments of a plan.
use datamancer.Base.{
  Bool, false, ◌&&◌, Option, none, some, String, List, [], ◌∷◌, ◌++◌, if◌then◌else◌, ◌>>=◌,
}
use datamancer.Base.Int.{ltb_ℤ, leb_ℤ}
use datamancer.Core.Event.{Timestamp}
use datamancer.Channel.{Channel}
use datamancer.Provider.Accounting.{record_history_fetch}
use datamancer.Session.Options.{PersistenceOptions}
use datamancer.Session.Tile.{Segment, covered, gap, confirmed_prefix_end}
use datamancer.Session.Controller.{Controller, emit_gap, emit_provider_error}
use datamancer.Session.Run.{
  Poll, World, SegmentOutcome, done, closed, BackfillSide, StoreCall, Stream, key_of, request_of,
  replay_loop, Fetched, nothing_fetched, fetch_loop,
}

-- What follows a segment: the next one, `break`, or `return SegmentOutcome::Closed`.
pub data Flow : Type 0 where
  continues breaks returns : Flow

abbrev pub flow_of : SegmentOutcome → Flow
flow_of done = continues
flow_of closed = returns

unfoldable pub gap_over :
    (ch : Channel) → Stream ch → Timestamp → Timestamp → Option (Stream ch × Flow)
unfolding emit_gap
gap_over ch s f t = do
  c ← emit_gap ch s.controller f f t
  some (record s { controller = c }, continues)

unfoldable pub replay_opened :
    (ch : Channel)
    → Stream ch
    → Timestamp
    → Timestamp
    → Option (List (Poll ch))
    → Option (Stream ch × Flow)
unfolding gap_over replay_loop
replay_opened ch s f t none = gap_over ch s f t
replay_opened ch s f t (some polls) = do
  (s', outcome) ← replay_loop ch s polls
  some (s', flow_of outcome)

unfoldable pub covered_segment :
    (ch : Channel) → World ch → Stream ch → Timestamp → Timestamp → Option (Stream ch × Flow)
unfolding replay_opened gap_over
covered_segment ch w s f t =
    if s.controller.has_cache
    then replay_opened ch s f t (w.open_replay (key_of ch s.controller f t))
    else gap_over ch s f t

-- `live.as_ref().map(|l| l.edge)`
abbrev pub edge_of : Option BackfillSide → Option Timestamp
edge_of none = none
edge_of (some side) = some side.edge

-- `edge == Some(t)`
abbrev pub is_edge : Option Timestamp → Timestamp → Bool
is_edge none t = false
is_edge (some edge) t = leb_ℤ edge t && leb_ℤ t edge

-- `edge.unwrap_or(t)`
abbrev pub edge_or : Option Timestamp → Timestamp → Timestamp
edge_or none t = t
edge_or (some edge) t = edge

-- The `store` call with a claim up to a time, where the cache is written.
abbrev pub store_to :
    (ch : Channel)
    → PersistenceOptions
    → Controller ch
    → Timestamp
    → Timestamp
    → Fetched
    → List StoreCall
store_to ch options c f claim_to got =
    if options.write_cache && c.has_cache
    then record { key = key_of ch c f claim_to; batch = got.batch } ∷ []
    else []

-- `claim_to`
abbrev pub claim_end : Option Timestamp → Fetched → Timestamp → Timestamp → Timestamp
claim_end edge got f t = if is_edge edge t then confirmed_prefix_end got.max_data_ts f t else t

-- The gap over what was not confirmed, and the provider's error.
unfoldable pub report_failure :
    (ch : Channel) → Controller ch → Timestamp → Timestamp → String → Option (Controller ch)
unfolding emit_gap emit_provider_error
report_failure ch c confirmed_to gap_to message = do
  c' ← if ltb_ℤ confirmed_to gap_to then emit_gap ch c confirmed_to confirmed_to gap_to else some c
  emit_provider_error ch c' confirmed_to message

-- After the loop of a fetch; `none` stands for a fetch that succeeded.
unfoldable pub settle_fetch :
    (ch : Channel)
    → PersistenceOptions
    → Stream ch
    → Fetched
    → Timestamp
    → Timestamp
    → Option String
    → Option (Stream ch × List StoreCall × Flow)
unfolding report_failure
settle_fetch ch options s got f t none =
    some (s, store_to ch options s.controller f (claim_end (edge_of s.side) got f t) got, continues)
settle_fetch ch options s got f t (some message) = do
  let confirmed_to = confirmed_prefix_end got.max_data_ts f t
  c ← report_failure ch s.controller confirmed_to (edge_or (edge_of s.side) t) message
  some (record s { controller = c }, store_to ch options s.controller f confirmed_to got, breaks)

unfoldable pub fetch_ended :
    (ch : Channel)
    → PersistenceOptions
    → Timestamp
    → Timestamp
    → Option String
    → Stream ch × Fetched × SegmentOutcome
    → Option (Stream ch × List StoreCall × Flow)
unfolding settle_fetch
fetch_ended ch options f t error (s, got, done) = settle_fetch ch options s got f t error
fetch_ended ch options f t error (s, got, closed) = some (s, [], returns)

abbrev pub count_fetch : (ch : Channel) → Stream ch → Stream ch
count_fetch ch s = record s {
  controller = record s.controller { accounting = record_history_fetch s.controller.accounting };
}

unfoldable pub gap_segment :
    (ch : Channel)
    → World ch
    → PersistenceOptions
    → Stream ch
    → Timestamp
    → Timestamp
    → Option (Stream ch × List StoreCall × Flow)
unfolding fetch_loop fetch_ended
gap_segment ch w options s f t = do
  let (polls, error) = w.fetch_history (request_of ch s.controller f t)
  let store = options.write_cache && s.controller.has_cache
  ended ← fetch_loop ch store (count_fetch ch s) nothing_fetched polls
  fetch_ended ch options f t error ended

unfoldable pub one_segment :
    (ch : Channel)
    → World ch
    → PersistenceOptions
    → Stream ch
    → Segment
    → Option (Stream ch × List StoreCall × Flow)
unfolding covered_segment gap_segment
one_segment ch w options s (covered f t) = do
  (s', flow) ← covered_segment ch w s f t
  some (s', [], flow)
one_segment ch w options s (gap f t) = gap_segment ch w options s f t

unfoldable pub stream_segments :
    (ch : Channel)
    → World ch
    → PersistenceOptions
    → Stream ch
    → List Segment
    → Option (Stream ch × List StoreCall × SegmentOutcome)
unfolding one_segment
stream_segments ch w options s [] = some (s, [], done)
stream_segments ch w options s (seg ∷ segs) = do
  (s', stores, flow) ← one_segment ch w options s seg
  elim flow [
    | continues ↦ do
      (s'', more, outcome) ← stream_segments ch w options s' segs
      some (s'', stores ++ more, outcome)
    | breaks ↦ some (s', stores, done)
    | returns ↦ some (s', stores, closed)
  ]
