-- ===== src/Session/Run.antt =====
-- crates/datamancer/src/session.rs: the loops of `stream_segments`, which replays and fetches a planned request.
-- A round of a `select!` loop is a poll, and a loop's polls come as a list, in any interleaving; its
-- end is the `None` that ends the replayed or fetched stream. The cache and the provider are the
-- parameter `World`; `none` is the panic of `stamp`.
pub mod Segments
pub mod Trace
pub mod Room
pub mod Rounds
pub mod Loops
pub mod Plan
pub mod Delivery
pub mod Settle
pub mod Whole
pub mod Ends
use datamancer.Base.{
  Bool, true, false, ◌&&◌, Option, none, some, String, List, [], ◌∷◌, ◌++◌, if◌then◌else◌, ◌>>=◌,
}
use datamancer.Base.Int.{ltb_ℤ, leb_ℤ, max_ℤ}
use datamancer.Core.Event.{Timestamp, GapSpan, MarketEvent, data_source_ts}
use datamancer.Core.Request.{HistoryRequest, CacheKey}
use datamancer.Channel.{Channel}
use datamancer.Provider.Accounting.{record_history_fetch}
use datamancer.Session.Options.{PersistenceOptions}
use datamancer.Session.Ring.{EventRing}
use datamancer.Session.Tile.{Segment, covered, gap, confirmed_prefix_end}
use datamancer.Session.Controller.{Controller, emit, emit_gap, emit_provider_error}
use datamancer.Session.Lifecycle.{
  note_provider_arrival, buffer_live_arrival, Removal, backfill_removal_triggers_teardown,
  SessionCommand, handle_command, shutdown,
}

pub data Poll (ch : Channel) : Type 0 where
  command : Option (SessionCommand ch) → (now : Timestamp) → Poll ch
  removal : Removal → (now : Timestamp) → Poll ch
  arrival : Option MarketEvent → Poll ch
  item : MarketEvent → Poll ch

-- The answers of the cache (`gaps`, and `open` with the polls of its replay; `none` is an error) and
-- of the provider (the polls of a fetch, and the text of its error).
pub record World (ch : Channel) : Type 0 where
  pub gaps_of : CacheKey → Option (List GapSpan)
  pub open_replay : CacheKey → Option (List (Poll ch))
  pub fetch_history : HistoryRequest → List (Poll ch) × Option String

pub data SegmentOutcome : Type 0 where
  done closed : SegmentOutcome

-- `live_rx` is there while `is_open`.
pub record BackfillSide : Type 0 where
  pub edge : Timestamp
  pub is_open : Bool
  pub pending : EventRing

-- A `store` call on the cache.
pub record StoreCall : Type 0 where
  pub key : CacheKey
  pub batch : List MarketEvent

-- What the loops change: the controller, and the live side of a backfill.
pub record Stream (ch : Channel) : Type 0 where
  pub controller : Controller ch
  pub side : Option BackfillSide

abbrev pub key_of : (ch : Channel) → Controller ch → Timestamp → Timestamp → CacheKey
key_of ch c f t = record {
  instrument = c.instrument;
  kind = c.kind;
  from = f;
  to = t;
  adjustment = c.adjustment;
}

abbrev pub request_of : (ch : Channel) → Controller ch → Timestamp → Timestamp → HistoryRequest
request_of ch c f t = record {
  instrument = c.instrument;
  kind = c.kind;
  from = f;
  to = t;
  adjustment = c.adjustment;
}

-- The three arms that both loops have. A source that is not there is never ready: its poll changes
-- nothing.
unfoldable pub removal_arm :
    (ch : Channel)
    → Controller ch
    → Option BackfillSide
    → Removal
    → Timestamp
    → Option (Controller ch × Bool)
unfolding shutdown
removal_arm ch c none r now = some (c, true)
removal_arm ch c (some side) r now =
    let (c', down) = backfill_removal_triggers_teardown ch c r in
    if down then (do c'' ← shutdown ch c' now; some (c'', false)) else some (c', true)

abbrev note_some : (ch : Channel) → Controller ch → Option MarketEvent → Controller ch
note_some ch c none = c
note_some ch c (some ev) = note_provider_arrival ch c ev

unfoldable pub live_arm :
    (ch : Channel) → Stream ch → Option BackfillSide → Option MarketEvent → Stream ch
unfolding note_provider_arrival
live_arm ch s none ev = s
live_arm ch s (some side) ev =
    let (is_open, pending) = buffer_live_arrival ev side.is_open side.pending in
    if side.is_open
    then record {
      controller = note_some ch s.controller ev;
      side = some (record side { is_open = is_open; pending = pending });
    }
    else s

-- One round: the new state, and whether the loop goes on.
unfoldable pub round : (ch : Channel) → Stream ch → Poll ch → Option (Stream ch × Bool)
unfolding removal_arm live_arm handle_command emit
round ch s (command cmd now) = do
  (c, on) ← handle_command ch s.controller cmd now
  some (record s { controller = c }, on)
round ch s (removal r now) = do
  (c, on) ← removal_arm ch s.controller s.side r now
  some (record s { controller = c }, on)
round ch s (arrival ev) = some (live_arm ch s s.side ev, true)
round ch s (item ev) = do c ← emit ch s.controller ev; some (record s { controller = c }, true)

unfoldable pub replay_loop :
    (ch : Channel) → Stream ch → List (Poll ch) → Option (Stream ch × SegmentOutcome)
unfolding round
replay_loop ch s [] = some (s, done)
replay_loop ch s (p ∷ ps) = do
  (s', on) ← round ch s p
  elim on [ true ↦ replay_loop ch s' ps | false ↦ some (s', closed) ]

-- `batch` and `max_data_ts`
pub record Fetched : Type 0 where
  pub batch : List MarketEvent
  pub max_data_ts : Option Timestamp

abbrev pub nothing_fetched : Fetched
nothing_fetched = record { batch = []; max_data_ts = none }

-- `Option::max`, where `none` is the least
abbrev pub max_option : Option Timestamp → Option Timestamp → Option Timestamp
max_option none b = b
max_option (some a) none = some a
max_option (some a) (some b) = some (max_ℤ a b)

-- What the arm of a fetched event keeps of it, before it is emitted.
abbrev pub gather : (ch : Channel) → Bool → Fetched → Poll ch → Fetched
gather ch store got (item ev) = record {
  batch = if store then got.batch ++ (ev ∷ []) else got.batch;
  max_data_ts = max_option got.max_data_ts (data_source_ts ev);
}
gather ch store got _ = got

unfoldable pub fetch_loop :
    (ch : Channel)
    → Bool
    → Stream ch
    → Fetched
    → List (Poll ch)
    → Option (Stream ch × Fetched × SegmentOutcome)
unfolding round
fetch_loop ch store s got [] = some (s, got, done)
fetch_loop ch store s got (p ∷ ps) = do
  (s', on) ← round ch s p
  let got' = gather ch store got p
  elim on [ true ↦ fetch_loop ch store s' got' ps | false ↦ some (s', got', closed) ]
