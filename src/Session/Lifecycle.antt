-- ===== src/Session/Lifecycle.antt =====
-- crates/datamancer/src/session.rs: what a `Controller` does on a provider's arrival, at the
-- backfill seam, on a command, and when it ends. A flush of a log or sink stores nothing new and is
-- left out; the acknowledgement of a command is the result that is returned.
pub mod Arrivals
pub mod Commands
pub mod Room
pub mod Seam
use datamancer.Base.{
  ℕ, Bool, true, false, not, ◌&&◌, Option, none, some, List, [], ◌∷◌, if◌then◌else◌, ◌>>=◌,
}
use datamancer.Core.Event.{
  Timestamp, Seq, GapSpan, MarketEvent, control, Control, ControlKind, session_closing,
}
use datamancer.Channel.{Channel}
use datamancer.Client.FanOut
use datamancer.Client.FanOut.{FanOut, SubscriberId}
use datamancer.Client.Stats.{LiveStats, record_connection, set_subscribers}
use datamancer.Provider.Accounting.{record_provider_control, record_unsubscribe}
use datamancer.Session.Options.{PersistenceOptions, uses_cache}
use datamancer.Session.Ring
use datamancer.Session.Ring.{EventRing, into_parts}
use datamancer.Session.Controller.{Controller, emit, emit_gap, forward}

unfoldable pub note_provider_arrival : (ch : Channel) → Controller ch → MarketEvent → Controller ch
note_provider_arrival ch c (control k) =
    let (stats, change) = record_connection c.stats k in
    record c { stats = stats; accounting = record_provider_control c.accounting k.kind change }
note_provider_arrival ch c _ = c

-- `buffer_live_arrival`, on the live side's state (open or not) and the pending ring
abbrev pub buffer_live_arrival : Option MarketEvent → Bool → EventRing → Bool × EventRing
buffer_live_arrival (some ev) is_open pending = (is_open, Ring.push pending ev)
buffer_live_arrival none is_open pending = (false, pending)

-- `for ev in events { self.forward(ev).await }`
unfoldable pub forward_all :
    (ch : Channel) → Controller ch → List MarketEvent → Option (Controller ch)
forward_all ch c [] = some c
forward_all ch c (ev ∷ evs) = do c' ← forward ch c ev; forward_all ch c' evs

unfoldable pub flush_gap : (ch : Channel) → Controller ch → Option GapSpan → Option (Controller ch)
flush_gap ch c none = some c
flush_gap ch c (some span) = emit_gap ch c span.from_source_ts span.from_source_ts span.to_source_ts

unfoldable pub flush_backfill_pending :
    (ch : Channel) → Controller ch → EventRing → Option (Controller ch)
unfolding flush_gap forward_all
flush_backfill_pending ch c ring = do
  let (dropped, first_seq, events) = into_parts ring
  c' ← flush_gap ch c dropped
  forward_all ch c' events

abbrev teardown_of : (ch : Channel) → Option (FanOut ch) → Bool
teardown_of ch none = false
teardown_of ch (some f) = FanOut.should_teardown ch f

abbrev pub live_should_teardown : (ch : Channel) → Controller ch → Bool
live_should_teardown ch c = teardown_of ch c.fanout

-- The fan-out changed: store it, and the subscriber count with it.
abbrev pub with_fanout : (ch : Channel) → Controller ch → FanOut ch → Controller ch
with_fanout ch c f = record c {
  fanout = some f;
  stats = set_subscribers c.stats (FanOut.subscriber_count ch f);
}

abbrev pub remove_from :
    (ch : Channel) → Controller ch → Option (FanOut ch) → SubscriberId → Controller ch
remove_from ch c none id = c
remove_from ch c (some f) id = with_fanout ch c (FanOut.drop_subscriber ch f id)

abbrev pub remove_subscriber : (ch : Channel) → Controller ch → SubscriberId → Controller ch
remove_subscriber ch c id = remove_from ch c c.fanout id

pub data Removal : Type 0 where
  one : SubscriberId → Removal
  closed : Removal

abbrev pub backfill_removal_triggers_teardown :
    (ch : Channel) → Controller ch → Removal → Controller ch × Bool
backfill_removal_triggers_teardown ch c (one id) =
    let c' = remove_subscriber ch c id in (c', live_should_teardown ch c')
backfill_removal_triggers_teardown ch c closed = (c, true)

pub data Error : Type 0 where
  persistence_required : Error

pub data Result (A : Type 0) : Type 0 where
  ok : A → Result A
  err : Error → Result A

abbrev pub is_present {ℓ} : {A : Type ℓ} → Option A → Bool
is_present none = false
is_present (some a) = true

unfoldable pub apply_persistence :
    (ch : Channel) → Controller ch → PersistenceOptions → Controller ch × Result (Unit {0})
apply_persistence ch c options =
    if uses_cache options && not c.has_cache
    then (c, err persistence_required)
    else if options.write_tap_log && not (is_present c.tap_log)
    then (c, err persistence_required)
    else (record c { persistence = options }, ok tt)

unfoldable pub shutdown : (ch : Channel) → Controller ch → Timestamp → Option (Controller ch)
shutdown ch c now =
    emit ch c (control (record { source_ts = now; rx_ts = now; seq = 0; kind = session_closing }))

pub data SessionCommand (ch : Channel) : Type 0 where
  set_persistence : PersistenceOptions → SessionCommand ch
  add_subscriber : SubscriberId → ch.Tx → SessionCommand ch
  close : SessionCommand ch

unfoldable pub add_to :
    (ch : Channel) → Controller ch → Option (FanOut ch) → SubscriberId → ch.Tx → Controller ch
add_to ch c none id sender = c
add_to ch c (some f) id sender = with_fanout ch c (FanOut.add ch f id sender)

-- The new controller, and whether it goes on; `now` is the clock at a shutdown.
unfoldable pub handle_command :
    (ch : Channel)
    → Controller ch
    → Option (SessionCommand ch)
    → Timestamp
    → Option (Controller ch × Bool)
unfolding apply_persistence add_to shutdown
handle_command ch c (some (set_persistence options)) now =
    some ((apply_persistence ch c options).0, true)
handle_command ch c (some (add_subscriber id sender)) now =
    some (add_to ch c c.fanout id sender, true)
handle_command ch c (some close) now = do c' ← shutdown ch c now; some (c', false)
handle_command ch c none now = some (c, false)

-- `teardown_upstream`, with whether a live handle is still there
abbrev pub teardown_upstream : (ch : Channel) → Controller ch → Bool → Controller ch × Bool
teardown_upstream ch c true = (record c { accounting = record_unsubscribe c.accounting }, false)
teardown_upstream ch c false = (c, false)
