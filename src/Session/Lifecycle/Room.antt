-- ===== src/Session/Lifecycle/Room.antt =====
-- The room that the operations of a session need for their sequence numbers.
use datamancer.Base.{◌≡◌, refl, ◌+◌, ◌≤◌, ◌<◌, Bool, true, false, Option, none, some, arith}
use datamancer.Core.Event.{Timestamp, seq_max, MarketEvent, control, session_closing, stamp_seq}
use datamancer.Channel.{Channel}
use datamancer.Client.FanOut.{FanOut, SubscriberId}
use datamancer.Session.Options.{PersistenceOptions}
use datamancer.Session.Controller.{
  Controller, Arrival, live_arrival, emit, forward_with, stamp, deliver_with, after_stamp,
}
use datamancer.Session.Controller.Stamping.{stamp-some, forward-some, after_stamp-next_seq}
use datamancer.Session.Lifecycle.{
  note_provider_arrival, handle_command, SessionCommand, set_persistence, add_subscriber, close,
  shutdown, apply_persistence, add_to, remove_subscriber,
}

module _ (ch : Channel) where
  pub forwards :
      (c : Controller ch) (ev : MarketEvent) (a : Arrival)
      → c.next_seq + 1 < seq_max
      → (c' : Controller ch) × (forward_with ch c ev a ≡ some c') × (c'.next_seq ≡ c.next_seq + 1)
  forwards c ev a room =
      let c1 = record c { next_seq = c.next_seq + 1 } in
      (
        after_stamp ch c1 (stamp_seq ev c.next_seq) a,
        forward-some ch c ev a room,
        after_stamp-next_seq ch c1 (stamp_seq ev c.next_seq) a,
      )

  pub emits :
      (c : Controller ch) (ev : MarketEvent)
      → c.next_seq + 1 < seq_max
      → (c' : Controller ch) × (emit ch c ev ≡ some c') × (c'.next_seq ≡ c.next_seq + 1)
  unfolding emit stamp deliver_with
  emits c ev room =
      let c1 = record c { next_seq = c.next_seq + 1 } in
      let ev' = stamp_seq ev c.next_seq in
      (deliver_with ch c1 ev' live_arrival, rw (stamp-some ch c ev room) refl, ground arith)

  pub shuts :
      (c : Controller ch) (now : Timestamp)
      → c.next_seq + 1 < seq_max
      → (c' : Controller ch) × (shutdown ch c now ≡ some c') × (c'.next_seq ≡ c.next_seq + 1)
  unfolding shutdown
  shuts c now room =
      emits c (control (record { source_ts = now; rx_ts = now; seq = 0; kind = session_closing }))
        room

  pub note-next_seq :
      (c : Controller ch) (ev : MarketEvent) → (note_provider_arrival ch c ev).next_seq ≡ c.next_seq
  unfolding note_provider_arrival
  note-next_seq c ev = ground arith

  pub remove-next_seq :
      (c : Controller ch) (id : SubscriberId) → (remove_subscriber ch c id).next_seq ≡ c.next_seq
  remove-next_seq c id = ground arith

  pub apply-next_seq :
      (c : Controller ch) (o : PersistenceOptions)
      → (apply_persistence ch c o).0.next_seq ≡ c.next_seq
  unfolding apply_persistence
  apply-next_seq c o = ground arith

  pub add-next_seq :
      (c : Controller ch) (f : Option (FanOut ch)) (id : SubscriberId) (tx : ch.Tx)
      → (add_to ch c f id tx).next_seq ≡ c.next_seq
  unfolding add_to
  add-next_seq c f id tx = ground arith

  -- A command takes one sequence number at most.
  pub commands :
      (c : Controller ch) (cmd : Option (SessionCommand ch)) (now : Timestamp)
      → c.next_seq + 1 < seq_max
      → (c' : Controller ch) × (on : Bool) × (handle_command ch c cmd now ≡ some (c', on))
        × (c'.next_seq ≤ c.next_seq + 1)
  unfolding handle_command
  commands c (some (set_persistence o)) now room =
      ((apply_persistence ch c o).0, true, refl, omega (arith, apply-next_seq c o))
  commands c (some (add_subscriber id tx)) now room =
      (add_to ch c c.fanout id tx, true, refl, omega (arith, add-next_seq c c.fanout id tx))
  commands c (some close) now room =
      let (c', e, n) = shuts c now room in (c', false, rw e refl, omega (arith, n))
  commands c none now room = (c, false, refl, omega arith)
