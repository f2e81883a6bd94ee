-- ===== src/Examples/Fixtures.antt =====
-- A bounded queue as the channel, and data for the examples.
use datamancer.Base.{
  ℕ, ◌+◌, ◌≡◌, Bool, true, false, List, [], ◌∷◌, ◌++◌, pos, arith, if◌then◌else◌, ltb,
}
use datamancer.Core.Instrument.{Instrument, equity}
use datamancer.Core.Event.{
  MarketEvent, trade, Control, ControlKind, provider_connected, provider_disconnected, error,
}
use datamancer.Channel.{Channel, TrySend, accepted, full, closed}

-- `waiting` counts the events that the receiver has not read.
pub record Queue : Type 0 where
  pub capacity : ℕ
  pub taken : List MarketEvent
  pub waiting : ℕ
  pub gone : Bool

abbrev put : Queue → MarketEvent → Queue
put q ev = record q { taken = q.taken ++ (ev ∷ []); waiting = q.waiting + 1 }

abbrev try_put : Queue → MarketEvent → TrySend × Queue
try_put q ev =
    if q.gone
    then (closed, q)
    else if ltb q.waiting q.capacity
    then (accepted, put q ev)
    else (full, q)

abbrev await_put : Queue → MarketEvent → Bool × Queue
await_put q ev = if q.gone then (false, q) else (true, put q ev)

pub try_put_accepts :
    (q : Queue) (ev : MarketEvent)
    → (try_put q ev).0 ≡ accepted
    → (try_put q ev).1.taken ≡ q.taken ++ (ev ∷ [])
try_put_accepts q ev h = ground arith

pub try_put_full :
    (q : Queue) (ev : MarketEvent) → (try_put q ev).0 ≡ full → (try_put q ev).1.taken ≡ q.taken
try_put_full q ev h = ground arith

pub await_put_accepts :
    (q : Queue) (ev : MarketEvent)
    → (await_put q ev).0 ≡ true
    → (await_put q ev).1.taken ≡ q.taken ++ (ev ∷ [])
await_put_accepts q ev h = ground arith

abbrev pub bounded : Channel
bounded = record {
  Tx = Queue;
  received = λ q. q.taken;
  try_send = try_put;
  send = await_put;
  is_closed = λ q. q.gone;
  try_send_accepts = try_put_accepts;
  try_send_full = try_put_full;
  send_accepts = await_put_accepts;
}

abbrev pub queue : ℕ → Queue
queue capacity = record { capacity = capacity; taken = []; waiting = 0; gone = false }

abbrev pub apple : Instrument
apple = record { provider = "alpaca"; asset_class = equity; symbol = "AAPL" }

abbrev pub tesla : Instrument
tesla = record { provider = "alpaca"; asset_class = equity; symbol = "TSLA" }

-- A trade of an instrument at a time, with a sequence number.
abbrev pub trade_at : Instrument → ℕ → ℕ → MarketEvent
trade_at i ts seq = trade (record {
  instrument = i;
  source_ts = pos ts;
  rx_ts = pos (ts + 1);
  seq = seq;
  price = pos 150000000000;
  size = 1000000000;
})

abbrev pub control_at : ControlKind → ℕ → Control
control_at kind ts = record { source_ts = pos ts; rx_ts = pos (ts + 1); seq = 0; kind = kind }

abbrev pub connect : Control
connect = control_at (provider_connected "alpaca") 30

abbrev pub disconnect : Control
disconnect = control_at (provider_disconnected "alpaca" "reset" error) 20
