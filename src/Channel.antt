-- ===== src/Channel.antt =====
-- The sending half of a bounded tokio channel (`tokio::sync::mpsc::Sender`), which is not part of
-- the repository: a type with the calls the program makes, and what the program relies on of them.
-- `received` is what the channel has accepted so far, oldest first, read by the receiver or not.
use datamancer.Base.{◌≡◌, Bool, true, List, [], ◌∷◌, ◌++◌}
use datamancer.Core.Event.{MarketEvent}

-- `Result<(), TrySendError>`
pub data TrySend : Type 0 where
  accepted full closed : TrySend

pub record Channel : Type 1 where
  pub Tx : Type 0
  pub received : Tx → List MarketEvent
  pub try_send : Tx → MarketEvent → TrySend × Tx
  -- `send(ev).await`: true once the event is accepted, false if the receiver is gone
  pub send : Tx → MarketEvent → Bool × Tx
  pub is_closed : Tx → Bool
  -- An accepted event comes after those before it; a refused one is not received.
  pub try_send_accepts :
      (tx : Tx) (ev : MarketEvent)
      → (try_send tx ev).0 ≡ accepted
      → received (try_send tx ev).1 ≡ received tx ++ (ev ∷ [])
  pub try_send_full :
      (tx : Tx) (ev : MarketEvent)
      → (try_send tx ev).0 ≡ full
      → received (try_send tx ev).1 ≡ received tx
  pub send_accepts :
      (tx : Tx) (ev : MarketEvent)
      → (send tx ev).0 ≡ true
      → received (send tx ev).1 ≡ received tx ++ (ev ∷ [])
