-- ===== src/Client/Occupancy.antt =====
-- crates/datamancer/src/client.rs: `ClientStats`, what a client session shows of itself.
use datamancer.Base.{ℕ, ◌+◌, ◌%◌, List, []}
use datamancer.Core.Instrument.{Instrument}
use datamancer.Core.Event.{EventKind}

-- The registry that removes a dropped session is the owner's, and no part of the record.
pub record ClientStats : Type 0 where
  pub id : ℕ
  pub capacity : ℕ
  pub occupancy : ℕ
  pub dropped_events : ℕ
  pub subscriptions : List (Instrument × EventKind)

unfoldable pub new : ℕ → ℕ → ClientStats
new id capacity = record {
  id = id;
  capacity = capacity;
  occupancy = 0;
  dropped_events = 0;
  subscriptions = [];
}

-- u64 `fetch_add`, which wraps
unfoldable pub record_drops : ClientStats → ℕ → ClientStats
record_drops s n = record s { dropped_events = (s.dropped_events + n) % 18446744073709551616 }

unfoldable pub set_occupancy : ClientStats → ℕ → ClientStats
set_occupancy s n = record s { occupancy = n }

unfoldable pub set_subscriptions : ClientStats → List (Instrument × EventKind) → ClientStats
set_subscriptions s subs = record s { subscriptions = subs }
