-- ===== src/Examples/Rings.antt =====
-- Rings that overflow.
use datamancer.Base.{List, [], ◌∷◌}
use datamancer.Core.Event.{MarketEvent}
use datamancer.Session.Ring
use datamancer.Session.Ring.Loss.{Buffers, push_all-new}
use datamancer.Client.Ring as ClientRing
use datamancer.Client.Ring.{Entry}
use datamancer.Client.Ring.PerInstrument
use datamancer.Client.Ring.PerInstrument.{push_all-per_instrument}
use datamancer.Examples.Fixtures.{apple, tesla, trade_at}

abbrev three_trades : List MarketEvent
three_trades = trade_at apple 10 1 ∷ trade_at apple 30 2 ∷ trade_at apple 20 3 ∷ []

push_all-new_example :
    (evicted : List MarketEvent) × Buffers
      (Ring.push_all (Ring.new 2) three_trades)
      evicted
      three_trades
push_all-new_example = push_all-new 2 three_trades

abbrev three_entries : List Entry
three_entries =
    (trade_at apple 10 1, "alpaca")
    ∷ (trade_at tesla 20 1, "alpaca")
    ∷ (trade_at apple 30 2, "alpaca")
    ∷ []

push_all-per_instrument_example :
    (evicted : List Entry) × PerInstrument.Buffers
      (PerInstrument.push_all (ClientRing.new 1) three_entries)
      evicted
      three_entries
push_all-per_instrument_example = push_all-per_instrument 1 three_entries
