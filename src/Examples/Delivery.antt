-- ===== src/Examples/Delivery.antt =====
-- A slow referrer: the second event is dropped, its loss is reported once the consumer has read.
use datamancer.Base.{
  ◌≡◌, ◌↔◌, refl, true, none, List, [], ◌∷◌, All, arith, lookup, nat_eq, IsUnique,
}
use datamancer.Core.Event.{MarketEvent}
use datamancer.Client.FanOut.{
  Referrer, FanOut, SubscriberId, serve, fanout, new, should_teardown, serve_pending, settle,
  settle_gap, offer, absorb_drop, absorb, to_event, gap_coords, data_coords,
}
use datamancer.Client.FanOut.Loss.{IsAccounted}
use datamancer.Client.FanOut.Order.{IsOrdered}
use datamancer.Client.FanOut.History.{
  Served, joined, delivered, consumed, next_seq, Served-IsAccounted, Served-IsOrdered,
}
use datamancer.Client.FanOut.Referrers.{served, lookup-fanout}
use datamancer.Client.FanOut.Lifetime.{
  Act, adds, drops, delivers, act_all, any_add, followed, should_teardown_iff,
}
use datamancer.Examples.Fixtures.{Queue, bounded, queue, apple, trade_at}

abbrev fresh : Referrer bounded
fresh = record { tx = queue 1; pending = none }

abbrev ev_1 : MarketEvent
ev_1 = trade_at apple 10 1

abbrev ev_2 : MarketEvent
ev_2 = trade_at apple 20 2

abbrev ev_3 : MarketEvent
ev_3 = trade_at apple 30 3

abbrev after_two : Referrer bounded
after_two = (serve bounded (serve bounded fresh ev_1).0 ev_2).0

-- The consumer has read all.
abbrev read_all : Queue → Queue
read_all q = record q { waiting = 0 }

abbrev after_read : Referrer bounded
after_read = record after_two { tx = read_all after_two.tx }

abbrev after_three : Referrer bounded
after_three = (serve bounded after_read ev_3).0

abbrev history : List MarketEvent
history = ev_3 ∷ ev_2 ∷ ev_1 ∷ []

slow_life : Served bounded fresh history after_three
unfolding serve serve_pending settle settle_gap offer absorb_drop absorb to_event gap_coords
    data_coords
slow_life =
    delivered ev_3
      (consumed (read_all after_two.tx) (delivered ev_2 (delivered ev_1 joined refl) refl) refl)
      refl

Served-IsAccounted_example : All (IsAccounted bounded after_three) history
unfolding gap_coords data_coords
Served-IsAccounted_example =
    Served-IsAccounted bounded apple fresh slow_life refl (refl, (refl, (refl, tt)))

Served-IsOrdered_example : IsOrdered bounded after_three (next_seq 1 history)
Served-IsOrdered_example =
    Served-IsOrdered bounded fresh 1 slow_life (omega arith)
      (omega arith, (omega arith, (omega arith, tt)))

abbrev two_referrers : FanOut bounded
two_referrers = record {
  subscribers = (4, fresh) ∷ (7, after_two) ∷ [];
  last_subscription_changed = none;
  had_subscriber = true;
}

two_referrers-IsUnique : IsUnique two_referrers.subscribers
two_referrers-IsUnique = ((λ e. omega arith, tt), (tt, tt))

lookup-fanout_example :
    lookup 7 (fanout bounded two_referrers ev_3).subscribers
    ≡ served bounded ev_3 (lookup 7 two_referrers.subscribers)
lookup-fanout_example = lookup-fanout bounded two_referrers ev_3 7 two_referrers-IsUnique

abbrev one_life : List (Act bounded)
one_life = adds 4 (queue 1) ∷ delivers ev_1 ∷ drops 4 ∷ []

should_teardown_iff_example :
    (should_teardown bounded (act_all bounded (new bounded) one_life) ≡ true) ↔ (
      (any_add bounded one_life ≡ true)
      × ((id : SubscriberId) → followed bounded id one_life ≡ none))
should_teardown_iff_example = should_teardown_iff bounded one_life
