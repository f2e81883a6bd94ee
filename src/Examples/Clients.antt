-- ===== src/Examples/Clients.antt =====
-- A client session whose consumer is away and comes back.
use datamancer.Base.{◌≡◌, refl, none, List, [], ◌∷◌, ◌++◌, lookup, insert, string_eq, map, inr, pos}
use datamancer.Core.Event.{MarketEvent, control, trade_kind}
use datamancer.Session.Options.{live}
use datamancer.Client.Ring
use datamancer.Client.Ring.{ClientRing, into_parts, evict, note_drop, note, sort_gaps, insert_gap}
use datamancer.Client.Occupancy
use datamancer.Client.Session.{
  Key, ClientController, attached, detached, handle_command, take_events, subscribe_command,
  replied, succeeded, gap_event, route, key_eq, deliver_entries, provider_or,
}
use datamancer.Client.Session.Sync.{IsInSync, started, stepped, command, event, Steps-IsInSync}
use datamancer.Client.Session.Resume.{Delivered, event_of, take_events-replays}
use datamancer.Client.Session.Coalesce.{wanted, view, route_all, route_all-wanted}
use datamancer.Examples.Fixtures.{bounded, queue, apple, tesla, trade_at, connect, disconnect}

abbrev overflowed : ClientRing
overflowed =
    (Ring.push (Ring.push (Ring.new 1) (trade_at apple 10 1) "alpaca").0 (trade_at tesla 20 1)
      "alpaca").0

abbrev idle : ClientController bounded
idle = record {
  entries = [];
  streams = [];
  sink = attached (queue 2);
  ring_capacity = 2;
  seen_provider_state = [];
  last_provider_error = [];
  stats = Occupancy.new 1 2;
}

abbrev away : ClientController bounded
away = record idle { sink = detached overflowed }

take_events-replays_example :
    let (goes_on, reply, d) = handle_command bounded away (pos 50) (take_events (queue 9)) in
    (reply ≡ replied succeeded)
    × Delivered bounded (queue 9) d.sink (
        map gap_event (into_parts overflowed).0 ++ map (event_of bounded) (into_parts overflowed).1)
unfolding into_parts sort_gaps insert_gap Ring.push Ring.new evict note_drop note insert
take_events-replays_example =
    take_events-replays bounded away overflowed (pos 50) (queue 9) refl
      ((refl, refl, (refl, refl, tt)))

idle-IsInSync : IsInSync bounded idle
unfolding Occupancy.new
idle-IsInSync = record { occupancy = refl; subscriptions = refl }

abbrev apple_trades : Key
apple_trades = (apple, trade_kind)

abbrev subscribed : ClientController bounded
subscribed =
    (handle_command bounded idle (pos 1)
      (subscribe_command apple_trades (live none) (inr "alpaca"))).2

abbrev routed : ClientController bounded
routed = route bounded subscribed apple_trades (trade_at apple 10 1)

Steps-IsInSync_example : IsInSync bounded routed
Steps-IsInSync_example = Steps-IsInSync bounded idle routed idle-IsInSync (
    stepped
      (stepped started
        (command idle (pos 1) (subscribe_command apple_trades (live none) (inr "alpaca"))))
      (event subscribed apple_trades (trade_at apple 10 1)))

abbrev flapping : List (Key × MarketEvent)
flapping =
    (apple_trades, control connect)
    ∷ (((tesla, trade_kind), control connect))
    ∷ (apple_trades, control disconnect)
    ∷ []

route_all-wanted_example :
    view bounded (route_all bounded idle flapping)
    ≡ view bounded (
        deliver_entries bounded idle (
          wanted
            (λ key. provider_or (lookup key idle.entries) key)
            (λ p. lookup p idle.seen_provider_state)
            (λ p. lookup p idle.last_provider_error)
            flapping))
route_all-wanted_example = route_all-wanted bounded idle flapping
