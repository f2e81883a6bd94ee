-- ===== src/Examples/Sessions.antt =====
-- A live session that numbers, logs and fans out, and what it is told to do.
use datamancer.Base.{
  ◌+◌, ◌%◌, ◌<◌, ◌≤◌, ◌≡◌, ◌⊎◌, refl, true, false, none, some, List, [], ◌∷◌, ◌++◌, length, arith,
  pos,
}
use datamancer.Core.Adjustment.{raw}
use datamancer.Core.Event.{Seq, seq_max, MarketEvent, trade_kind}
use datamancer.Client.FanOut
use datamancer.Client.FanOut.{FanOut}
use datamancer.Client.FanOut.Order.{Rising}
use datamancer.Client.Stats
use datamancer.Client.Stats.Connection.{is_down}
use datamancer.Provider.Accounting.{fresh}
use datamancer.Core.Extent.{hull, extents}
use datamancer.Session.Options.{live, no_persistence, with_tap_log, cached}
use datamancer.Session.Controller.{Controller, attached}
use datamancer.Session.Controller.Stamping.{Captures}
use datamancer.Session.Lifecycle.{
  flush_backfill_pending, forward_all, handle_command, set_persistence, apply_persistence,
}
use datamancer.Session.Lifecycle.Arrivals.{
  number, data_of, fanout_all, forward_all-Captures, forward_all-none,
}
use datamancer.Session.Lifecycle.Commands.{
  IsBacked, handle_command-IsBacked, note_all, outages_ended, note_all-reconnects,
}
use datamancer.Session.Lifecycle.Seam.{report, flush_backfill_pending_lem}
use datamancer.Session.Ring.{new, push_all}
use datamancer.Examples.Fixtures.{bounded, queue, apple, trade_at, connect, disconnect}

abbrev pub no_referrers : FanOut bounded
no_referrers = FanOut.new bounded

abbrev pub session_at : Seq → Controller bounded
session_at n = record {
  provider_id = "alpaca";
  instrument = apple;
  kind = trade_kind;
  scope = live none;
  persistence = with_tap_log no_persistence true;
  tap_log = some [];
  has_cache = false;
  sink = attached (queue 4);
  ring_capacity = 8;
  next_seq = n;
  fanout = some no_referrers;
  stats = Stats.new;
  accounting = fresh;
  data_forwarded = false;
  adjustment = raw;
}

abbrev arrivals : List MarketEvent
arrivals = trade_at apple 10 0 ∷ trade_at apple 20 0 ∷ []

session_at-Captures : Captures bounded (session_at 5) no_referrers []
session_at-Captures = record {
  scope_live = (none, refl);
  writes = refl;
  logged = refl;
  fans = refl;
}

forward_all-Captures_example :
    (c' : Controller bounded) × (forward_all bounded (session_at 5) arrivals ≡ some c')
    × (c'.next_seq ≡ 5 + length arrivals)
    × Captures bounded c'
        (fanout_all bounded no_referrers (number 5 arrivals))
        ([] ++ data_of (number 5 arrivals))
    × Rising 5 (number 5 arrivals) (5 + length arrivals)
forward_all-Captures_example =
    forward_all-Captures bounded (session_at 5) arrivals no_referrers [] (omega arith)
      session_at-Captures

forward_all-none_example :
    ((seq_max ≤ 18446744073709551614 + length arrivals)
      × (forward_all bounded (session_at 18446744073709551614) arrivals ≡ none))
    ⊎ ((18446744073709551614 + length arrivals < seq_max)
        × ((c' : Controller bounded) × (forward_all bounded
                (session_at 18446744073709551614)
                arrivals
              ≡ some c')
            × (c'.next_seq ≡ 18446744073709551614 + length arrivals)))
forward_all-none_example =
    forward_all-none bounded (session_at 18446744073709551614) arrivals (omega arith)

session_at-IsBacked : IsBacked bounded (session_at 5)
session_at-IsBacked = record { cache_there = λ e. ground arith; log_there = λ e. refl }

handle_command-IsBacked_example : IsBacked bounded (session_at 5)
unfolding handle_command apply_persistence
handle_command-IsBacked_example =
    handle_command-IsBacked bounded (session_at 5) (session_at 5) (some (set_persistence cached))
      (pos 40) true session_at-IsBacked refl

note_all-reconnects_example :
    (note_all bounded (session_at 5) (disconnect ∷ connect ∷ [])).accounting.reconnects
    ≡ (0 + outages_ended (is_down (session_at 5).stats.connection) (disconnect ∷ connect ∷ []))
      % 18446744073709551616
note_all-reconnects_example =
    note_all-reconnects bounded (session_at 5) (disconnect ∷ connect ∷ []) 0 refl

flush_backfill_pending_lem_example :
    let flushed = flush_backfill_pending bounded (session_at 5) (push_all (new 2) arrivals) in
    ((evicted : List MarketEvent) × (kept : List MarketEvent) × (arrivals ≡ evicted ++ kept)
      × ((evicted ≡ []) ⊎ (2 ≤ length kept))
      × (flushed
          ≡ forward_all bounded
              (session_at 5)
              (report bounded (session_at 5) (hull (extents evicted)) ++ kept)))
    × (length arrivals ≤ 2 → flushed ≡ forward_all bounded (session_at 5) arrivals)
flush_backfill_pending_lem_example = flush_backfill_pending_lem bounded (session_at 5) 2 arrivals
