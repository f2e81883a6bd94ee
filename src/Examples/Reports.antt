-- ===== src/Examples/Reports.antt =====
-- Statistics, accounting and health of a session that loses its connection.
use datamancer.Base.{
  ◌%◌, ◌≡◌, ◌↔◌, refl, true, false, not, ◌&&◌, ◌||◌, Option, none, some, List, [], ◌∷◌, map, length,
  pos, arith,
}
use datamancer.Core.Event.{
  MarketEvent, control, error, trade_kind, gap, data_source_ts, event_seq, unauthenticated,
}
use datamancer.Client.Stats.{
  LiveStats, StreamConnection, pending, up, down, seq_position, last_source_ts_of, recent_gaps_cap,
  record_connection, connected, disconnected,
}
use datamancer.Client.Stats
use datamancer.Client.Stats.Gaps.{record_all, gaps_of, last_of, latest, counter_mod, record_all-new}
use datamancer.Client.Stats.Connection.{
  is_up, is_down, receive, last_cause, receive-outage, receive-recovery,
}
use datamancer.Provider.Accounting.{
  fresh, connection_state, is_connected, is_unauthenticated, is_disconnected,
}
use datamancer.Provider.Accounting.Connections.{any_of, is_rejected, is_some, connection_state_lem}
use datamancer.Health.Snapshot.{
  AuthHandle, ProviderFacts, own_handles, phase_of, enabled_of, provider_snapshot, stream_snapshot,
  StreamSnapshot,
}
use datamancer.Health.View.{provider_state, liveness, stale}
use datamancer.Health.Agreement.{ShownFrom, provider_state-agrees}
use datamancer.Health.Liveness.{Judged, liveness-Judged, liveness-outage}
use datamancer.Examples.Fixtures.{apple, trade_at, control_at, connect, disconnect}

abbrev gap_report : MarketEvent
gap_report =
    control (
      control_at (gap "alpaca" apple (record { from_source_ts = pos 10; to_source_ts = pos 20 }))
        20)

abbrev seen : List MarketEvent
seen = trade_at apple 10 1 ∷ gap_report ∷ trade_at apple 30 3 ∷ []

record_all-new_example :
    ((record_all Stats.new seen).recent_gaps ≡ last_of recent_gaps_cap (gaps_of seen))
    × ((record_all Stats.new seen).gap_count ≡ length (gaps_of seen) % counter_mod)
    × (seq_position (record_all Stats.new seen) ≡ latest event_seq none seen)
    × (last_source_ts_of (record_all Stats.new seen) ≡ latest data_source_ts none seen)
record_all-new_example = record_all-new seen

receive-outage_example :
    ((record_connection Stats.new disconnect).1 ≡ disconnected)
    × ((receive Stats.new (disconnect ∷ disconnect ∷ [])).connection
        ≡ down (pos 21) (last_cause error (disconnect ∷ [])))
unfolding Stats.new
receive-outage_example =
    receive-outage Stats.new disconnect "alpaca" "reset" error (disconnect ∷ []) refl refl
      (refl, tt)

receive-recovery_example :
    ((record_connection Stats.new connect).1 ≡ connected (is_down Stats.new.connection))
    × ((receive Stats.new (connect ∷ connect ∷ [])).connection ≡ up (pos 31))
unfolding Stats.new
receive-recovery_example =
    receive-recovery Stats.new connect "alpaca" (connect ∷ []) refl refl (refl, tt)

abbrev phases : List StreamConnection
phases = pending ∷ down (pos 20) unauthenticated ∷ []

connection_state_lem_example :
    let rejected = any_of is_rejected phases || (not (is_some phases) && fresh.auth_failed) in
    let lost = any_of is_down phases || (not (is_some phases) && fresh.ever_connected) in
    ((connection_state fresh phases ≡ is_connected) ↔ (any_of is_up phases ≡ true))
    × ((connection_state fresh phases ≡ is_unauthenticated)
        ↔ ((any_of is_up phases ≡ false) × (rejected ≡ true)))
    × ((connection_state fresh phases ≡ is_disconnected)
        ↔ ((any_of is_up phases ≡ false) × (rejected ≡ false) × (lost ≡ true)))
connection_state_lem_example = connection_state_lem fresh phases

abbrev handle : AuthHandle
handle = record {
  provider_id = "alpaca";
  instrument = apple;
  kind = trade_kind;
  phase = pending;
  stats = Stats.new;
}

abbrev alpaca : Option ProviderFacts
alpaca = some (record { id = "alpaca"; enabled = true; metrics = none })

provider_state-agrees_example :
    let handles = handle ∷ [] in
    ShownFrom
      (map phase_of (own_handles "alpaca" handles))
      fresh
      (enabled_of alpaca)
      (provider_state (provider_snapshot handles alpaca "alpaca" fresh))
provider_state-agrees_example = provider_state-agrees (handle ∷ []) alpaca "alpaca" fresh

abbrev sampled : StreamSnapshot
sampled = record {
  instrument = apple;
  kind = trade_kind;
  subscriber_refcount = 1;
  seq_position = some 3;
  last_source_ts = some (pos 10);
  last_rx_ts = some (pos 11);
  latency_ns = some (pos 1);
  gap_count = 1;
  recent_gaps = record { from_source_ts = pos 10; to_source_ts = pos 20 } ∷ [];
  last_gap_rx_ts = some (pos 21);
  backfilling = false;
  connection = up (pos 1);
}

liveness-Judged_example : Judged sampled (pos 40) (pos 25) (liveness sampled (pos 40) (pos 25))
liveness-Judged_example =
    liveness-Judged sampled (pos 40) (pos 25) (omega arith, omega arith) (omega arith, omega arith)
      (omega arith, omega arith)

liveness-outage_example :
    liveness
      (stream_snapshot (record handle { stats = receive handle.stats (disconnect ∷ []) }))
      (pos 900)
      (pos 5)
    ≡ stale (pos 21)
unfolding Stats.new
liveness-outage_example =
    liveness-outage handle disconnect "alpaca" "reset" error [] (pos 900) (pos 5) refl refl refl tt
      (ground arith)
