-- ===== src/Session/Controller.antt =====
-- crates/datamancer/src/session.rs: `Controller`, the single writer of a session. A method takes
-- the controller and returns the new one; `none` is the panic of `stamp`. Channels are a parameter.
-- The tap log is the sequence of its `append` calls, the cache only its presence, and the clock an
-- argument.
pub mod Stamping
use datamancer.Base.{
  ℕ, ◌+◌, Bool, true, false, not, ◌&&◌, ◌||◌, Option, none, some, String, List, [], ◌∷◌, ◌++◌, ◌==◌,
  nat_eq, if◌then◌else◌, leb, ◌>>=◌,
}
use datamancer.Core.Instrument.{Instrument}
use datamancer.Core.Adjustment.{Adjustment}
use datamancer.Core.Event.{
  Timestamp, Seq, seq_max, GapSpan, MarketEvent, control, Control, ControlKind, gap, provider_error,
  session_closing, EventKind, is_data, stamp_seq,
}
use datamancer.Channel.{Channel}
use datamancer.Client.FanOut
use datamancer.Client.FanOut.{FanOut, SubscriberId}
use datamancer.Client.Stats.{
  LiveStats, ConnectionChange, record_event, record_seed, record_connection, set_subscribers,
}
use datamancer.Provider.Accounting.{
  ProviderAccounting, record_forwarded, record_provider_control, record_error,
}
use datamancer.Session.Options.{Scope, live, historical, PersistenceOptions, uses_cache}
use datamancer.Session.Ring
use datamancer.Session.Ring.{EventRing}

pub data Sink (ch : Channel) : Type 0 where
  attached : ch.Tx → Sink ch
  detached : EventRing → Sink ch

pub data Arrival : Type 0 where
  live_arrival seed : Arrival

pub record Controller (ch : Channel) : Type 0 where
  pub provider_id : String
  pub instrument : Instrument
  pub kind : EventKind
  pub scope : Scope
  pub persistence : PersistenceOptions
  pub tap_log : Option (List MarketEvent)
  pub has_cache : Bool
  pub sink : Sink ch
  pub ring_capacity : ℕ
  pub next_seq : Seq
  pub fanout : Option (FanOut ch)
  pub stats : LiveStats
  -- shared by the sessions of a provider; here what this one adds to it
  pub accounting : ProviderAccounting
  pub data_forwarded : Bool
  pub adjustment : Adjustment

-- `checked_add(1).filter(|&n| n != u64::MAX)`
abbrev advance : Seq → Option Seq
advance n = if leb seq_max (n + 1) then none else some (n + 1)

unfoldable pub stamp :
    (ch : Channel) → Controller ch → MarketEvent → Option (MarketEvent × Controller ch)
stamp ch c ev = do
  next ← advance c.next_seq
  some (stamp_seq ev c.next_seq, record c { next_seq = next })

-- Consumer gone: a new ring, or the one there is, takes the event.
push_ring : (ch : Channel) → ℕ → EventRing → MarketEvent → Sink ch
push_ring ch capacity ring ev = detached (Ring.push ring ev)

published : (ch : Channel) → ℕ → MarketEvent → Bool × ch.Tx → Sink ch
unfolding push_ring
published ch capacity ev (true, tx) = attached tx
published ch capacity ev (false, tx) = push_ring ch capacity (Ring.new capacity) ev

unfoldable pub sink_deliver : (ch : Channel) → ℕ → Sink ch → MarketEvent → Sink ch
unfolding published push_ring
sink_deliver ch capacity (attached tx) ev =
    if ch.is_closed tx
    then push_ring ch capacity (Ring.new capacity) ev
    else published ch capacity ev (ch.send tx ev)
sink_deliver ch capacity (detached ring) ev = push_ring ch capacity ring ev

abbrev record_arrival : Arrival → LiveStats → MarketEvent → LiveStats
record_arrival live_arrival s ev = record_event s ev
record_arrival seed s ev = record_seed s ev

unfoldable pub deliver_fanout :
    (ch : Channel) → Controller ch → Option (FanOut ch) → MarketEvent → Arrival → Controller ch
unfolding sink_deliver
deliver_fanout ch c (some f) ev arrival = record c {
  stats = record_arrival arrival c.stats ev;
  fanout = some (FanOut.fanout ch f ev);
}
deliver_fanout ch c none ev arrival = record c { sink = sink_deliver ch c.ring_capacity c.sink ev }

unfoldable pub deliver_with : (ch : Channel) → Controller ch → MarketEvent → Arrival → Controller ch
unfolding deliver_fanout
deliver_with ch c ev arrival = deliver_fanout ch c c.fanout ev arrival

unfoldable pub emit : (ch : Channel) → Controller ch → MarketEvent → Option (Controller ch)
unfolding stamp deliver_with
emit ch c ev = do (ev', c') ← stamp ch c ev; some (deliver_with ch c' ev' live_arrival)

abbrev pub is_live_scope : Scope → Bool
is_live_scope (live from) = true
is_live_scope (historical from to) = false

append_log : Bool → Option (List MarketEvent) → MarketEvent → Option (List MarketEvent)
append_log write none ev = none
append_log write (some log) ev = if write then some (log ++ (ev ∷ [])) else some log

unfoldable pub tee : (ch : Channel) → Controller ch → MarketEvent → Controller ch
unfolding append_log
tee ch c ev =
    if not (is_data ev)
    then c
    else if not (is_live_scope c.scope)
    then c
    else record c { tap_log = append_log c.persistence.write_tap_log c.tap_log ev }

abbrev pub has_fanout : {A : Type 0} → Option A → Bool
has_fanout none = false
has_fanout (some f) = true

abbrev is_live_arrival : Arrival → Bool
is_live_arrival live_arrival = true
is_live_arrival seed = false

-- What `forward_with` does with the stamped event: account, tee, deliver.
unfoldable pub after_stamp : (ch : Channel) → Controller ch → MarketEvent → Arrival → Controller ch
unfolding tee deliver_with
after_stamp ch c ev arrival =
    let c' = record c {
      data_forwarded = if is_data ev then true else c.data_forwarded;
      accounting =
          record_forwarded c.accounting ev (has_fanout c.fanout && is_live_arrival arrival);
    } in
    deliver_with ch (tee ch c' ev) ev arrival

unfoldable pub forward_with :
    (ch : Channel) → Controller ch → MarketEvent → Arrival → Option (Controller ch)
unfolding stamp
forward_with ch c ev arrival = do (ev', c') ← stamp ch c ev; some (after_stamp ch c' ev' arrival)

unfoldable pub forward : (ch : Channel) → Controller ch → MarketEvent → Option (Controller ch)
unfolding forward_with
forward ch c ev = forward_with ch c ev live_arrival

unfoldable pub emit_gap :
    (ch : Channel) → Controller ch → Timestamp → Timestamp → Timestamp → Option (Controller ch)
unfolding forward
emit_gap ch c source_ts from to = forward ch c (
    control (record {
      source_ts = source_ts;
      rx_ts = source_ts;
      seq = 0;
      kind = gap c.provider_id c.instrument (record { from_source_ts = from; to_source_ts = to });
    }))

unfoldable pub emit_provider_error :
    (ch : Channel) → Controller ch → Timestamp → String → Option (Controller ch)
unfolding forward
emit_provider_error ch c source_ts message =
    forward ch (record c { accounting = record_error c.accounting message })
      (control (record {
        source_ts = source_ts;
        rx_ts = source_ts;
        seq = 0;
        kind = provider_error c.provider_id message;
      }))
