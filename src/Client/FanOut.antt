-- ===== src/Client/FanOut.antt =====
-- crates/datamancer/src/client.rs: `FanOut`, the delivery of an authoritative session to its
-- referrers, and the loss a slow referrer is owed. Each referrer's channel is a parameter.
pub mod Referrers
pub mod Loss
pub mod Order
pub mod History
pub mod Lifetime
use datamancer.Base.{
  ℕ, Bool, true, false, not, ◌&&◌, Option, none, some, String, List, [], ◌∷◌, ◌++◌, ◌==◌, nat_eq,
  insert, remove, length, if◌then◌else◌,
}
use datamancer.Base.Int.{min_ℤ, max_ℤ}
use datamancer.Core.Instrument.{Instrument}
use datamancer.Core.Event.{
  Timestamp, Seq, GapSpan, MarketEvent, trade, quote, bar, control, Control, ControlKind, gap,
  subscription_changed, event_seq, data_source_ts, data_instrument, next_ts, synthetic,
}
use datamancer.Channel.{Channel, TrySend, accepted, full, closed}

pub record PendingGap : Type 0 where
  pub instrument : Instrument
  pub provider : String
  pub first_seq : Seq
  pub span : GapSpan

unfoldable pub absorb : PendingGap → Timestamp → Timestamp → PendingGap
absorb p from to = record p {
  span = record {
    from_source_ts = min_ℤ p.span.from_source_ts from;
    to_source_ts = max_ℤ p.span.to_source_ts to;
  };
}

unfoldable pub to_event : PendingGap → MarketEvent
to_event p = control (record {
  source_ts = p.span.from_source_ts;
  rx_ts = p.span.from_source_ts;
  seq = p.first_seq;
  kind = gap p.provider p.instrument p.span;
})

-- The tuple that `gap_coords` returns.
pub record Coords : Type 0 where
  pub instrument : Instrument
  pub from : Timestamp
  pub to : Timestamp
  pub provider : String
  pub seq : Seq

abbrev unwrap_or : Option Seq → Seq → Seq
unwrap_or (some s) d = s
unwrap_or none d = d

pub control_coords : ControlKind → Seq → Option Coords
control_coords (gap provider instrument span) seq = some (record {
  instrument = instrument;
  from = span.from_source_ts;
  to = span.to_source_ts;
  provider = provider;
  seq = seq;
})
control_coords _ seq = none

unfoldable pub data_coords : Option Instrument → Option Timestamp → Seq → Option Coords
data_coords (some instrument) (some ts) seq = some (record {
  instrument = instrument;
  from = ts;
  to = next_ts ts;
  provider = instrument.provider;
  seq = seq;
})
data_coords none ts seq = none
data_coords (some instrument) none seq = none

unfoldable pub gap_coords : MarketEvent → Option Coords
unfolding control_coords data_coords
gap_coords (control c) = control_coords c.kind c.seq
gap_coords ev =
    data_coords (data_instrument ev) (data_source_ts ev) (unwrap_or (event_seq ev) synthetic)

-- `match pending` of `absorb_drop`, on the coordinates of the dropped event
abbrev absorb_coords : Option PendingGap → Option Coords → Option PendingGap
absorb_coords pending none = pending
absorb_coords (some p) (some c) = some (absorb p c.from c.to)
absorb_coords none (some c) = some (record {
  instrument = c.instrument;
  provider = c.provider;
  first_seq = c.seq;
  span = record { from_source_ts = c.from; to_source_ts = c.to };
})

unfoldable pub absorb_drop : Option PendingGap → MarketEvent → Option PendingGap
unfolding absorb gap_coords
absorb_drop pending ev = absorb_coords pending (gap_coords ev)

abbrev pub SubscriberId : Type 0
SubscriberId = ℕ

-- `Control(Control { kind: SubscriptionChanged { active: true, .. }, .. })`
abbrev kind_is_active : ControlKind → Bool
kind_is_active (subscription_changed provider instrument kind active) = active
kind_is_active _ = false

abbrev is_subscription_active : MarketEvent → Bool
is_subscription_active (control c) = kind_is_active c.kind
is_subscription_active _ = false

module _ (ch : Channel) where
  pub record Referrer : Type 0 where
    pub tx : ch.Tx
    pub pending : Option PendingGap

  pub record FanOut : Type 0 where
    pub subscribers : List (SubscriberId × Referrer)
    pub last_subscription_changed : Option MarketEvent
    pub had_subscriber : Bool

-- The outcome of the second `try_send` of `fanout`; the flag tells that the referrer is dead.
unfoldable pub settle :
    (ch : Channel) → Referrer ch → MarketEvent → TrySend × ch.Tx → Referrer ch × Bool
unfolding absorb_drop
settle ch r ev (accepted, tx) = (record r { tx = tx }, false)
settle ch r ev (full, tx) = (record { tx = tx; pending = absorb_drop r.pending ev }, false)
settle ch r ev (closed, tx) = (record r { tx = tx }, true)

unfoldable pub offer : (ch : Channel) → Referrer ch → MarketEvent → Referrer ch × Bool
unfolding settle
offer ch r ev = settle ch r ev (ch.try_send r.tx ev)

-- The outcome of the first `try_send`, of the gap that is owed.
unfoldable pub settle_gap :
    (ch : Channel) → Referrer ch → MarketEvent → TrySend × ch.Tx → Referrer ch × Bool
unfolding absorb_drop offer
settle_gap ch r ev (accepted, tx) = offer ch (record { tx = tx; pending = none }) ev
settle_gap ch r ev (full, tx) = (record { tx = tx; pending = absorb_drop r.pending ev }, false)
settle_gap ch r ev (closed, tx) = (record r { tx = tx }, true)

unfoldable pub serve_pending :
    (ch : Channel) → Referrer ch → MarketEvent → Option PendingGap → Referrer ch × Bool
unfolding settle_gap offer to_event
serve_pending ch r ev none = offer ch r ev
serve_pending ch r ev (some p) = settle_gap ch r ev (ch.try_send r.tx (to_event p))

-- The body of the loop of `fanout`, for one referrer.
unfoldable pub serve : (ch : Channel) → Referrer ch → MarketEvent → Referrer ch × Bool
unfolding serve_pending
serve ch r ev = serve_pending ch r ev r.pending

-- The loop: every referrer is served, and the dead ones are listed.
visit :
    (ch : Channel)
    → List (SubscriberId × Referrer ch)
    → MarketEvent
    → List (SubscriberId × Referrer ch) × List SubscriberId
unfolding serve
visit ch [] ev = ([], [])
visit ch ((id, r) ∷ subs) ev =
    let (r', dead) = serve ch r ev in
    let (subs', ids) = visit ch subs ev in ((id, r') ∷ subs', if dead then id ∷ ids else ids)

remove_all :
    (ch : Channel)
    → List SubscriberId
    → List (SubscriberId × Referrer ch)
    → List (SubscriberId × Referrer ch)
remove_all ch [] subs = subs
remove_all ch (id ∷ ids) subs = remove_all ch ids (remove id subs)

unfoldable pub fanout : (ch : Channel) → FanOut ch → MarketEvent → FanOut ch
unfolding visit remove_all
fanout ch f ev =
    let (subs, dead) = visit ch f.subscribers ev in
    record f {
      last_subscription_changed =
          if is_subscription_active ev then some ev else f.last_subscription_changed;
      subscribers = remove_all ch dead subs;
    }

-- `FanOut::new`
unfoldable pub new : (ch : Channel) → FanOut ch
new ch = record { subscribers = []; last_subscription_changed = none; had_subscriber = false }

replay : (ch : Channel) → Option MarketEvent → ch.Tx → ch.Tx
replay ch none tx = tx
replay ch (some ev) tx = (ch.try_send tx ev).1

pub add : (ch : Channel) → FanOut ch → SubscriberId → ch.Tx → FanOut ch
unfolding replay
add ch f id sender = record f {
  had_subscriber = true;
  subscribers =
      insert id (record { tx = replay ch f.last_subscription_changed sender; pending = none })
        f.subscribers;
}

-- `FanOut::remove`
pub drop_subscriber : (ch : Channel) → FanOut ch → SubscriberId → FanOut ch
drop_subscriber ch f id = record f { subscribers = remove id f.subscribers }

abbrev pub is_empty {ℓ} : {A : Type ℓ} → List A → Bool
is_empty [] = true
is_empty (x ∷ xs) = false

unfoldable pub should_teardown : (ch : Channel) → FanOut ch → Bool
should_teardown ch f = f.had_subscriber && is_empty f.subscribers

abbrev pub subscriber_count : (ch : Channel) → FanOut ch → ℕ
subscriber_count ch f = length f.subscribers
