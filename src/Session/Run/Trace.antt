-- ===== src/Session/Run/Trace.antt =====
-- What a stretch of a session's life does to its numbering, referrers, sink and tap log.
use datamancer.Base.{
  ℕ, suc, ◌+◌, ◌≡◌, ◌&&◌, refl, ap, ◌∙◌, subst, Bool, true, Option, none, some, String, List, [],
  ◌∷◌, ◌++◌, length, arith, if◌then◌else◌, Bool-cases, inl, inr, leb, some-eq, length-append,
}
use native.Mathlib.Nat.{add-zero}
use datamancer.Core.Instrument.{Instrument}
use datamancer.Core.Adjustment.{Adjustment}
use datamancer.Session.Options.{Scope}
use datamancer.Provider.Accounting.{ProviderAccounting, record_forwarded, forwarded_control}
use datamancer.Core.Event.{
  EventKind, Seq, seq_max, MarketEvent, control, Control, ControlKind, stamp_seq,
}
use datamancer.Channel.{Channel}
use datamancer.Client.FanOut.{FanOut}
use datamancer.Client.FanOut.Lifetime.{Act, adds, drops, delivers, act, act_all}
use datamancer.Session.Controller.{
  Controller, Sink, sink_deliver, deliver_with, deliver_fanout, has_fanout, Arrival, live_arrival,
  emit, forward, forward_with, after_stamp, tee, stamp,
}
use datamancer.Session.Lifecycle.Arrivals.{number}

pub number-append :
    (n : Seq) (a b : List MarketEvent) → number n (a ++ b) ≡ number n a ++ number (n + length a) b
number-append n [] b = rw add-zero refl
number-append n (ev ∷ a) b =
    let step : n + 1 + length a ≡ n + suc (length a) = omega arith in
    ap (◌∷◌ (stamp_seq ev n))
      (number-append (n + 1) a b ∙ ap (λ m. number (n + 1) a ++ number m b) step)

pub record Identity : Type 0 where
  pub provider_id : String
  pub instrument : Instrument
  pub kind : EventKind
  pub adjustment : Adjustment
  pub has_cache : Bool
  pub ring_capacity : ℕ
  pub scope : Scope

module _ (ch : Channel) where
  -- The events that a run of acts delivers.
  abbrev pub delivered : List (Act ch) → List MarketEvent
  delivered [] = []
  delivered (delivers ev ∷ acts) = ev ∷ delivered acts
  delivered (_ ∷ acts) = delivered acts

  -- What acts do to the referrers, where there are any.
  abbrev pub act_on : Option (FanOut ch) → List (Act ch) → Option (FanOut ch)
  act_on none acts = none
  act_on (some f) acts = some (act_all ch f acts)

  -- What a run of events does to the sink, which takes them where there are no referrers.
  unfoldable pub sink_all : Bool → ℕ → Sink ch → List MarketEvent → Sink ch
  sink_all live capacity sink [] = sink
  sink_all live capacity sink (ev ∷ evs) =
      sink_all live capacity (if live then sink else sink_deliver ch capacity sink ev) evs

  -- What never changes.
  abbrev pub identity : Controller ch → Identity
  identity c = record {
    provider_id = c.provider_id;
    instrument = c.instrument;
    kind = c.kind;
    adjustment = c.adjustment;
    has_cache = c.has_cache;
    ring_capacity = c.ring_capacity;
    scope = c.scope;
  }

  delivered-append : (a b : List (Act ch)) → delivered (a ++ b) ≡ delivered a ++ delivered b
  delivered-append [] b = refl
  delivered-append (adds id tx ∷ a) b = delivered-append a b
  delivered-append (drops id ∷ a) b = delivered-append a b
  delivered-append (delivers ev ∷ a) b = ap (◌∷◌ ev) (delivered-append a b)

  act_all-append :
      (f : FanOut ch) (a b : List (Act ch)) → act_all ch f (a ++ b) ≡ act_all ch (act_all ch f a) b
  unfolding act_all
  act_all-append f [] b = refl
  act_all-append f (x ∷ a) b = act_all-append (act ch f x) a b

  act_on-append :
      (o : Option (FanOut ch)) (a b : List (Act ch)) → act_on o (a ++ b) ≡ act_on (act_on o a) b
  act_on-append none a b = refl
  act_on-append (some f) a b = ap some (act_all-append f a b)

  act_on-has : (o : Option (FanOut ch)) (a : List (Act ch)) → has_fanout (act_on o a) ≡ has_fanout o
  act_on-has none a = refl
  act_on-has (some f) a = refl

  sink_all-append :
      (live : Bool) (n : ℕ) (a b : List MarketEvent) (sink : Sink ch)
      → sink_all live n sink (a ++ b) ≡ sink_all live n (sink_all live n sink a) b
  unfolding sink_all
  sink_all-append live n [] b sink = refl
  sink_all-append live n (x ∷ a) b sink = sink_all-append live n a b _

-- From one controller to a later one the events `evs` are delivered, numbered one after the other,
-- among joins and leaves of referrers; nothing is added to the tap log, and the upstream is held.
pub record Evolves (ch : Channel) (c c' : Controller ch) (evs : List MarketEvent) : Type 0 where
  pub acts : List (Act ch)
  pub numbered : delivered ch acts ≡ number c.next_seq evs
  pub fans : c'.fanout ≡ act_on ch c.fanout acts
  pub sinks :
      c'.sink ≡ sink_all ch (has_fanout c.fanout) c.ring_capacity c.sink (number c.next_seq evs)
  pub counts : c'.next_seq ≡ c.next_seq + length evs
  pub logs : c'.tap_log ≡ c.tap_log
  pub keeps : identity ch c' ≡ identity ch c
  pub holds : c'.accounting.unsubscribes ≡ c.accounting.unsubscribes

module _ (ch : Channel) where
  pub Evolves-trans :
      (c c' c'' : Controller ch) (a b : List MarketEvent)
      → Evolves ch c c' a
      → Evolves ch c' c'' b
      → Evolves ch c c'' (a ++ b)
  unfolding act_all
  Evolves-trans c c' c'' a b v w =
      let capacity : c'.ring_capacity ≡ c.ring_capacity =
        ap (λ (i : Identity). i.ring_capacity) v.keeps in
      let live : has_fanout c'.fanout ≡ has_fanout c.fanout =
        ap has_fanout v.fans ∙ act_on-has ch c.fanout v.acts in
      let later : number c'.next_seq b ≡ number (c.next_seq + length a) b =
        ap (λ m. number m b) v.counts in
      record {
        acts = v.acts ++ w.acts;
        numbered = rw (
          delivered-append ch v.acts w.acts,
          v.numbered,
          w.numbered,
          later,
          number-append c.next_seq a b,
        );
        fans = rw (w.fans, v.fans, act_on-append ch c.fanout v.acts w.acts);
        sinks = rw (
          w.sinks,
          live,
          capacity,
          later,
          v.sinks,
          number-append c.next_seq a b,
          sink_all-append ch (has_fanout c.fanout) c.ring_capacity (number c.next_seq a)
              (number (c.next_seq + length a) b) c.sink,
        );
        counts = omega (arith, v.counts, w.counts, length-append a b);
        logs = w.logs ∙ v.logs;
        keeps = w.keeps ∙ v.keeps;
        holds = w.holds ∙ v.holds;
      }

  -- A change that no one is told of.
  pub quiet :
      (c c' : Controller ch)
      → c'.fanout ≡ c.fanout
      → c'.sink ≡ c.sink
      → c'.next_seq ≡ c.next_seq
      → c'.tap_log ≡ c.tap_log
      → identity ch c' ≡ identity ch c
      → c'.accounting.unsubscribes ≡ c.accounting.unsubscribes
      → Evolves ch c c' []
  unfolding act_all sink_all
  quiet c c' f s n l i h = record {
    acts = [];
    numbered = refl;
    fans = go c.fanout f;
    sinks = s;
    counts = omega (arith, n);
    logs = l;
    keeps = i;
    holds = h;
  }
    where
      go : (o : Option (FanOut ch)) → c'.fanout ≡ o → c'.fanout ≡ act_on ch o []
      go none e = e
      go (some x) e = e

  pub Evolves_self : (c : Controller ch) → Evolves ch c c []
  Evolves_self c = quiet c c refl refl refl refl refl refl

  -- Numbering an event and handing it on.
  pub deliver-Evolves :
      (c : Controller ch) (ev : MarketEvent) (arrival : Arrival)
      → Evolves ch c
          (deliver_with ch
            (record c { next_seq = c.next_seq + 1 })
            (stamp_seq ev c.next_seq)
            arrival)
          (ev ∷ [])
  unfolding deliver_with deliver_fanout sink_all act_all act
  deliver-Evolves c ev arrival = go c.fanout refl
    where
      go :
          (o : Option (FanOut ch))
          → c.fanout ≡ o
          → Evolves ch c
              (deliver_fanout ch
                (record c { next_seq = c.next_seq + 1 })
                o
                (stamp_seq ev c.next_seq)
                arrival)
              (ev ∷ [])
      go none e = record {
        acts = delivers (stamp_seq ev c.next_seq) ∷ [];
        numbered = refl;
        fans = rw e refl;
        sinks = rw e refl;
        counts = refl;
        logs = refl;
        keeps = refl;
        holds = refl;
      }
      go (some f) e = record {
        acts = delivers (stamp_seq ev c.next_seq) ∷ [];
        numbered = refl;
        fans = rw e refl;
        sinks = rw e refl;
        counts = refl;
        logs = refl;
        keeps = refl;
        holds = refl;
      }

module _ (ch : Channel) where
  pub emit-Evolves :
      (c c' : Controller ch) (ev : MarketEvent) → emit ch c ev ≡ some c' → Evolves ch c c' (ev ∷ [])
  unfolding emit stamp
  emit-Evolves c c' ev e = elim (Bool-cases (leb seq_max (c.next_seq + 1))) [
    | inl full ↦ let stuck : none ≡ some c' = rw full at e in cc
    | inr room ↦
        let stamped = stamp_seq ev c.next_seq in
        let c1 = record c { next_seq = c.next_seq + 1 } in
        let done : some (deliver_with ch c1 stamped live_arrival) ≡ some c' = rw room at e in
        subst (λ d. Evolves ch c d (ev ∷ [])) (some-eq done) (deliver-Evolves ch c ev live_arrival)
  ]

  forwarded-unsubscribes :
      (a : ProviderAccounting) (k : ControlKind)
      → (forwarded_control a k).unsubscribes ≡ a.unsubscribes
  forwarded-unsubscribes a k = ground arith

  -- A control is forwarded past the tap log.
  pub forward-Evolves :
      (c c' : Controller ch) (k : Control)
      → forward ch c (control k) ≡ some c'
      → Evolves ch c c' (control k ∷ [])
  unfolding forward forward_with stamp after_stamp tee
  forward-Evolves c c' k e = elim (Bool-cases (leb seq_max (c.next_seq + 1))) [
    | inl full ↦ let stuck : none ≡ some c' = rw full at e in cc
    | inr room ↦
        let stamped = stamp_seq (control k) c.next_seq in
        let c0 = record c {
          data_forwarded = c.data_forwarded;
          accounting = record_forwarded c.accounting stamped (has_fanout c.fanout && true);
        } in
        let c1 = record c0 { next_seq = c.next_seq + 1 } in
        let done : some (deliver_with ch c1 stamped live_arrival) ≡ some c' = rw room at e in
        subst (λ d. Evolves ch c d (control k ∷ [])) (some-eq done)
          (Evolves-trans ch c c0 (deliver_with ch c1 stamped live_arrival) [] (control k ∷ [])
            (quiet ch c c0 refl refl refl refl refl (forwarded-unsubscribes c.accounting k.kind))
            (deliver-Evolves ch c0 (control k) live_arrival))
  ]
