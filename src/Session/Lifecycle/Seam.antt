-- ===== src/Session/Lifecycle/Seam.antt =====
-- The seam of a backfill: live arrivals are buffered while history is fetched, and then forwarded.
use datamancer.Base.{
  ℕ, ◌≤◌, ◌≡◌, refl, sym, ap, ◌∙◌, ◌⊎◌, inl, inr, Option, none, some, List, [], ◌∷◌, ◌++◌, length,
  arith, length-append,
}
use datamancer.Core.Event.{GapSpan, MarketEvent, control, gap}
use datamancer.Core.Extent.{hull, extents}
use datamancer.Channel.{Channel}
use datamancer.Session.Ring.{EventRing, new, push_all}
use datamancer.Session.Ring.Capacity.{push_all-capacity, new-capacity}
use datamancer.Session.Ring.Loss.{Buffers, push_all-new}
use datamancer.Session.Controller.{Controller, emit_gap}
use datamancer.Session.Lifecycle.{flush_backfill_pending, flush_gap, forward_all}

no_eviction :
    (capacity : ℕ) (evicted evs : List MarketEvent)
    → length evs ≤ capacity
    → Buffers (push_all (new capacity) evs) evicted evs
    → evicted ≡ []
no_eviction capacity [] evs h v = refl
no_eviction capacity (x ∷ evicted) evs h v =
    let r = push_all (new capacity) evs in
    elim v.full [
      | inl e ↦ e
      | inr full ↦ absurd (
          omega (
            arith,
            h,
            full,
            ap length v.split,
            length-append evicted r.buf,
            push_all-capacity (new capacity) evs,
            new-capacity capacity,
          ))
    ]

module _ (ch : Channel) where
  -- The gap control that stands for the buffer's loss.
  abbrev pub report : Controller ch → Option GapSpan → List MarketEvent
  report c none = []
  report c (some span) =
      control (record {
        source_ts = span.from_source_ts;
        rx_ts = span.from_source_ts;
        seq = 0;
        kind = gap c.provider_id c.instrument span;
      })
      ∷ []

  pub flush-forward_all :
      (c : Controller ch) (ring : EventRing)
      → flush_backfill_pending ch c ring ≡ forward_all ch c (report c ring.dropped ++ ring.buf)
  unfolding flush_backfill_pending flush_gap forward_all emit_gap
  flush-forward_all c ring = go ring.dropped
    where
      go :
          (d : Option GapSpan)
          → flush_backfill_pending ch c (record ring { dropped = d })
            ≡ forward_all ch c (report c d ++ ring.buf)
      go none = refl
      go (some span) = refl

  -- Live arrivals are buffered during a backfill in a ring of some capacity. At the seam the session
  -- forwards, as it forwards arrivals, a gap control over the least span that holds what was
  -- evicted, if anything was, and after it the arrivals that were kept, in order. Those are the last
  -- ones, and something was evicted only if at least the capacity was kept; so if no more arrived
  -- than the capacity, all are forwarded as if they had never been buffered.
  pub flush_backfill_pending_lem :
      (c : Controller ch) (capacity : ℕ) (arrivals : List MarketEvent)
      → let flushed = flush_backfill_pending ch c (push_all (new capacity) arrivals) in
        ((evicted : List MarketEvent) × (kept : List MarketEvent) × (arrivals ≡ evicted ++ kept)
          × ((evicted ≡ []) ⊎ (capacity ≤ length kept))
          × (flushed ≡ forward_all ch c (report c (hull (extents evicted)) ++ kept)))
        × (length arrivals ≤ capacity → flushed ≡ forward_all ch c arrivals)
  flush_backfill_pending_lem c capacity arrivals =
      let ring = push_all (new capacity) arrivals in
      let (evicted, v) = push_all-new capacity arrivals in
      let told =
        flush-forward_all c ring ∙ ap (λ d. forward_all ch c (report c d ++ ring.buf)) v.hulls in
      (
        (
          evicted,
          ring.buf,
          v.split,
          elim v.full [
            | inl e ↦ inl e
            | inr full ↦ inr (
                omega
                  (arith, full, push_all-capacity (new capacity) arrivals, new-capacity capacity))
          ],
          told,
        ),
        λ fits.
            let none_lost = no_eviction capacity evicted arrivals fits v in
            told
            ∙ ap (λ e. forward_all ch c (report c (hull (extents e)) ++ ring.buf)) none_lost
            ∙ ap (forward_all ch c) (sym (v.split ∙ ap (λ e. e ++ ring.buf) none_lost)),
      )
