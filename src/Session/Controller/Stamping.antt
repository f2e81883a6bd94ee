-- ===== src/Session/Controller/Stamping.antt =====
-- The single counter of a session: what it numbers, and what reaches the referrers and the tap log.
use datamancer.Base.{
  ◌+◌, ◌≤◌, ◌<◌, ◌≡◌, refl, ◌↔◌, true, ◌&&◌, Option, none, some, List, [], ◌∷◌, ◌++◌, arith,
  if◌then◌else◌, append_nil, ◌∙◌, ap,
}
use datamancer.Core.Event.{Timestamp, seq_max, MarketEvent, is_data, stamp_seq}
use datamancer.Channel.{Channel}
use datamancer.Client.FanOut.{FanOut, fanout}
use datamancer.Provider.Accounting.{record_forwarded}
use datamancer.Session.Options.{live, PersistenceOptions}
use datamancer.Session.Controller.{
  Controller, stamp, deliver_with, after_stamp, has_fanout, is_live_arrival, tee, forward_with,
  Arrival,
}

module _ (ch : Channel) (c : Controller ch) (ev : MarketEvent) where
  -- The panic of `stamp`, exactly when the counter has reached the last number but one.
  stamp-none : (stamp ch c ev ≡ none) ↔ (seq_max ≤ c.next_seq + 1)
  unfolding stamp
  stamp-none = (λ h. ground arith, λ h. ground arith)

  pub stamp-some :
      c.next_seq + 1 < seq_max
      → stamp ch c ev ≡ some (stamp_seq ev c.next_seq, record c { next_seq = c.next_seq + 1 })
  unfolding stamp
  stamp-some h = ground arith

  pub forward-some :
      (arrival : Arrival)
      → c.next_seq + 1 < seq_max
      → forward_with ch c ev arrival
        ≡ some (
            after_stamp ch
              (record c { next_seq = c.next_seq + 1 })
              (stamp_seq ev c.next_seq)
              arrival)
  unfolding forward_with
  forward-some arrival h = ground arith

  pub forward-none :
      (arrival : Arrival) → seq_max ≤ c.next_seq + 1 → forward_with ch c ev arrival ≡ none
  unfolding forward_with
  forward-none arrival h = ground arith

  tee-fields :
      ((tee ch c ev).fanout ≡ c.fanout)
      × ((tee ch c ev).next_seq ≡ c.next_seq)
      × ((tee ch c ev).scope ≡ c.scope)
      × ((tee ch c ev).persistence ≡ c.persistence)
  unfolding tee
  tee-fields = (ground arith, ground arith, ground arith, ground arith)

  -- What the tap log of a live session that captures takes of an event.
  tee-log :
      (b : Option Timestamp) (log : List MarketEvent)
      → c.scope ≡ live b
      → c.persistence.write_tap_log ≡ true
      → c.tap_log ≡ some log
      → (tee ch c ev).tap_log ≡ some (log ++ (if is_data ev then ev ∷ [] else []))
  unfolding tee
  tee-log b log e w l = ground (arith, append_nil log)

  deliver-fields :
      (f : FanOut ch) (arrival : Arrival)
      → c.fanout ≡ some f
      → ((deliver_with ch c ev arrival).fanout ≡ some (fanout ch f ev))
        × ((deliver_with ch c ev arrival).next_seq ≡ c.next_seq)
        × ((deliver_with ch c ev arrival).scope ≡ c.scope)
        × ((deliver_with ch c ev arrival).persistence ≡ c.persistence)
        × ((deliver_with ch c ev arrival).tap_log ≡ c.tap_log)
  unfolding deliver_with
  deliver-fields f arrival e = rw e (refl, refl, refl, refl, refl)

-- A capturing live session: its referrers, its log, and that it captures.
pub record Captures (ch : Channel) (c : Controller ch) (f : FanOut ch) (log : List MarketEvent)
    : Type 0 where
  pub scope_live : (b : Option Timestamp) × (c.scope ≡ live b)
  pub writes : c.persistence.write_tap_log ≡ true
  pub logged : c.tap_log ≡ some log
  pub fans : c.fanout ≡ some f

pub after_stamp-Captures :
    (ch : Channel) (c : Controller ch) (ev : MarketEvent) (arrival : Arrival) (f : FanOut ch)
    (log : List MarketEvent)
    → Captures ch c f log
    → Captures ch
        (after_stamp ch c ev arrival)
        (fanout ch f ev)
        (log ++ (if is_data ev then ev ∷ [] else []))
      × ((after_stamp ch c ev arrival).next_seq ≡ c.next_seq)
unfolding after_stamp
after_stamp-Captures ch c ev arrival f log v =
    let c' = record c {
      data_forwarded = if is_data ev then true else c.data_forwarded;
      accounting =
          record_forwarded c.accounting ev (has_fanout c.fanout && is_live_arrival arrival);
    } in
    let (t0, t1, t2, t3) = tee-fields ch c' ev in
    let t4 = tee-log ch c' ev v.scope_live.0 log v.scope_live.1 v.writes v.logged in
    let (d0, d1, d2, d3, d4) = deliver-fields ch (tee ch c' ev) ev f arrival (t0 ∙ v.fans) in
    (
      record {
        scope_live = (v.scope_live.0, d2 ∙ t2 ∙ v.scope_live.1);
        writes = ap (λ (o : PersistenceOptions). o.write_tap_log) (d3 ∙ t3) ∙ v.writes;
        logged = d4 ∙ t4;
        fans = d0;
      },
      d1 ∙ t1,
    )

pub after_stamp-next_seq :
    (ch : Channel) (c : Controller ch) (ev : MarketEvent) (arrival : Arrival)
    → (after_stamp ch c ev arrival).next_seq ≡ c.next_seq
unfolding after_stamp tee deliver_with
after_stamp-next_seq ch c ev arrival = ground arith
