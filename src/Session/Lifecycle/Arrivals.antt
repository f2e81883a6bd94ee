-- ===== src/Session/Lifecycle/Arrivals.antt =====
-- A run of arrivals: what a live session numbers, logs and fans out, and what it counts.
use datamancer.Base.{
  suc, ◌+◌, ◌≤◌, ◌<◌, ◌≡◌, refl, ◌∙◌, none, some, List, [], ◌∷◌, ◌++◌, length, arith, if◌then◌else◌,
  append_nil, subst, ◌⊎◌, inl, inr,
}
use native.Mathlib.Numerals.{add-one}
use native.Mathlib.Decide.{dec_lt}
use mathlib.Core.List.{append_assoc}
use datamancer.Core.Event.{
  Seq, seq_max, MarketEvent, is_data, stamp_seq, trade, quote, bar, control,
}
use datamancer.Channel.{Channel}
use datamancer.Client.FanOut.{FanOut, fanout}
use datamancer.Client.FanOut.Order.{Rising, seq_of}
use datamancer.Session.Controller.{Controller, after_stamp, forward, live_arrival}
use datamancer.Session.Controller.Stamping.{
  Captures, after_stamp-Captures, forward-some, forward-none, after_stamp-next_seq,
}
use datamancer.Session.Lifecycle.{forward_all}

-- The events numbered one after the other from `n`.
abbrev pub number : Seq → List MarketEvent → List MarketEvent
number n [] = []
number n (ev ∷ evs) = stamp_seq ev n ∷ number (n + 1) evs

-- The data events of a list.
abbrev pub data_of : List MarketEvent → List MarketEvent
data_of [] = []
data_of (ev ∷ evs) = (if is_data ev then ev ∷ [] else []) ++ data_of evs

pub fanout_all : (ch : Channel) → FanOut ch → List MarketEvent → FanOut ch
fanout_all ch f [] = f
fanout_all ch f (ev ∷ evs) = fanout_all ch (fanout ch f ev) evs

seq_of-stamp_seq : (ev : MarketEvent) (n : Seq) → seq_of (stamp_seq ev n) ≡ n
seq_of-stamp_seq (trade t) n = refl
seq_of-stamp_seq (quote q) n = refl
seq_of-stamp_seq (bar b) n = refl
seq_of-stamp_seq (control c) n = refl

number-Rising : (n : Seq) (evs : List MarketEvent) → Rising n (number n evs) (n + length evs)
number-Rising n [] = omega arith
number-Rising n (ev ∷ evs) =
    let rest = number (n + 1) evs in
    let end : n + 1 + length evs ≡ n + suc (length evs) = omega arith in
    rw (seq_of-stamp_seq ev n) (
      omega arith,
      subst (λ lo. Rising lo rest (n + suc (length evs))) (add-one n)
          (subst (Rising (n + 1) rest) end (number-Rising (n + 1) evs)),
    )

module _ (ch : Channel) where
  forward-Captures :
      (c : Controller ch) (ev : MarketEvent) (f : FanOut ch) (log : List MarketEvent)
      → c.next_seq + 1 < seq_max
      → Captures ch c f log
      → (c' : Controller ch) × (forward ch c ev ≡ some c')
        × (c'.next_seq ≡ c.next_seq + 1)
        × (let ev' = stamp_seq ev c.next_seq in
            Captures ch c' (fanout ch f ev') (log ++ (if is_data ev' then ev' ∷ [] else [])))
  unfolding forward
  forward-Captures c ev f log room v =
      let ev' = stamp_seq ev c.next_seq in
      let c1 = record c { next_seq = c.next_seq + 1 } in
      let (w, same) = after_stamp-Captures ch c1 ev' live_arrival f log (record {
        scope_live = v.scope_live;
        writes = v.writes;
        logged = v.logged;
        fans = v.fans;
      }) in
      (after_stamp ch c1 ev' live_arrival, forward-some ch c ev live_arrival room, same, w)

  -- A capturing live session that has room for the numbers forwards any list of events: the events,
  -- numbered one after the other from its counter, go to the fan-out, and the data events among
  -- them, so numbered, go to the tap log, both in order; the counter moves by their number; and the
  -- numbers rise strictly.
  pub forward_all-Captures :
      (c : Controller ch) (evs : List MarketEvent) (f : FanOut ch) (log : List MarketEvent)
      → c.next_seq + length evs < seq_max
      → Captures ch c f log
      → (c' : Controller ch) × (forward_all ch c evs ≡ some c')
        × (c'.next_seq ≡ c.next_seq + length evs)
        × Captures ch c'
            (fanout_all ch f (number c.next_seq evs))
            (log ++ data_of (number c.next_seq evs))
        × Rising c.next_seq (number c.next_seq evs) (c.next_seq + length evs)
  unfolding forward_all fanout_all
  forward_all-Captures c [] f log room v =
      (c, refl, omega arith, rw (append_nil log) v, omega arith)
  forward_all-Captures c (ev ∷ evs) f log room v =
      let ev' = stamp_seq ev c.next_seq in
      let own = if is_data ev' then ev' ∷ [] else [] in
      let logged = log ++ own in
      let f1 = fanout ch f ev' in
      let (c1, done, moved, w) = forward-Captures c ev f log (omega arith) v in
      let (c2, rest, n, u, _) = forward_all-Captures c1 evs f1 logged (omega (arith, moved)) w in
      let joined =
        subst (Captures ch c2 (fanout_all ch f1 (number c1.next_seq evs)))
          (append_assoc log own (data_of (number c1.next_seq evs))) u in
      (
        c2,
        rw done rest,
        omega (arith, n, moved),
        subst
            (λ m.
              Captures ch c2 (fanout_all ch f1 (number m evs))
                (log ++ (own ++ data_of (number m evs))))
            moved joined,
        number-Rising c.next_seq (ev ∷ evs),
      )

  forward_all-cons :
      (c : Controller ch) (ev : MarketEvent) (evs : List MarketEvent)
      → c.next_seq + 1 < seq_max
      → (c' : Controller ch) × (forward_all ch c (ev ∷ evs) ≡ forward_all ch c' evs)
        × (c'.next_seq ≡ c.next_seq + 1)
  unfolding forward_all forward
  forward_all-cons c ev evs room =
      let c1 = record c { next_seq = c.next_seq + 1 } in
      (
        after_stamp ch c1 (stamp_seq ev c.next_seq) live_arrival,
        rw (forward-some ch c ev live_arrival room),
        after_stamp-next_seq ch c1 (stamp_seq ev c.next_seq) live_arrival,
      )

  forward_all-full :
      (c : Controller ch) (ev : MarketEvent) (evs : List MarketEvent)
      → seq_max ≤ c.next_seq + 1
      → forward_all ch c (ev ∷ evs) ≡ none
  unfolding forward_all forward
  forward_all-full c ev evs h = rw (forward-none ch c ev live_arrival h)

  -- A session whose counter is in range forwards a list of events or panics: it panics exactly when
  -- the counter and the number of events reach 2^64 - 1, the synthetic sequence number; and else
  -- the counter moves by the number of events. So no event is ever numbered as synthetic.
  pub forward_all-none :
      (c : Controller ch) (evs : List MarketEvent)
      → c.next_seq < seq_max
      → ((seq_max ≤ c.next_seq + length evs) × (forward_all ch c evs ≡ none))
        ⊎ ((c.next_seq + length evs < seq_max)
            × ((c' : Controller ch) × (forward_all ch c evs ≡ some c')
                × (c'.next_seq ≡ c.next_seq + length evs)))
  unfolding forward_all
  forward_all-none c [] h = inr (omega arith, (c, refl, omega arith))
  forward_all-none c (ev ∷ evs) h = elim (dec_lt (c.next_seq + 1) seq_max) [
    | no full ↦ inl (omega arith, forward_all-full c ev evs (omega arith))
    | yes room ↦
        let (c1, same, moved) = forward_all-cons c ev evs room in
        elim (forward_all-none c1 evs (omega (arith, moved))) [
          | inl (over, e) ↦ inl (omega (arith, moved), same ∙ e)
          | inr (fits, (c2, e, n)) ↦
              inr (omega (arith, moved), (c2, same ∙ e, omega (arith, moved, n)))
        ]
  ]
