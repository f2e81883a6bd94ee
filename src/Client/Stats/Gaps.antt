-- ===== src/Client/Stats/Gaps.antt =====
-- What the statistics say after any run of fanned-out events.
use datamancer.Base.{
  ℕ, suc, zero, ◌+◌, ◌-◌, ◌%◌, ◌≤◌, ◌≡◌, refl, ap, ◌∙◌, Option, none, some, List, [], ◌∷◌, ◌++◌,
  length, drop, arith, length-append, append_nil, leb, leb→le, Bool-cases, inl, inr,
}
use native.Mathlib.Nat.{add-zero}
use mathlib.Core.List.{append_assoc}
use datamancer.Core.Event.{
  Timestamp, GapSpan, MarketEvent, trade, quote, bar, control, ControlKind, gap, provider_connected,
  provider_disconnected, subscription_changed, provider_error, session_closing, data_source_ts,
  event_seq,
}
use datamancer.Client.Stats.{
  LiveStats, new, record_event, record_control, record_seq, push_gap, recent_gaps_cap, seq_position,
  last_source_ts_of,
}

abbrev pub newer {ℓ} : {A : Type ℓ} → Option A → Option A → Option A
newer (some a) old = some a
newer none old = old

pub record_all : LiveStats → List MarketEvent → LiveStats
record_all s [] = s
record_all s (ev ∷ evs) = record_all (record_event s ev) evs

-- The spans that an event's kind reports.
abbrev kind_gaps : ControlKind → List GapSpan
kind_gaps (gap provider instrument span) = span ∷ []
kind_gaps _ = []

abbrev event_gaps : MarketEvent → List GapSpan
event_gaps (control c) = kind_gaps c.kind
event_gaps _ = []

abbrev pub gaps_of : List MarketEvent → List GapSpan
gaps_of [] = []
gaps_of (ev ∷ evs) = event_gaps ev ++ gaps_of evs

-- The last `k` of a list.
abbrev pub last_of {ℓ} : {A : Type ℓ} → ℕ → List A → List A
last_of k xs = drop (length xs - k) xs

drop-append {ℓ} :
    {A : Type ℓ} (n : ℕ) (xs ys : List A) → n ≤ length xs → drop n (xs ++ ys) ≡ drop n xs ++ ys
drop-append zero xs ys h = refl
drop-append (suc n) [] ys h = absurd (omega arith)
drop-append (suc n) (x ∷ xs) ys h = drop-append n xs ys (omega arith)

length-drop {ℓ} : {A : Type ℓ} (n : ℕ) (xs : List A) → length (drop n xs) ≡ length xs - n
length-drop zero xs = omega arith
length-drop (suc n) [] = omega arith
length-drop (suc n) (x ∷ xs) = omega (arith, length-drop n xs)

drop-one {ℓ} : {A : Type ℓ} (n : ℕ) (xs : List A) → drop 1 (drop n xs) ≡ drop (suc n) xs
drop-one zero xs = refl
drop-one (suc n) [] = refl
drop-one (suc n) (x ∷ xs) = drop-one n xs

push_gap-last_of :
    (xs : List GapSpan) (x : GapSpan)
    → push_gap (last_of recent_gaps_cap xs) x ≡ last_of recent_gaps_cap (xs ++ (x ∷ []))
unfolding push_gap
push_gap-last_of xs x = elim (Bool-cases (leb 8 (length xs))) [
  | inl full ↦
      let n : ℕ = length xs - 8 in
      let whole : length (drop n xs) ≡ 8 = omega (arith, length-drop {0} n xs, leb→le _ _ full) in
      let more : length (xs ++ (x ∷ [])) - 8 ≡ suc n =
        omega (arith, length-append xs (x ∷ []), leb→le _ _ full) in
      rw (whole, more)
        (rw (drop-append (suc n) xs (x ∷ []) (omega (arith, leb→le _ _ full)))
          (ap (λ ys. ys ++ (x ∷ [])) (drop-one n xs)))
  | inr room ↦
      let n0 : length xs - 8 ≡ 0 = ground arith in
      let m0 : length (xs ++ (x ∷ [])) - 8 ≡ 0 = ground (arith, length-append xs (x ∷ [])) in
      rw (n0, m0) (ground arith)
]

record_control-gaps :
    (s : LiveStats) (rx : Timestamp) (k : ControlKind) (xs : List GapSpan)
    → s.recent_gaps ≡ last_of recent_gaps_cap xs
    → (record_control s rx k).recent_gaps ≡ last_of recent_gaps_cap (xs ++ kind_gaps k)
unfolding record_control
record_control-gaps s rx (gap provider instrument span) xs e = rw e (push_gap-last_of xs span)
record_control-gaps s rx (provider_connected p) xs e = rw (append_nil xs) e
record_control-gaps s rx (provider_disconnected p r c) xs e = rw (append_nil xs) e
record_control-gaps s rx (subscription_changed p i k a) xs e = rw (append_nil xs) e
record_control-gaps s rx (provider_error p m) xs e = rw (append_nil xs) e
record_control-gaps s rx session_closing xs e = rw (append_nil xs) e

record_event-gaps :
    (s : LiveStats) (ev : MarketEvent) (xs : List GapSpan)
    → s.recent_gaps ≡ last_of recent_gaps_cap xs
    → (record_event s ev).recent_gaps ≡ last_of recent_gaps_cap (xs ++ event_gaps ev)
unfolding record_event
record_event-gaps s (trade t) xs e = rw (append_nil xs) e
record_event-gaps s (quote q) xs e = rw (append_nil xs) e
record_event-gaps s (bar b) xs e = rw (append_nil xs) e
record_event-gaps s (control c) xs e =
    record_control-gaps (record_seq s (control c)) c.rx_ts c.kind xs e

abbrev pub counter_mod : ℕ
counter_mod = 18446744073709551616

record_event-count :
    (s : LiveStats) (ev : MarketEvent) (n : ℕ)
    → s.gap_count ≡ n % counter_mod
    → (record_event s ev).gap_count ≡ (n + length (event_gaps ev)) % counter_mod
unfolding record_event
record_event-count s ev n e = ground arith

-- The last answer that `f` gives along the events, or `found`.
abbrev pub latest {ℓ} :
    {A : Type ℓ} → (MarketEvent → Option A) → Option A → List MarketEvent → Option A
latest f found [] = found
latest f found (ev ∷ evs) = latest f (newer (f ev) found) evs

record_event-seq :
    (s : LiveStats) (ev : MarketEvent)
    → seq_position (record_event s ev) ≡ newer (event_seq ev) (seq_position s)
unfolding record_event seq_position
record_event-seq s ev = ground arith

record_event-ts :
    (s : LiveStats) (ev : MarketEvent)
    → last_source_ts_of (record_event s ev) ≡ newer (data_source_ts ev) (last_source_ts_of s)
unfolding record_event last_source_ts_of
record_event-ts s ev = ground arith

record_all-gaps :
    (evs : List MarketEvent) (s : LiveStats) (xs : List GapSpan)
    → s.recent_gaps ≡ last_of recent_gaps_cap xs
    → (record_all s evs).recent_gaps ≡ last_of recent_gaps_cap (xs ++ gaps_of evs)
unfolding record_all
record_all-gaps [] s xs e = rw (append_nil xs) e
record_all-gaps (ev ∷ evs) s xs e =
    rw (← append_assoc xs (event_gaps ev) (gaps_of evs))
      (record_all-gaps evs (record_event s ev) (xs ++ event_gaps ev) (record_event-gaps s ev xs e))

record_all-count :
    (evs : List MarketEvent) (s : LiveStats) (n : ℕ)
    → s.gap_count ≡ n % counter_mod
    → (record_all s evs).gap_count ≡ (n + length (gaps_of evs)) % counter_mod
unfolding record_all
record_all-count [] s n e = rw add-zero e
record_all-count (ev ∷ evs) s n e = omega (
  arith,
  record_all-count evs (record_event s ev) (n + length (event_gaps ev))
      (record_event-count s ev n e),
  length-append (event_gaps ev) (gaps_of evs),
)

record_all-seq :
    (evs : List MarketEvent) (s : LiveStats)
    → seq_position (record_all s evs) ≡ latest event_seq (seq_position s) evs
unfolding record_all
record_all-seq [] s = refl
record_all-seq (ev ∷ evs) s =
    record_all-seq evs (record_event s ev)
    ∙ ap (λ o. latest event_seq o evs) (record_event-seq s ev)

record_all-ts :
    (evs : List MarketEvent) (s : LiveStats)
    → last_source_ts_of (record_all s evs) ≡ latest data_source_ts (last_source_ts_of s) evs
unfolding record_all
record_all-ts [] s = refl
record_all-ts (ev ∷ evs) s =
    record_all-ts evs (record_event s ev)
    ∙ ap (λ o. latest data_source_ts o evs) (record_event-ts s ev)

-- After any run of fanned-out events on new statistics: the recent gaps are the last eight gap
-- spans among them, oldest first; the gap count is their number modulo 2^64; the sequence position
-- is that of the last event; and the last source time is that of the last data event.
pub record_all-new :
    (evs : List MarketEvent)
    → ((record_all new evs).recent_gaps ≡ last_of recent_gaps_cap (gaps_of evs))
      × ((record_all new evs).gap_count ≡ length (gaps_of evs) % counter_mod)
      × (seq_position (record_all new evs) ≡ latest event_seq none evs)
      × (last_source_ts_of (record_all new evs) ≡ latest data_source_ts none evs)
unfolding new seq_position last_source_ts_of
record_all-new evs = (
  record_all-gaps evs new [] refl,
  omega (arith, record_all-count evs new 0 refl),
  record_all-seq evs new,
  record_all-ts evs new,
)
