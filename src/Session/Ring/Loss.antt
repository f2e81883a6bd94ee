-- ===== src/Session/Ring/Loss.antt =====
-- What an event ring keeps and what it reports as lost.
use datamancer.Base.{
  ℕ, ◌≤◌, ◌≡◌, refl, ap, sym, ◌∙◌, ◌≢◌, ◌⊎◌, inl, inr, List, [], ◌∷◌, ◌++◌, Option, none, some,
  length, All, All-append, append_nil, length-append, arith, ◌≤ℤ◌, Bool-cases,
}
use native.Mathlib.Decide.{ℕ_discrete}
use mathlib.Core.List.{append_assoc}
use datamancer.Base.Int.{min_ℤ, max_ℤ, leb_ℤ}
use datamancer.Core.Event.{
  Timestamp, Seq, GapSpan, MarketEvent, event_seq, trade, quote, bar, control, ControlKind, gap,
  provider_connected, provider_disconnected, provider_error, subscription_changed, session_closing,
}
use datamancer.Core.Extent.{
  Extent, kind_extent, extent, extents, with_extent, hull, earliest-append, latest-append,
  extents-append,
}
use datamancer.Session.Ring.{
  EventRing, first_or, new, push, push_all, loss_span, kind_span, extend_by, note_drop,
}

-- The reported span holds [from, to).
abbrev Holds : Option GapSpan → Timestamp → Timestamp → Type 0
Holds none from to = ⊥
Holds (some span) from to = (span.from_source_ts ≤ℤ from) × (to ≤ℤ span.to_source_ts)

abbrev HoldsAll : Option GapSpan → Option (Timestamp × Timestamp) → Type 0
HoldsAll dropped none = Unit
HoldsAll dropped (some (from, to)) = Holds dropped from to

abbrev bounds : Option Extent → Option (Timestamp × Timestamp)
bounds none = none
bounds (some x) = some (x.from, x.to)

-- What is missed with an event: its instant, or the span of a gap; of other controls nothing.
abbrev bounds_of : MarketEvent → Option (Timestamp × Timestamp)
bounds_of ev = bounds (extent ev)

-- The loss of an evicted event is inside the reported span.
abbrev pub IsAccounted : Option GapSpan → MarketEvent → Type 0
IsAccounted dropped ev = HoldsAll dropped (bounds_of ev)

abbrev BeginsAt : Timestamp → Option (Timestamp × Timestamp) → Type 0
BeginsAt t none = ⊥
BeginsAt t (some (from, to)) = t ≡ from

abbrev EndsAt : Timestamp → Option (Timestamp × Timestamp) → Type 0
EndsAt t none = ⊥
EndsAt t (some (from, to)) = t ≡ to

-- Some member satisfies `P`.
abbrev Any : (MarketEvent → Type 0) → List MarketEvent → Type 0
Any P [] = ⊥
Any P (x ∷ xs) = P x ⊎ Any P xs

-- Both ends of a reported span are those of an evicted event's loss.
abbrev pub IsTight : Option GapSpan → List MarketEvent → Type 0
IsTight none evicted = Unit
IsTight (some span) evicted =
    Any (λ ev. BeginsAt span.from_source_ts (bounds_of ev)) evicted
    × Any (λ ev. EndsAt span.to_source_ts (bounds_of ev)) evicted

abbrev pub first_seq : List MarketEvent → Option Seq
first_seq [] = none
first_seq (ev ∷ evs) = event_seq ev

-- The ring after it was given `history`, of which it evicted `evicted`.
pub record Buffers (r : EventRing) (evicted history : List MarketEvent) : Type 0 where
  pub split : history ≡ evicted ++ r.buf
  pub fits : length r.buf ≤ r.capacity
  pub room : 1 ≤ r.capacity
  pub full : (evicted ≡ []) ⊎ (length r.buf ≡ r.capacity)
  pub accounted : All (IsAccounted r.dropped) evicted
  pub tight : IsTight r.dropped evicted
  pub hulls : r.dropped ≡ hull (extents evicted)
  pub hole : r.dropped_first_seq ≡ first_seq evicted

Holds-extend :
    (dropped : Option GapSpan) (l : Option (Timestamp × Timestamp)) (from to : Timestamp)
    → Holds dropped from to
    → Holds (extend_by dropped l) from to
Holds-extend (some s) none from to h = h
Holds-extend (some s) (some (a, b)) from to h = ground arith
Holds-extend none l from to h = absurd h

HoldsAll-extend :
    (dropped : Option GapSpan) (l m : Option (Timestamp × Timestamp))
    → HoldsAll dropped m
    → HoldsAll (extend_by dropped l) m
HoldsAll-extend dropped l none h = tt
HoldsAll-extend dropped l (some (from, to)) h = Holds-extend dropped l from to h

HoldsAll-extend_self :
    (dropped : Option GapSpan) (l : Option (Timestamp × Timestamp))
    → HoldsAll (extend_by dropped l) l
HoldsAll-extend_self dropped none = tt
HoldsAll-extend_self none (some (a, b)) = omega arith
HoldsAll-extend_self (some s) (some (a, b)) = ground arith

All-extend :
    (dropped : Option GapSpan) (l : Option (Timestamp × Timestamp)) (evs : List MarketEvent)
    → All (IsAccounted dropped) evs
    → All (IsAccounted (extend_by dropped l)) evs
All-extend dropped l [] h = tt
All-extend dropped l (ev ∷ evs) h =
    (HoldsAll-extend dropped l (bounds_of ev) h.0, All-extend dropped l evs h.1)

Any-append_left :
    (P : MarketEvent → Type 0) (xs ys : List MarketEvent) → Any P xs → Any P (xs ++ ys)
Any-append_left P (x ∷ xs) ys (inl h) = inl h
Any-append_left P (x ∷ xs) ys (inr h) = inr (Any-append_left P xs ys h)
Any-append_left P [] ys h = absurd h

Any-append_last :
    (P : MarketEvent → Type 0) (xs : List MarketEvent) (y : MarketEvent)
    → P y
    → Any P (xs ++ (y ∷ []))
Any-append_last P [] y h = inl h
Any-append_last P (x ∷ xs) y h = inr (Any-append_last P xs y h)

IsTight-append_left :
    (d : Option GapSpan) (xs ys : List MarketEvent) → IsTight d xs → IsTight d (xs ++ ys)
IsTight-append_left none xs ys t = tt
IsTight-append_left (some s) xs ys t = (Any-append_left _ xs ys t.0, Any-append_left _ xs ys t.1)

module _ (ev : MarketEvent) (evs : List MarketEvent) where
  begins-extend :
      (s : GapSpan) (a b : Timestamp)
      → bounds_of ev ≡ some (a, b)
      → Any (λ x. BeginsAt s.from_source_ts (bounds_of x)) evs
      → Any (λ x. BeginsAt (min_ℤ s.from_source_ts a) (bounds_of x)) (evs ++ (ev ∷ []))
  begins-extend s a b e h = elim (Bool-cases (leb_ℤ s.from_source_ts a)) [
    | inl le ↦ rw le (Any-append_left _ evs (ev ∷ []) h)
    | inr gt ↦ rw gt (Any-append_last _ evs ev (rw e))
  ]

  ends-extend :
      (s : GapSpan) (a b : Timestamp)
      → bounds_of ev ≡ some (a, b)
      → Any (λ x. EndsAt s.to_source_ts (bounds_of x)) evs
      → Any (λ x. EndsAt (max_ℤ s.to_source_ts b) (bounds_of x)) (evs ++ (ev ∷ []))
  ends-extend s a b e h = elim (Bool-cases (leb_ℤ s.to_source_ts b)) [
    | inl le ↦ rw le (Any-append_last _ evs ev (rw e))
    | inr gt ↦ rw gt (Any-append_left _ evs (ev ∷ []) h)
  ]

  IsTight-extend :
      (d : Option GapSpan) (l : Option (Timestamp × Timestamp))
      → bounds_of ev ≡ l
      → IsTight d evs
      → IsTight (extend_by d l) (evs ++ (ev ∷ []))
  IsTight-extend d none e t = IsTight-append_left d evs (ev ∷ []) t
  IsTight-extend none (some (a, b)) e t =
      (Any-append_last _ evs ev (rw e), Any-append_last _ evs ev (rw e))
  IsTight-extend (some s) (some (a, b)) e t = (begins-extend s a b e t.0, ends-extend s a b e t.1)

first_seq-append :
    (evs : List MarketEvent) (ev : MarketEvent)
    → first_or (first_seq evs) ev ≡ first_seq (evs ++ (ev ∷ []))
first_seq-append [] ev = refl
first_seq-append (x ∷ evs) ev = ground arith

after_evict : EventRing → MarketEvent → List MarketEvent → MarketEvent → EventRing
after_evict r x rest ev = record {
  capacity = r.capacity;
  buf = rest ++ (ev ∷ []);
  dropped = extend_by r.dropped (bounds_of x);
  dropped_first_seq = first_or r.dropped_first_seq x;
}

loss_span-extent : (ev : MarketEvent) → loss_span ev ≡ bounds_of ev
loss_span-extent (trade t) = refl
loss_span-extent (quote q) = refl
loss_span-extent (bar b) = refl
loss_span-extent (control c) = go c.kind
  where
    go : (kind : ControlKind) → kind_span kind ≡ bounds (kind_extent kind c.seq)
    go (provider_connected p) = refl
    go (provider_disconnected p reason cause) = refl
    go (provider_error p message) = refl
    go (subscription_changed p i k active) = refl
    go (gap p i span) = refl
    go session_closing = refl

hull_last :
    (d : Option GapSpan) (xs : List Extent) (e : Option Extent)
    → d ≡ hull xs
    → extend_by d (bounds e) ≡ hull (xs ++ with_extent e [])
hull_last d xs none h = h ∙ ap hull (sym (append_nil xs))
hull_last d [] (some y) h = rw h refl
hull_last d (x ∷ xs) (some y) h = rw (h, earliest-append x.from xs y, latest-append x.to xs y) refl

hull-extend :
    (evs : List MarketEvent) (ev : MarketEvent)
    → extend_by (hull (extents evs)) (bounds_of ev) ≡ hull (extents (evs ++ (ev ∷ [])))
hull-extend evs ev =
    hull_last (hull (extents evs)) (extents evs) (extent ev) refl
    ∙ ap hull (sym (extents-append evs ev))

push_full :
    (r : EventRing) (x : MarketEvent) (rest : List MarketEvent) (ev : MarketEvent)
    → r.buf ≡ x ∷ rest
    → length r.buf ≡ r.capacity
    → push r ev ≡ after_evict r x rest ev
unfolding push after_evict note_drop
push_full r x rest ev e f = rw⁻¹ (loss_span-extent x) (ground arith)

push_room :
    (r : EventRing) (ev : MarketEvent)
    → length r.buf ≢ r.capacity
    → push r ev ≡ record r { buf = r.buf ++ (ev ∷ []) }
unfolding push
push_room r ev f = ground arith

-- A full ring gives up its oldest event.
evict-Buffers :
    (r : EventRing) (x : MarketEvent) (rest evicted history : List MarketEvent) (ev : MarketEvent)
    → Buffers r evicted history
    → r.buf ≡ x ∷ rest
    → length r.buf ≡ r.capacity
    → Buffers (push r ev) (evicted ++ (x ∷ [])) (history ++ (ev ∷ []))
unfolding after_evict
evict-Buffers r x rest evicted history ev v e f = rw (push_full r x rest ev e f) (record {
  split = rw (v.split, e) (simp append_assoc);
  fits = omega (arith, same);
  room = v.room;
  full = inr same;
  accounted =
      All-append _ evicted (x ∷ []) (All-extend r.dropped (bounds_of x) evicted v.accounted)
        (HoldsAll-extend_self r.dropped (bounds_of x), tt);
  tight = IsTight-extend x evicted r.dropped (bounds_of x) refl v.tight;
  hulls = rw v.hulls (hull-extend evicted x);
  hole = rw v.hole (first_seq-append evicted x);
})
  where
    same : length (rest ++ (ev ∷ [])) ≡ r.capacity
    same = omega (arith, length-append rest (ev ∷ []), ap length e)

-- A ring with room keeps all it has.
store-Buffers :
    (r : EventRing) (evicted history : List MarketEvent) (ev : MarketEvent)
    → Buffers r evicted history
    → length r.buf ≢ r.capacity
    → Buffers (push r ev) evicted (history ++ (ev ∷ []))
store-Buffers r evicted history ev v f = rw (push_room r ev f) (record {
  split = rw v.split (append_assoc evicted r.buf (ev ∷ []));
  fits = omega (arith, length-append r.buf (ev ∷ []), v.fits);
  room = v.room;
  full = elim v.full [ inl none_lost ↦ inl none_lost | inr full ↦ absurd (f full) ];
  accounted = v.accounted;
  tight = v.tight;
  hulls = v.hulls;
  hole = v.hole;
})

push-Buffers :
    (r : EventRing) (evicted history : List MarketEvent) (ev : MarketEvent)
    → Buffers r evicted history
    → (evicted' : List MarketEvent) × Buffers (push r ev) evicted' (history ++ (ev ∷ []))
push-Buffers r evicted history ev v = elim (ℕ_discrete (length r.buf) r.capacity) [
  | no room ↦ (evicted, store-Buffers r evicted history ev v room)
  | yes full ↦ go r.buf refl full
]
  where
    go :
        (b : List MarketEvent)
        → r.buf ≡ b
        → length r.buf ≡ r.capacity
        → (evicted' : List MarketEvent) × Buffers (push r ev) evicted' (history ++ (ev ∷ []))
    go [] e full = absurd (omega (arith, v.room, ap length e))
    go (x ∷ rest) e full = (evicted ++ (x ∷ []), evict-Buffers r x rest evicted history ev v e full)

push_all-Buffers :
    (evs : List MarketEvent) (r : EventRing) (evicted history : List MarketEvent)
    → Buffers r evicted history
    → (evicted' : List MarketEvent) × Buffers (push_all r evs) evicted' (history ++ evs)
unfolding push_all
push_all-Buffers [] r evicted history v = (evicted, rw append_nil v)
push_all-Buffers (ev ∷ evs) r evicted history v =
    let (evicted', v') = push-Buffers r evicted history ev v in
    let (gone, w) = push_all-Buffers evs (push r ev) evicted' (history ++ (ev ∷ [])) v' in
    (gone, rw append_assoc at w)

-- Whatever is pushed to a new ring of any capacity, it holds the newest events in order and has
-- evicted the oldest, only while full; the instant of every evicted trade, quote and bar and the
-- span of every evicted gap lie inside the reported span, which is the least such span (other
-- controls that are evicted are not reported); and the reported hole starts at the
-- first evicted sequence number.
pub push_all-new :
    (capacity : ℕ) (evs : List MarketEvent)
    → (evicted : List MarketEvent) × Buffers (push_all (new capacity) evs) evicted evs
unfolding new
push_all-new capacity evs = push_all-Buffers evs (new capacity) [] [] (record {
  split = refl;
  fits = ground arith;
  room = ground arith;
  full = inl refl;
  accounted = tt;
  tight = tt;
  hulls = refl;
  hole = refl;
})
