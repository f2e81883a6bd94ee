-- ===== src/Client/Ring/PerInstrument.antt =====
-- What the ring of a detached client keeps, and the loss it puts on each instrument's account.
use datamancer.Base.{
  ℕ, ◌≤◌, ◌≡◌, refl, sym, ap, ◌∙◌, map, ◌≢◌, ◌⊎◌, inl, inr, List, [], ◌∷◌, ◌++◌, Option, none, some,
  String, if◌then◌else◌, ◌==◌, length, lookup, lookup-insert, IsUnique, insert-IsUnique, append_nil,
  length-append, arith, Bool-cases,
}
use native.Mathlib.Decide.{ℕ_discrete}
use mathlib.Core.List.{append_assoc}
use datamancer.Core.Instrument.{Instrument, instrument_eq}
use datamancer.Core.Event.{
  Seq, MarketEvent, trade, quote, bar, control, ControlKind, gap, provider_connected,
  provider_disconnected, provider_error, subscription_changed, session_closing,
}
use datamancer.Core.Extent.{Extent, extent, kind_extent, earliest, latest}
use datamancer.Client.Ring.{
  Entry, DroppedSpan, ClientRing, Dropped, kind_dropped, dropped_of, seq_or_synthetic, widen, note,
  new, push, evict, note_drop,
}

abbrev account_of : Instrument → Option DroppedSpan → Option Dropped → Seq → Option DroppedSpan
account_of i loss none seq = loss
account_of i loss (some d) seq = if d.instrument == i then some (widen loss d seq) else loss

-- The loss of one instrument after one more entry was evicted: an entry of another leaves it.
abbrev account : Instrument → Option DroppedSpan → Entry → Option DroppedSpan
account i loss e = account_of i loss (dropped_of e) (seq_or_synthetic e.0)

abbrev loss_from : Instrument → Option DroppedSpan → List Entry → Option DroppedSpan
loss_from i loss [] = loss
loss_from i loss (e ∷ es) = loss_from i (account i loss e) es

abbrev extent_of : Extent × String → Extent
extent_of x = x.0

-- The evicted entries of an instrument, as what is missed with each and who is named for it.
abbrev Loss : Type 0
Loss = Extent × String

-- A gap names its provider; for market data it is the one that the entry came with.
abbrev named_by : ControlKind → String → String
named_by (gap provider instrument span) came_with = provider
named_by _ came_with = came_with

abbrev named : Entry → String
named (control c, provider) = named_by c.kind provider
named (ev, provider) = provider

abbrev with_loss : Instrument → Option Extent → String → List Loss → List Loss
with_loss i none provider rest = rest
with_loss i (some x) provider rest = if x.instrument == i then (x, provider) ∷ rest else rest

abbrev losses_of : Instrument → List Entry → List Loss
losses_of i [] = []
losses_of i (e ∷ es) = with_loss i (extent e.0) (named e) (losses_of i es)

-- The report on some losses: over the least span that holds them all, numbered and named as the
-- first of them.
abbrev reported : List Loss → Option DroppedSpan
reported [] = none
reported (x ∷ xs) = some (record {
  span = record {
    from_source_ts = earliest x.0.from (map extent_of xs);
    to_source_ts = latest x.0.to (map extent_of xs);
  };
  first_seq = x.0.seq;
  provider = x.1;
})

-- A report widened by later losses.
abbrev over : Option DroppedSpan → List Loss → Option DroppedSpan
over none xs = reported xs
over (some d) xs = some (record d {
  span = record {
    from_source_ts = earliest d.span.from_source_ts (map extent_of xs);
    to_source_ts = latest d.span.to_source_ts (map extent_of xs);
  };
})

-- A run of pushes.
unfoldable pub push_all : ClientRing → List Entry → ClientRing
unfolding push
push_all r [] = r
push_all r ((ev, provider) ∷ es) = push_all (push r ev provider).0 es

-- The ring after it was given `history`, of which it evicted `evicted`.
record Holding (r : ClientRing) (evicted history : List Entry) : Type 0 where
  pub split : history ≡ evicted ++ r.buf
  pub fits : length r.buf ≤ r.capacity
  pub room : 1 ≤ r.capacity
  pub full : (evicted ≡ []) ⊎ (length r.buf ≡ r.capacity)
  pub losses : (i : Instrument) → lookup i r.dropped ≡ loss_from i none evicted
  pub unique : IsUnique r.dropped

lookup-note :
    (i : Instrument) (dropped : List (Instrument × DroppedSpan)) (d : Option Dropped) (seq : Seq)
    → lookup i (note dropped d seq) ≡ account_of i (lookup i dropped) d seq
unfolding note
lookup-note i dropped none seq = refl
lookup-note i dropped (some d) seq = elim (Bool-cases (d.instrument == i)) [
  | inl same ↦
      let e : d.instrument ≡ i = (instrument_eq.beq_iff d.instrument i).0 same in
      rw (lookup-insert d.instrument i (widen (lookup d.instrument dropped) d seq) dropped, same, e)
        refl
  | inr other ↦
      rw (lookup-insert d.instrument i (widen (lookup d.instrument dropped) d seq) dropped, other)
        refl
]

note-IsUnique :
    (dropped : List (Instrument × DroppedSpan)) (d : Option Dropped) (seq : Seq)
    → IsUnique dropped
    → IsUnique (note dropped d seq)
unfolding note
note-IsUnique dropped none seq u = u
note-IsUnique dropped (some d) seq u = insert-IsUnique d.instrument _ dropped u

loss_from-append :
    (i : Instrument) (loss : Option DroppedSpan) (xs ys : List Entry)
    → loss_from i loss (xs ++ ys) ≡ loss_from i (loss_from i loss xs) ys
loss_from-append i loss [] ys = refl
loss_from-append i loss (x ∷ xs) ys = loss_from-append i (account i loss x) xs ys

after_evict : ClientRing → Entry → List Entry → Entry → ClientRing
unfolding note
after_evict r x rest e = record {
  capacity = r.capacity;
  buf = rest ++ (e ∷ []);
  dropped = note r.dropped (dropped_of x) (seq_or_synthetic x.0);
}

push_full :
    (r : ClientRing) (x : Entry) (rest : List Entry) (ev : MarketEvent) (provider : String)
    → r.buf ≡ x ∷ rest
    → length r.buf ≡ r.capacity
    → (push r ev provider).0 ≡ after_evict r x rest (ev, provider)
unfolding push evict note_drop after_evict
push_full r x rest ev provider e f = ground arith

push_room :
    (r : ClientRing) (ev : MarketEvent) (provider : String)
    → length r.buf ≢ r.capacity
    → (push r ev provider).0 ≡ record r { buf = r.buf ++ ((ev, provider) ∷ []) }
unfolding push
push_room r ev provider f = ground arith

evict-Holding :
    (r : ClientRing) (x : Entry) (rest evicted history : List Entry) (ev : MarketEvent)
    (provider : String)
    → Holding r evicted history
    → r.buf ≡ x ∷ rest
    → length r.buf ≡ r.capacity
    → Holding (push r ev provider).0 (evicted ++ (x ∷ [])) (history ++ ((ev, provider) ∷ []))
unfolding after_evict
evict-Holding r x rest evicted history ev provider v e f =
    rw (push_full r x rest ev provider e f) (record {
      split = rw (v.split, e) (simp append_assoc);
      fits = omega (arith, same);
      room = v.room;
      full = inr same;
      losses = λ i.
          rw
            (
              lookup-note i r.dropped (dropped_of x) (seq_or_synthetic x.0),
              v.losses i,
              loss_from-append i none evicted (x ∷ []),
            )
            refl;
      unique = note-IsUnique r.dropped (dropped_of x) (seq_or_synthetic x.0) v.unique;
    })
  where
    same : length (rest ++ ((ev, provider) ∷ [])) ≡ r.capacity
    same = omega (arith, length-append rest ((ev, provider) ∷ []), ap length e)

store-Holding :
    (r : ClientRing) (evicted history : List Entry) (ev : MarketEvent) (provider : String)
    → Holding r evicted history
    → length r.buf ≢ r.capacity
    → Holding (push r ev provider).0 evicted (history ++ ((ev, provider) ∷ []))
store-Holding r evicted history ev provider v f = rw (push_room r ev provider f) (record {
  split = rw v.split (append_assoc evicted r.buf ((ev, provider) ∷ []));
  fits = omega (arith, length-append r.buf ((ev, provider) ∷ []), v.fits);
  room = v.room;
  full = elim v.full [ inl none_lost ↦ inl none_lost | inr full ↦ absurd (f full) ];
  losses = v.losses;
  unique = v.unique;
})

push-Holding :
    (r : ClientRing) (evicted history : List Entry) (ev : MarketEvent) (provider : String)
    → Holding r evicted history
    → (evicted' : List Entry) × Holding
        (push r ev provider).0
        evicted'
        (history ++ ((ev, provider) ∷ []))
push-Holding r evicted history ev provider v = elim (ℕ_discrete (length r.buf) r.capacity) [
  | no room ↦ (evicted, store-Holding r evicted history ev provider v room)
  | yes full ↦ go r.buf refl full
]
  where
    go :
        (b : List Entry)
        → r.buf ≡ b
        → length r.buf ≡ r.capacity
        → (evicted' : List Entry) × Holding
            (push r ev provider).0
            evicted'
            (history ++ ((ev, provider) ∷ []))
    go [] e full = absurd (omega (arith, v.room, ap length e))
    go (x ∷ rest) e full =
        (evicted ++ (x ∷ []), evict-Holding r x rest evicted history ev provider v e full)

push_all-Holding :
    (es : List Entry) (r : ClientRing) (evicted history : List Entry)
    → Holding r evicted history
    → (evicted' : List Entry) × Holding (push_all r es) evicted' (history ++ es)
unfolding push_all
push_all-Holding [] r evicted history v = (evicted, rw append_nil v)
push_all-Holding ((ev, provider) ∷ es) r evicted history v =
    let (evicted', v') = push-Holding r evicted history ev provider v in
    let (gone, w) =
      push_all-Holding es (push r ev provider).0 evicted' (history ++ ((ev, provider) ∷ [])) v' in
    (gone, rw append_assoc at w)

-- The code's tuple, from an extent.
abbrev dropped_from : Option Extent → String → Option Dropped
dropped_from none provider = none
dropped_from (some x) provider =
    some (record { instrument = x.instrument; from = x.from; to = x.to; provider = provider })

abbrev SeqFits : Option Extent → Seq → Type 0
SeqFits none seq = Unit
SeqFits (some x) seq = seq ≡ x.seq

dropped_of-extent :
    (e : Entry)
    → (x : Option Extent) × (extent e.0 ≡ x)
      × (dropped_of e ≡ dropped_from x (named e))
      × SeqFits x (seq_or_synthetic e.0)
dropped_of-extent (trade t, provider) = (_, refl, refl, refl)
dropped_of-extent (quote q, provider) = (_, refl, refl, refl)
dropped_of-extent (bar b, provider) = (_, refl, refl, refl)
dropped_of-extent (control c, provider) = go c.kind
  where
    go :
        (kind : ControlKind)
        → (x : Option Extent) × (kind_extent kind c.seq ≡ x)
          × (kind_dropped kind ≡ dropped_from x (named_by kind provider))
          × SeqFits x c.seq
    go (provider_connected p) = (none, refl, refl, tt)
    go (provider_disconnected p reason cause) = (none, refl, refl, tt)
    go (provider_error p message) = (none, refl, refl, tt)
    go (subscription_changed p i k active) = (none, refl, refl, tt)
    go (gap p i span) = (_, refl, refl, refl)
    go session_closing = (none, refl, refl, tt)

account-over :
    (i : Instrument) (loss : Option DroppedSpan) (x : Option Extent) (provider : String) (seq : Seq)
    (rest : List Loss)
    → SeqFits x seq
    → over (account_of i loss (dropped_from x provider) seq) rest
      ≡ over loss (with_loss i x provider rest)
account-over i loss none provider seq rest h = refl
account-over i none (some x) provider seq rest h = elim (Bool-cases (x.instrument == i)) [
  | inl same ↦ rw (same, h) refl
  | inr other ↦ rw other refl
]
account-over i (some d) (some x) provider seq rest h = elim (Bool-cases (x.instrument == i)) [
  | inl same ↦ rw same refl
  | inr other ↦ rw other refl
]

loss_from-over :
    (i : Instrument) (loss : Option DroppedSpan) (es : List Entry)
    → loss_from i loss es ≡ over loss (losses_of i es)
loss_from-over i none [] = refl
loss_from-over i (some d) [] = refl
loss_from-over i loss (e ∷ es) =
    let (x, same, dropped, fits) = dropped_of-extent e in
    loss_from-over i (account i loss e) es
    ∙ ap (λ d. over (account_of i loss d (seq_or_synthetic e.0)) (losses_of i es)) dropped
    ∙ account-over i loss x (named e) (seq_or_synthetic e.0) (losses_of i es) fits
    ∙ ap (λ y. over loss (with_loss i y (named e) (losses_of i es))) (sym same)

-- The ring after it was given `history`, of which it evicted `evicted`.
pub record Buffers (r : ClientRing) (evicted history : List Entry) : Type 0 where
  pub split : history ≡ evicted ++ r.buf
  pub fits : length r.buf ≤ r.capacity
  pub room : 1 ≤ r.capacity
  pub full : (evicted ≡ []) ⊎ (length r.buf ≡ r.capacity)
  pub reports : (i : Instrument) → lookup i r.dropped ≡ reported (losses_of i evicted)
  pub unique : IsUnique r.dropped

-- Whatever is pushed to a new ring of any capacity, it holds the newest events in order and has
-- evicted the oldest, only while full; and it has one report for each instrument of which it evicted
-- a trade, a quote, a bar or a gap, and none for others: over the least span that holds the instants
-- of those trades, quotes and bars and the spans of those gaps, with the number and provider of the
-- first of them.
pub push_all-per_instrument :
    (capacity : ℕ) (es : List Entry)
    → (evicted : List Entry) × Buffers (push_all (new capacity) es) evicted es
unfolding new lookup
push_all-per_instrument capacity es =
    let start : Holding (new capacity) [] [] = record {
      split = refl;
      fits = ground arith;
      room = ground arith;
      full = inl refl;
      losses = λ i. refl;
      unique = tt;
    } in
    let (evicted, v) = push_all-Holding es (new capacity) [] [] start in
    (
      evicted,
      record {
        split = v.split;
        fits = v.fits;
        room = v.room;
        full = v.full;
        reports = λ i. v.losses i ∙ loss_from-over i none evicted;
        unique = v.unique;
      },
    )
