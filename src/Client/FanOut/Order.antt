-- ===== src/Client/FanOut/Order.antt =====
-- A referrer receives in the order of the sequence numbers, gap reports included.
use datamancer.Base.{
  suc, ◌≤◌, ◌<◌, ◌≡◌, refl, false, Option, none, some, List, [], ◌∷◌, ◌++◌, arith,
}
use datamancer.Core.Event.{Seq, MarketEvent, trade, quote, bar, control, ControlKind}
use datamancer.Channel.{Channel, TrySend, accepted, full, closed}
use datamancer.Client.FanOut.{
  PendingGap, Coords, absorb, to_event, gap_coords, control_coords, absorb_drop, absorb_coords,
  Referrer, serve, serve_pending, settle, settle_gap, offer,
}

abbrev pub seq_of : MarketEvent → Seq
seq_of (trade t) = t.seq
seq_of (quote q) = q.seq
seq_of (bar b) = b.seq
seq_of (control c) = c.seq

-- The sequence numbers rise strictly, from `lo` on and below `hi`.
abbrev pub Rising : Seq → List MarketEvent → Seq → Type 0
Rising lo [] hi = lo ≤ hi
Rising lo (x ∷ xs) hi = (lo ≤ seq_of x) × Rising (suc (seq_of x)) xs hi

Rising-le : (lo : Seq) (xs : List MarketEvent) (m n : Seq) → Rising lo xs m → m ≤ n → Rising lo xs n
Rising-le lo [] m n h k = omega arith
Rising-le lo (x ∷ xs) m n h k = (h.0, Rising-le (suc (seq_of x)) xs m n h.1 k)

Rising-append :
    (lo : Seq) (xs : List MarketEvent) (x : MarketEvent) (m : Seq)
    → Rising lo xs m
    → m ≤ seq_of x
    → Rising lo (xs ++ (x ∷ [])) (suc (seq_of x))
Rising-append lo [] x m h k = (omega arith, omega arith)
Rising-append lo (y ∷ ys) x m h k = (h.0, Rising-append (suc (seq_of y)) ys x m h.1 k)

-- What was received rises, and a gap that is owed comes after all of it and before `m`.
abbrev pub Ordered : List MarketEvent → Option PendingGap → Seq → Type 0
Ordered received none m = Rising 0 received m
Ordered received (some p) m = Rising 0 received p.first_seq × (p.first_seq < m)

control_coords-seq :
    (k : ControlKind) (s : Seq) (c : Coords) → control_coords k s ≡ some c → c.seq ≡ s
unfolding control_coords
control_coords-seq k s c e = ground arith

gap_coords-seq : (ev : MarketEvent) (c : Coords) → gap_coords ev ≡ some c → c.seq ≡ seq_of ev
unfolding gap_coords
gap_coords-seq (control k) c e = control_coords-seq k.kind k.seq c e
gap_coords-seq (trade t) c e = ground arith
gap_coords-seq (quote q) c e = ground arith
gap_coords-seq (bar b) c e = ground arith

absorb_drop-Ordered :
    (rs : List MarketEvent) (q : Option PendingGap) (ev : MarketEvent) (m : Seq)
    → Ordered rs q m
    → m ≤ seq_of ev
    → Ordered rs (absorb_drop q ev) (suc (seq_of ev))
unfolding absorb_drop absorb
absorb_drop-Ordered rs q ev m h k = go q (gap_coords ev) refl h
  where
    go :
        (q : Option PendingGap) (o : Option Coords)
        → gap_coords ev ≡ o
        → Ordered rs q m
        → Ordered rs (absorb_coords q o) (suc (seq_of ev))
    go none none e h = Rising-le 0 rs m (suc (seq_of ev)) h (omega arith)
    go none (some c) e h = (
      Rising-le 0 rs m c.seq h (omega (arith, gap_coords-seq ev c e)),
      omega (arith, gap_coords-seq ev c e),
    )
    go (some p) none e h = (h.0, omega (arith, h.1))
    go (some p) (some c) e h = (h.0, omega (arith, h.1))

Ordered-accept :
    (rs : List MarketEvent) (ev : MarketEvent) (m : Seq)
    → Rising 0 rs m
    → m ≤ seq_of ev
    → Ordered (rs ++ (ev ∷ [])) none (suc (seq_of ev))
Ordered-accept rs ev m h k = Rising-append 0 rs ev m h k

module _ (ch : Channel) where
  abbrev pub IsOrdered : Referrer ch → Seq → Type 0
  IsOrdered r m = Ordered (ch.received r.tx) r.pending m

  module _ (r : Referrer ch) (ev : MarketEvent) (m : Seq) (later : m ≤ seq_of ev) where
    settle-IsOrdered :
        (res : TrySend) (tx : ch.Tx)
        → (res ≡ accepted → ch.received tx ≡ ch.received r.tx ++ (ev ∷ []))
        → (res ≡ full → ch.received tx ≡ ch.received r.tx)
        → r.pending ≡ none
        → IsOrdered r m
        → (settle ch r ev (res, tx)).1 ≡ false
        → IsOrdered (settle ch r ev (res, tx)).0 (suc (seq_of ev))
    unfolding settle
    settle-IsOrdered accepted tx a f e h live =
        rw (a refl, e) (Rising-append 0 (ch.received r.tx) ev m (rw e at h) later)
    settle-IsOrdered full tx a f e h live =
        rw (f refl) (absorb_drop-Ordered (ch.received r.tx) r.pending ev m h later)
    settle-IsOrdered closed tx a f e h live = cc

    offer-IsOrdered :
        r.pending ≡ none
        → IsOrdered r m
        → (offer ch r ev).1 ≡ false
        → IsOrdered (offer ch r ev).0 (suc (seq_of ev))
    unfolding offer
    offer-IsOrdered =
        let (res, tx) = ch.try_send r.tx ev in
        settle-IsOrdered res tx (ch.try_send_accepts r.tx ev) (ch.try_send_full r.tx ev)

  module _ (r : Referrer ch) (p : PendingGap) (ev : MarketEvent) (m : Seq) where
    settle_gap-IsOrdered :
        (res : TrySend) (tx : ch.Tx)
        → m ≤ seq_of ev
        → r.pending ≡ some p
        → (res ≡ accepted → ch.received tx ≡ ch.received r.tx ++ (to_event p ∷ []))
        → (res ≡ full → ch.received tx ≡ ch.received r.tx)
        → IsOrdered r m
        → (settle_gap ch r ev (res, tx)).1 ≡ false
        → IsOrdered (settle_gap ch r ev (res, tx)).0 (suc (seq_of ev))
    unfolding settle_gap to_event
    settle_gap-IsOrdered accepted tx later e a f h live =
        let (rises, before) = rw e at h in
        offer-IsOrdered (record { tx = tx; pending = none }) ev m later refl
          (rw (a refl) (
            Rising-le 0 _ (suc p.first_seq) m
              (Rising-append 0 (ch.received r.tx) (to_event p) p.first_seq rises (omega arith))
              before))
          live
    settle_gap-IsOrdered full tx later e a f h live =
        rw (f refl) (absorb_drop-Ordered (ch.received r.tx) r.pending ev m h later)
    settle_gap-IsOrdered closed tx later e a f h live = cc

  -- A referrer that stays is served in order: an event that is numbered beyond all it has keeps
  -- what it received rising, and any gap it is owed behind that.
  pub serve-IsOrdered :
      (r : Referrer ch) (ev : MarketEvent) (m : Seq)
      → m ≤ seq_of ev
      → IsOrdered r m
      → (serve ch r ev).1 ≡ false
      → IsOrdered (serve ch r ev).0 (suc (seq_of ev))
  unfolding serve
  serve-IsOrdered r ev m later = go r.pending refl
    where
      go :
          (q : Option PendingGap)
          → r.pending ≡ q
          → IsOrdered r m
          → (serve_pending ch r ev q).1 ≡ false
          → IsOrdered (serve_pending ch r ev q).0 (suc (seq_of ev))
      go none e = offer-IsOrdered r ev m later e
      go (some p) e =
          let (res, tx) = ch.try_send r.tx (to_event p) in
          settle_gap-IsOrdered r p ev m res tx later e (ch.try_send_accepts r.tx (to_event p))
            (ch.try_send_full r.tx (to_event p))
