-- ===== src/Storage/Coverage/Merge.antt =====
-- `merge_in` keeps the segments sorted and covers exactly what was covered or added.
use datamancer.Base.{
  ℕ, ◌≡◌, refl, Bool, true, false, List, [], ◌∷◌, ◌&&◌, ◌||◌, ℤ, ◌≤ℤ◌, ◌<ℤ◌, arith, Bool-cases, inl,
  inr, or_swap, or_assoc,
}
use datamancer.Base.Int.{ltb_ℤ, leb_ℤ, min_ℤ, max_ℤ}
use datamancer.Storage.Coverage.{Range, CoverageDoc, merge_loop, merge_in}

-- The instants x with lo ≤ x < hi.
abbrev pub within : ℤ → ℤ → ℤ → Bool
within lo hi x = leb_ℤ lo x && ltb_ℤ x hi

-- The instants that some segment holds.
unfoldable pub covers : List Range → ℤ → Bool
covers [] x = false
covers ((a, b) ∷ rest) x = within a b x || covers rest x

-- Not empty, disjoint, not touching, in order, and all beyond `lo`.
abbrev pub Ordered : ℤ → List Range → Type 0
Ordered lo [] = Unit
Ordered lo ((a, b) ∷ rest) = (lo <ℤ a) × (a <ℤ b) × Ordered b rest

abbrev pub IsSorted : List Range → Type 0
IsSorted [] = Unit
IsSorted ((a, b) ∷ rest) = (a <ℤ b) × Ordered b rest

Ordered-mono : (j k : ℤ) (s : List Range) → j ≤ℤ k → Ordered k s → Ordered j s
Ordered-mono j k [] h o = tt
Ordered-mono j k ((a, b) ∷ rest) h o = (omega arith, o.1, o.2)

pub Ordered-IsSorted : (k : ℤ) (s : List Range) → Ordered k s → IsSorted s
Ordered-IsSorted k [] o = tt
Ordered-IsSorted k ((a, b) ∷ rest) o = (o.1, o.2)

-- Once the new range is placed, the segments that are left lie beyond it and are kept.
merge_loop-consumed :
    (s : List Range) (lo hi : ℤ) → lo <ℤ hi → Ordered hi s → merge_loop s lo hi true ≡ s
unfolding merge_loop
merge_loop-consumed [] lo hi h o = refl
merge_loop-consumed ((a, b) ∷ rest) lo hi h o =
    ground (arith, merge_loop-consumed rest lo hi h (Ordered-mono hi b rest (omega arith) o.2))

merge_loop-Ordered :
    (k : ℤ) (s : List Range) (lo hi : ℤ)
    → k <ℤ lo
    → lo <ℤ hi
    → Ordered k s
    → Ordered k (merge_loop s lo hi false)
unfolding merge_loop
merge_loop-Ordered k [] lo hi kl h o = (kl, h, tt)
merge_loop-Ordered k ((a, b) ∷ rest) lo hi kl h o = ground (
  arith,
  merge_loop-Ordered b rest lo hi,
  merge_loop-consumed rest lo hi h,
  Ordered-mono hi b rest,
  Ordered-mono k b rest,
  merge_loop-Ordered k rest (min_ℤ lo a) (max_ℤ hi b),
)

merge_loop-IsSorted :
    (s : List Range) (lo hi : ℤ) → lo <ℤ hi → IsSorted s → IsSorted (merge_loop s lo hi false)
unfolding merge_loop
merge_loop-IsSorted [] lo hi h o = (h, tt)
merge_loop-IsSorted ((a, b) ∷ rest) lo hi h o = ground (
  arith,
  merge_loop-Ordered b rest lo hi,
  merge_loop-consumed rest lo hi h,
  Ordered-mono hi b rest,
  Ordered-IsSorted b rest o.1,
  merge_loop-IsSorted rest (min_ℤ lo a) (max_ℤ hi b),
)

-- Two ranges that meet or touch cover what their hull covers.
within-hull :
    (lo hi a b x : ℤ)
    → lo <ℤ hi
    → a <ℤ b
    → ltb_ℤ b lo ≡ false
    → ltb_ℤ hi a ≡ false
    → within (min_ℤ lo a) (max_ℤ hi b) x ≡ within lo hi x || within a b x
within-hull lo hi a b x h k p q = ground arith

covers-merge_loop :
    (s : List Range) (lo hi x : ℤ)
    → lo <ℤ hi
    → IsSorted s
    → covers (merge_loop s lo hi false) x ≡ within lo hi x || covers s x
unfolding merge_loop covers
covers-merge_loop [] lo hi x h o = refl
covers-merge_loop ((a, b) ∷ rest) lo hi x h o = elim (Bool-cases (ltb_ℤ b lo)) [
  | inl skip ↦ rw skip (
      rw (covers-merge_loop rest lo hi x h (Ordered-IsSorted b rest o.1))
        (or_swap (within a b x) (within lo hi x) (covers rest x)))
  | inr keep ↦ elim (Bool-cases (ltb_ℤ hi a)) [
    | inl place ↦
        rw (keep, place)
          (rw (merge_loop-consumed rest lo hi h (Ordered-mono hi b rest (ground arith) o.1)))
    | inr widen ↦
        rw (keep, widen)
          (rw
            (covers-merge_loop rest (min_ℤ lo a) (max_ℤ hi b) x (ground arith)
              (Ordered-IsSorted b rest o.1))
            (rw (within-hull lo hi a b x h o.0 keep widen)
              (or_assoc (within lo hi x) (within a b x) (covers rest x))))
  ]
]

-- Merging a range into sorted segments leaves sorted segments, which cover an instant exactly when
-- the old segments did or the range [from, to) does; an empty range changes nothing.
pub merge_in_lem :
    (c : CoverageDoc) (from to : ℤ) (added : ℕ)
    → IsSorted c.segments
    → IsSorted (merge_in c from to added).segments
      × ((x : ℤ)
          → covers (merge_in c from to added).segments x ≡ within from to x || covers c.segments x)
unfolding merge_in
merge_in_lem c from to added o = (
  ground (arith, merge_loop-IsSorted c.segments from to),
  λ x. ground (arith, covers-merge_loop c.segments from to x),
)
