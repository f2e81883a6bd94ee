-- ===== src/Storage/Coverage/Widest.antt =====
-- `intersect` finds the widest overlap of a request with one segment.
use datamancer.Base.{
  ℕ, ◌+◌, ◌-◌, ◌≤◌, ◌≡◌, refl, List, [], ◌∷◌, ◌&&◌, ℤ, ◌<ℤ◌, pos_part, neg_part, arith, Option,
  none, some, ◌⊎◌, inl, inr, if◌then◌else◌, ◌∙◌,
}
use datamancer.Base.Int.{◌-ℤ◌, -ℤ_parts, ltb_ℤ, min_ℤ, max_ℤ}
use datamancer.Storage.Coverage.{Range, CoverageDoc, wider, intersect_loop, intersect}

-- The number of instants in [lo, hi).
abbrev pub size : ℤ → ℤ → ℕ
size lo hi = (pos_part hi + neg_part lo) - (pos_part lo + neg_part hi)

abbrev pub best_size : Option Range → ℕ
best_size none = 0
best_size (some (lo, hi)) = size lo hi

-- No overlap of [from, to) with a segment has more than `n` instants.
abbrev pub IsBound : ℕ → ℤ → ℤ → List Range → Type 0
IsBound n from to [] = Unit
IsBound n from to ((a, b) ∷ rest) = (size (max_ℤ a from) (min_ℤ b to) ≤ n) × IsBound n from to rest

-- The range is the overlap of [from, to) with one of the segments.
abbrev pub IsOverlap : Range → ℤ → ℤ → List Range → Type 0
IsOverlap r from to [] = ⊥
IsOverlap r from to ((a, b) ∷ rest) = (r ≡ (max_ℤ a from, min_ℤ b to)) ⊎ IsOverlap r from to rest

abbrev IsProper : Option Range → Type 0
IsProper none = Unit
IsProper (some (lo, hi)) = lo <ℤ hi

abbrev better : Option Range → ℤ → ℤ → Option Range
better best lo hi = if ltb_ℤ lo hi && wider best (hi -ℤ lo) then some (lo, hi) else best

better_lem :
    (best : Option Range) (lo hi : ℤ)
    → IsProper best
    → IsProper (better best lo hi)
      × (best_size best ≤ best_size (better best lo hi))
      × (size lo hi ≤ best_size (better best lo hi))
      × ((better best lo hi ≡ best) ⊎ (better best lo hi ≡ some (lo, hi)))
better_lem none lo hi p = ground (arith, -ℤ_parts hi lo)
better_lem (some (l, h)) lo hi p = ground (arith, -ℤ_parts hi lo, -ℤ_parts h l)

intersect_loop_lem :
    (s : List Range) (from to : ℤ) (best : Option Range)
    → IsProper best
    → let r = intersect_loop s from to best in
      IsProper r
      × (best_size best ≤ best_size r)
      × IsBound (best_size r) from to s
      × ((r ≡ best) ⊎ ((x : Range) × (r ≡ some x) × IsOverlap x from to s))
unfolding intersect_loop
intersect_loop_lem [] from to best p = (p, omega arith, tt, inl refl)
intersect_loop_lem ((a, b) ∷ rest) from to best p =
    let (q, grows, fits, choice) = better_lem best (max_ℤ a from) (min_ℤ b to) p in
    let (q', grows', bound, origin) =
      intersect_loop_lem rest from to (better best (max_ℤ a from) (min_ℤ b to)) q in
    (
      q',
      omega arith,
      (omega arith, bound),
      elim origin [
        | inr (x, e, m) ↦ inr (x, e, inr m)
        | inl same ↦ elim choice [
          | inl kept ↦ inl (same ∙ kept)
          | inr taken ↦ inr ((max_ℤ a from, min_ℤ b to), same ∙ taken, inl refl)
        ]
      ],
    )

-- The answer is `none` exactly when no segment shares an instant with [from, to). Otherwise it is
-- the overlap of [from, to) with a segment, is not empty, and no other overlap is wider.
pub intersect_lem :
    (c : CoverageDoc) (from to : ℤ)
    → IsBound (best_size (intersect c from to)) from to c.segments
      × ((intersect c from to ≡ none)
          ⊎ ((lo : ℤ) × (hi : ℤ) × (intersect c from to ≡ some (lo, hi))
              × (lo <ℤ hi)
              × IsOverlap (lo, hi) from to c.segments))
unfolding intersect
intersect_lem c from to =
    let (proper, _, bound, origin) = intersect_loop_lem c.segments from to none tt in
    (
      bound,
      elim origin [ inl e ↦ inl e | inr ((lo, hi), e, m) ↦ inr (lo, hi, e, rw e at proper, m) ],
    )
