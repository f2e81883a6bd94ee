-- ===== src/Storage/Coverage/Gaps.antt =====
-- `gaps_within` reports what the segments leave uncovered of a request, in order.
use datamancer.Base.{
  ◌≡◌, refl, Bool, true, false, not, List, [], ◌∷◌, ◌&&◌, ◌||◌, ℤ, ◌≤ℤ◌, ◌<ℤ◌, arith, if◌then◌else◌,
  Bool-cases, inl, inr,
}
use datamancer.Base.Int.{ltb_ℤ, leb_ℤ, min_ℤ, max_ℤ}
use datamancer.Storage.Coverage.{Range, CoverageDoc, gaps_loop, gaps_within}
use datamancer.Storage.Coverage.Merge.{within, covers, Ordered, IsSorted, Ordered-IsSorted}

-- No instant up to the end of `lo` is covered by segments beyond it.
covers-Ordered : (k : ℤ) (s : List Range) (x : ℤ) → Ordered k s → x ≤ℤ k → covers s x ≡ false
unfolding covers
covers-Ordered k [] x o h = refl
covers-Ordered k ((a, b) ∷ rest) x o h = ground (arith, covers-Ordered b rest x)

-- A gap before a segment, and what is uncovered behind it.
within-gap :
    (cursor to a b x : ℤ) (c : Bool)
    → a <ℤ b
    → a <ℤ to
    → cursor <ℤ a
    → (x ≤ℤ b → c ≡ false)
    → within cursor (min_ℤ a to) x || (within (max_ℤ cursor b) to x && not c)
      ≡ within cursor to x && not (within a b x || c)
within-gap cursor to a b x true h k l o = ground arith
within-gap cursor to a b x false h k l o = ground arith

within-no_gap :
    (cursor to a b x : ℤ) (c : Bool)
    → cursor <ℤ b
    → a ≤ℤ cursor
    → (x ≤ℤ b → c ≡ false)
    → (within (max_ℤ cursor b) to x && not c) ≡ within cursor to x && not (within a b x || c)
within-no_gap cursor to a b x true h k o = ground arith
within-no_gap cursor to a b x false h k o = ground arith

-- The same where the segment reaches the end of the request.
within-last_gap :
    (cursor to a b x : ℤ) (c : Bool)
    → a <ℤ to
    → cursor <ℤ b
    → to ≤ℤ max_ℤ cursor b
    → (x ≤ℤ b → c ≡ false)
    → covers (if ltb_ℤ cursor a then (cursor, min_ℤ a to) ∷ [] else []) x
      ≡ within cursor to x && not (within a b x || c)
unfolding covers
within-last_gap cursor to a b x true h k l o = ground arith
within-last_gap cursor to a b x false h k l o = ground arith

covers-gaps_loop :
    (s : List Range) (cursor to x : ℤ)
    → IsSorted s
    → covers (gaps_loop s cursor to) x ≡ within cursor to x && not (covers s x)
unfolding gaps_loop covers
covers-gaps_loop [] cursor to x o = ground arith
covers-gaps_loop ((a, b) ∷ rest) cursor to x o =
    let later = Ordered-IsSorted b rest o.1 in
    let none_before = covers-Ordered b rest x o.1 in
    elim (Bool-cases (leb_ℤ b cursor)) [
      | inl past ↦ rw past (rw (covers-gaps_loop rest cursor to x later) (ground arith))
      | inr keep ↦ elim (Bool-cases (leb_ℤ to a)) [
        | inl stop ↦ rw (keep, stop) (ground (arith, none_before))
        | inr go ↦ elim (Bool-cases (leb_ℤ to (max_ℤ cursor b))) [
          | inl last ↦
              rw (keep, go, last)
                (within-last_gap cursor to a b x (covers rest x) (ground arith) (ground arith)
                  (ground arith) none_before)
          | inr more ↦ elim (Bool-cases (ltb_ℤ cursor a)) [
            | inl gap ↦
                rw (keep, go, more, gap)
                  (rw (covers-gaps_loop rest (max_ℤ cursor b) to x later) (
                    within-gap cursor to a b x (covers rest x) o.0 (ground arith) (ground arith)
                      none_before))
            | inr flush ↦
                rw (keep, go, more, flush)
                  (rw (covers-gaps_loop rest (max_ℤ cursor b) to x later) (
                    within-no_gap cursor to a b x (covers rest x) (ground arith) (ground arith)
                      none_before))
          ]
        ]
      ]
    ]

-- The gaps are not empty, in order, disjoint, and inside [lo, hi).
abbrev pub Tiles : ℤ → ℤ → List Range → Type 0
Tiles lo hi [] = Unit
Tiles lo hi ((a, b) ∷ rest) = (lo ≤ℤ a) × (a <ℤ b) × (b ≤ℤ hi) × Tiles b hi rest

Tiles-mono : (j k hi : ℤ) (s : List Range) → j ≤ℤ k → Tiles k hi s → Tiles j hi s
Tiles-mono j k hi [] h t = tt
Tiles-mono j k hi ((a, b) ∷ rest) h t = (omega arith, t.1, t.2, t.3)

gaps_loop-Tiles :
    (s : List Range) (cursor to : ℤ) → IsSorted s → Tiles cursor to (gaps_loop s cursor to)
unfolding gaps_loop
gaps_loop-Tiles [] cursor to o = ground arith
gaps_loop-Tiles ((a, b) ∷ rest) cursor to o = ground (
  arith,
  gaps_loop-Tiles rest cursor to,
  gaps_loop-Tiles rest (max_ℤ cursor b) to,
  Ordered-IsSorted b rest o.1,
  Tiles-mono cursor (max_ℤ cursor b) to (gaps_loop rest (max_ℤ cursor b) to),
  Tiles-mono (min_ℤ a to) (max_ℤ cursor b) to (gaps_loop rest (max_ℤ cursor b) to),
)

-- For sorted segments, an instant lies in a reported gap exactly when it lies in the request
-- [from, to) and in no segment; and the gaps are not empty, in order, disjoint and inside the
-- request.
pub gaps_within_lem :
    (c : CoverageDoc) (from to : ℤ)
    → IsSorted c.segments
    → ((x : ℤ) → covers (gaps_within c from to) x ≡ within from to x && not (covers c.segments x))
      × Tiles from to (gaps_within c from to)
unfolding gaps_within covers
gaps_within_lem c from to o = (
  λ x. ground (arith, covers-gaps_loop c.segments from to x o),
  ground (arith, gaps_loop-Tiles c.segments from to o),
)
