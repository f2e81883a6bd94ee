-- ===== src/Session/Tile/Partition.antt =====
-- The plan of a request partitions it.
use datamancer.Base.{
  Option, none, some, ◌↔◌, ◌≡◌, refl, Bool, true, false, not, List, [], ◌∷◌, ◌&&◌, ◌||◌, ◌≤ℤ◌, ◌<ℤ◌,
  arith, Bool-cases, inl, inr, some, lt→ltb, ap, ◌∙◌,
}
use datamancer.Base.Int.{ltb_ℤ, eq_of_parts, ◌+ℤ◌, max_of_le}
use datamancer.Core.Event.{Timestamp, i64_max}
use datamancer.Storage.Coverage.{Range, CoverageDoc, gaps_within}
use datamancer.Storage.Coverage.Merge.{within, covers, IsSorted}
use datamancer.Storage.Coverage.Gaps.{Tiles, gaps_within_lem}
use datamancer.Storage.Turso
use datamancer.Storage.Turso.{to_spans, no_coverage}
use datamancer.Session.Tile.{Segment, covered, gap, tile_loop, tile, confirmed_prefix_end}

abbrev pub start : Segment → Timestamp
start (covered a b) = a
start (gap a b) = a

abbrev pub stop : Segment → Timestamp
stop (covered a b) = b
stop (gap a b) = b

-- The segments are not empty, and each begins where the one before ends, from `lo` to `hi`.
abbrev pub Chain : Timestamp → Timestamp → List Segment → Type 0
Chain lo hi [] = lo ≡ hi
Chain lo hi (s ∷ rest) = (start s ≡ lo) × (start s <ℤ stop s) × Chain (stop s) hi rest

-- The instants of the covered segments, and of the gap segments.
abbrev pub served : List Segment → Timestamp → Bool
served [] x = false
served (covered a b ∷ rest) x = within a b x || served rest x
served (gap a b ∷ rest) x = served rest x

abbrev pub fetched : List Segment → Timestamp → Bool
fetched [] x = false
fetched (covered a b ∷ rest) x = fetched rest x
fetched (gap a b ∷ rest) x = within a b x || fetched rest x

tile_loop-Chain :
    (lo hi : Timestamp) (gaps : List Range)
    → lo ≤ℤ hi
    → Tiles lo hi gaps
    → Chain lo hi (tile_loop lo hi (to_spans gaps))
unfolding tile_loop
tile_loop-Chain lo hi [] h t = ground (arith, eq_of_parts lo hi)
tile_loop-Chain lo hi ((a, b) ∷ gaps) h t =
    ground (arith, tile_loop-Chain b hi gaps t.2 t.3, eq_of_parts lo a)

tile_loop-fetched :
    (lo hi x : Timestamp) (gaps : List Range)
    → Tiles lo hi gaps
    → fetched (tile_loop lo hi (to_spans gaps)) x ≡ covers gaps x
unfolding tile_loop covers
tile_loop-fetched lo hi x [] t = ground arith
tile_loop-fetched lo hi x ((a, b) ∷ gaps) t = elim (Bool-cases (ltb_ℤ lo a)) [
  | inl wide ↦
      rw (wide, lt→ltb _ _ t.1)
        (rw (max_of_le lo b (omega arith))
          (ap (◌||◌ (within a b x)) (tile_loop-fetched b hi x gaps t.3)))
  | inr flush ↦
      rw (flush, lt→ltb _ _ t.1)
        (rw (max_of_le lo b (omega arith))
          (ap (◌||◌ (within a b x)) (tile_loop-fetched b hi x gaps t.3)))
]

covers-Tiles :
    (lo hi x : Timestamp) (gaps : List Range) → Tiles lo hi gaps → x <ℤ lo → covers gaps x ≡ false
unfolding covers
covers-Tiles lo hi x [] t h = refl
covers-Tiles lo hi x ((a, b) ∷ gaps) t h = ground (arith, covers-Tiles b hi x gaps t.3)

-- What is covered before and behind a gap.
within-cut :
    (lo a b hi x : Timestamp) (c : Bool)
    → a <ℤ b
    → b ≤ℤ hi
    → lo <ℤ a
    → (x <ℤ b → c ≡ false)
    → within lo a x || (within b hi x && not c) ≡ within lo hi x && not (within a b x || c)
within-cut lo a b hi x true h k l o = ground arith
within-cut lo a b hi x false h k l o = ground arith

within-behind :
    (lo a b hi x : Timestamp) (c : Bool)
    → a <ℤ b
    → b ≤ℤ hi
    → lo ≤ℤ a
    → a ≤ℤ lo
    → (x <ℤ b → c ≡ false)
    → (within b hi x && not c) ≡ within lo hi x && not (within a b x || c)
within-behind lo a b hi x true h k l m o = ground arith
within-behind lo a b hi x false h k l m o = ground arith

tile_loop-served :
    (lo hi x : Timestamp) (gaps : List Range)
    → Tiles lo hi gaps
    → served (tile_loop lo hi (to_spans gaps)) x ≡ within lo hi x && not (covers gaps x)
unfolding tile_loop covers
tile_loop-served lo hi x [] t = ground arith
tile_loop-served lo hi x ((a, b) ∷ gaps) t =
    let none_before = covers-Tiles b hi x gaps t.3 in
    elim (Bool-cases (ltb_ℤ lo a)) [
      | inl wide ↦
          rw (wide, lt→ltb _ _ t.1)
            (rw (max_of_le lo b (omega arith)) (
              rw (tile_loop-served b hi x gaps t.3)
                (within-cut lo a b hi x (covers gaps x) t.1 t.2 (ground arith) none_before)))
      | inr flush ↦
          rw (flush, lt→ltb _ _ t.1)
            (rw (max_of_le lo b (omega arith)) (
              rw (tile_loop-served b hi x gaps t.3)
                (within-behind lo a b hi x (covers gaps x) t.1 t.2 t.0 (ground arith) none_before)))
    ]

-- For a request [from, to) and the gaps a cache reports inside it (not empty, in order, disjoint),
-- the plan is a chain of segments that are not empty, each beginning where the one before ends,
-- from `from` to `to`; its gap segments hold exactly the instants of the reported gaps, and its
-- covered segments the rest of the request.
pub tile-Chain :
    (from to : Timestamp) (gaps : List Range)
    → from ≤ℤ to
    → Tiles from to gaps
    → Chain from to (tile from to (to_spans gaps))
      × ((x : Timestamp) → fetched (tile from to (to_spans gaps)) x ≡ covers gaps x)
      × ((x : Timestamp)
          → served (tile from to (to_spans gaps)) x ≡ within from to x && not (covers gaps x))
unfolding tile
tile-Chain from to gaps h t = (
  tile_loop-Chain from to gaps h t,
  λ x. tile_loop-fetched from to x gaps t,
  λ x. tile_loop-served from to x gaps t,
)

double_not : (a b c : Bool) → a ≡ (b && not c) → (b && not a) ≡ (b && c)
double_not a b c h = ground arith

-- Planned over the sorted segments of the SQLite cache's coverage document, a request is cut so
-- that an instant is replayed from the cache exactly when the document covers it, and fetched from
-- the provider exactly when it lies in the request and is not covered.
pub tile-gaps :
    (c : CoverageDoc) (from to : Timestamp)
    → IsSorted c.segments
    → from ≤ℤ to
    → Chain from to (tile from to (Turso.gaps (some c) from to))
      × ((x : Timestamp)
          → served (tile from to (Turso.gaps (some c) from to)) x
            ≡ within from to x && covers c.segments x)
      × ((x : Timestamp)
          → fetched (tile from to (Turso.gaps (some c) from to)) x
            ≡ within from to x && not (covers c.segments x))
unfolding Turso.gaps
tile-gaps c from to o h =
    let (cover, inside) = gaps_within_lem c from to o in
    let (chain, fetch, serve) = tile-Chain from to (gaps_within c from to) h inside in
    (chain, λ x. serve x ∙ double_not _ _ _ (cover x), λ x. fetch x ∙ cover x)

-- The last data event of a fetch came at `x` or later.
abbrev pub IsShown : Option Timestamp → Timestamp → Type 0
IsShown none x = ⊥
IsShown (some m) x = x ≤ℤ m

-- The confirmed end of a fetch of [f, t), by the time of its latest data event, stays in the range;
-- and an instant of the range, below the greatest i64, is before it exactly if the fetch has shown
-- a data event at that instant or later. So a fetch without data confirms nothing.
pub confirmed_prefix_end_lem :
    (m : Option Timestamp) (f t : Timestamp)
    → f ≤ℤ t
    → (f ≤ℤ confirmed_prefix_end m f t)
      × (confirmed_prefix_end m f t ≤ℤ t)
      × ((x : Timestamp)
          → f ≤ℤ x
          → x <ℤ t
          → x <ℤ i64_max
          → (x <ℤ confirmed_prefix_end m f t) ↔ IsShown m x)
unfolding confirmed_prefix_end ◌+ℤ◌
confirmed_prefix_end_lem none f t h = (omega arith, h, λ x a b c. (λ l. omega arith, λ l. absurd l))
confirmed_prefix_end_lem (some m) f t h =
    (ground arith, ground arith, λ x a b c. (λ l. ground arith, λ l. ground arith))
