-- ===== src/Examples/Planning.antt =====
-- Coverage and plans of a small document.
use datamancer.Base.{
  ◌↔◌, ◌≡◌, ◌⊎◌, not, ◌&&◌, ◌||◌, none, some, List, [], ◌∷◌, ℤ, pos, ◌≤ℤ◌, ◌<ℤ◌, arith,
}
use datamancer.Core.Event.{Timestamp, i64_max}
use datamancer.Storage.Coverage.{Range, CoverageDoc, merge_in, gaps_within, intersect}
use datamancer.Storage.Coverage.Merge.{within, covers, IsSorted, merge_in_lem}
use datamancer.Storage.Coverage.Gaps.{Tiles, gaps_within_lem}
use datamancer.Storage.Coverage.Widest.{IsBound, best_size, IsOverlap, intersect_lem}
use datamancer.Storage.Turso.{to_spans}
use datamancer.Storage.Turso
use datamancer.Session.Tile.{tile, confirmed_prefix_end}
use datamancer.Session.Tile.Partition.{
  Chain, served, fetched, tile-gaps, confirmed_prefix_end_lem, IsShown,
}

abbrev two_days : CoverageDoc
two_days = record {
  segments = (pos 10, pos 20) ∷ (pos 30, pos 40) ∷ [];
  event_count = 7;
  asset_class = none;
}

two_days-IsSorted : IsSorted two_days.segments
two_days-IsSorted = (omega arith, (omega arith, omega arith, tt))

merge_in_lem_example :
    IsSorted (merge_in two_days (pos 15) (pos 32) 5).segments
    × ((x : ℤ)
        → covers (merge_in two_days (pos 15) (pos 32) 5).segments x
          ≡ within (pos 15) (pos 32) x || covers two_days.segments x)
merge_in_lem_example = merge_in_lem two_days (pos 15) (pos 32) 5 two_days-IsSorted

gaps_within_lem_example :
    ((x : ℤ)
      → covers (gaps_within two_days (pos 0) (pos 35)) x
        ≡ within (pos 0) (pos 35) x && not (covers two_days.segments x))
    × Tiles (pos 0) (pos 35) (gaps_within two_days (pos 0) (pos 35))
gaps_within_lem_example = gaps_within_lem two_days (pos 0) (pos 35) two_days-IsSorted

intersect_lem_example :
    IsBound (best_size (intersect two_days (pos 12) (pos 33))) (pos 12) (pos 33) two_days.segments
    × ((intersect two_days (pos 12) (pos 33) ≡ none)
        ⊎ ((lo : ℤ) × (hi : ℤ) × (intersect two_days (pos 12) (pos 33) ≡ some (lo, hi))
            × (lo <ℤ hi)
            × IsOverlap (lo, hi) (pos 12) (pos 33) two_days.segments))
intersect_lem_example = intersect_lem two_days (pos 12) (pos 33)

abbrev one_gap : List Range
one_gap = (pos 20, pos 30) ∷ []

one_gap-Tiles : Tiles (pos 10) (pos 40) one_gap
one_gap-Tiles = (omega arith, omega arith, omega arith, tt)

tile-gaps_example :
    Chain (pos 0) (pos 35) (tile (pos 0) (pos 35) (Turso.gaps (some two_days) (pos 0) (pos 35)))
    × ((x : Timestamp)
        → served (tile (pos 0) (pos 35) (Turso.gaps (some two_days) (pos 0) (pos 35))) x
          ≡ within (pos 0) (pos 35) x && covers two_days.segments x)
    × ((x : Timestamp)
        → fetched (tile (pos 0) (pos 35) (Turso.gaps (some two_days) (pos 0) (pos 35))) x
          ≡ within (pos 0) (pos 35) x && not (covers two_days.segments x))
tile-gaps_example = tile-gaps two_days (pos 0) (pos 35) two_days-IsSorted (omega arith)

confirmed_prefix_end_lem_example :
    (pos 10 ≤ℤ confirmed_prefix_end (some (pos 25)) (pos 10) (pos 40))
    × (confirmed_prefix_end (some (pos 25)) (pos 10) (pos 40) ≤ℤ pos 40)
    × ((x : Timestamp)
        → pos 10 ≤ℤ x
        → x <ℤ pos 40
        → x <ℤ i64_max
        → (x <ℤ confirmed_prefix_end (some (pos 25)) (pos 10) (pos 40)) ↔ IsShown (some (pos 25)) x)
confirmed_prefix_end_lem_example =
    confirmed_prefix_end_lem (some (pos 25)) (pos 10) (pos 40) (omega arith)
