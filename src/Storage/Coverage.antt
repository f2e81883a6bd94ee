-- ===== src/Storage/Coverage.antt =====
-- crates/datamancer/src/storage/coverage.rs: the covered segments of one cache key, as sorted,
-- disjoint half-open ranges [from, to) of nanoseconds. Loops over the segments are recursions on
-- the list, with the loop's variables as arguments.
pub mod Merge
pub mod Gaps
pub mod Widest
use datamancer.Base.{
  ℕ, ◌+◌, Bool, true, false, Option, none, some, List, [], ◌∷◌, ◌&&◌, String, ℤ, if◌then◌else◌, leb,
}
use datamancer.Base.Int.{◌-ℤ◌, ltb_ℤ, leb_ℤ, min_ℤ, max_ℤ}

abbrev pub Range : Type 0
Range = ℤ × ℤ

pub record CoverageDoc : Type 0 where
  pub segments : List Range
  pub event_count : ℕ
  pub asset_class : Option String

abbrev pub u64_max : ℕ
u64_max = 18446744073709551615

-- The loop of `merge_in`: `lo`, `hi` are `new_seg`, and the result is what is pushed to `merged`,
-- the push after the loop included.
pub merge_loop : List Range → ℤ → ℤ → Bool → List Range
merge_loop [] lo hi consumed = if consumed then [] else (lo, hi) ∷ []
merge_loop ((a, b) ∷ rest) lo hi consumed =
    let skipped = (a, b) ∷ merge_loop rest lo hi consumed in
    let after = (a, b) ∷ merge_loop rest lo hi true in
    let placed = if consumed then after else (lo, hi) ∷ after in
    let widened = merge_loop rest (min_ℤ lo a) (max_ℤ hi b) consumed in
    if ltb_ℤ b lo then skipped else if ltb_ℤ hi a then placed else widened

-- u64 `saturating_add`
abbrev saturating_add : ℕ → ℕ → ℕ
saturating_add a b = if leb (a + b) u64_max then a + b else u64_max

pub merge_in : CoverageDoc → ℤ → ℤ → ℕ → CoverageDoc
unfolding merge_loop
merge_in c from to added_events = if leb_ℤ to from then c else record c {
  event_count = saturating_add c.event_count added_events;
  segments = merge_loop c.segments from to false;
}

-- `best.is_none_or(…)`, with the width of a range in i128
abbrev wider : Option Range → ℤ → Bool
wider none width = true
wider (some (lo, hi)) width = ltb_ℤ (hi -ℤ lo) width

pub intersect_loop : List Range → ℤ → ℤ → Option Range → Option Range
intersect_loop [] from to best = best
intersect_loop ((a, b) ∷ rest) from to best =
    let lo = max_ℤ a from in
    let hi = min_ℤ b to in
    intersect_loop rest from to
      (if ltb_ℤ lo hi && wider best (hi -ℤ lo) then some (lo, hi) else best)

pub intersect : CoverageDoc → ℤ → ℤ → Option Range
unfolding intersect_loop
intersect c from to = intersect_loop c.segments from to none

-- The loop of `gaps_within` from `cursor`, with the push after it. `break` and `continue` are the
-- branches that leave out the rest of the body.
pub gaps_loop : List Range → ℤ → ℤ → List Range
gaps_loop [] cursor to = if ltb_ℤ cursor to then (cursor, to) ∷ [] else []
gaps_loop ((a, b) ∷ rest) cursor to =
    let skipped = gaps_loop rest cursor to in
    let stopped = if ltb_ℤ cursor to then (cursor, to) ∷ [] else [] in
    let cursor' = max_ℤ cursor b in
    let after = if leb_ℤ to cursor' then [] else gaps_loop rest cursor' to in
    if leb_ℤ b cursor
    then skipped
    else if leb_ℤ to a
    then stopped
    else if ltb_ℤ cursor a
    then (cursor, min_ℤ a to) ∷ after
    else after

pub gaps_within : CoverageDoc → ℤ → ℤ → List Range
unfolding gaps_loop
gaps_within c from to = if leb_ℤ to from then [] else gaps_loop c.segments from to
