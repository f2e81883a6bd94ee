-- ===== src/Session/Tile.antt =====
-- crates/datamancer/src/session.rs: the plan of a historical request, `Segment`, `tile` and
-- `confirmed_prefix_end`.
pub mod Partition
use datamancer.Base.{List, [], ◌∷◌, ◌++◌, Option, none, some, if◌then◌else◌}
use datamancer.Base.Int.{ltb_ℤ, max_ℤ, min_ℤ}
use datamancer.Core.Event.{Timestamp, GapSpan, next_ts}

pub data Segment : Type 0 where
  covered : (from to : Timestamp) → Segment
  gap : (from to : Timestamp) → Segment

-- The loop of `tile` from `cursor`, with the push after it.
unfoldable pub tile_loop : Timestamp → Timestamp → List GapSpan → List Segment
tile_loop cursor to [] = if ltb_ℤ cursor to then covered cursor to ∷ [] else []
tile_loop cursor to (g ∷ gaps) =
    (if ltb_ℤ cursor g.from_source_ts then covered cursor g.from_source_ts ∷ [] else [])
    ++ ((if ltb_ℤ g.from_source_ts g.to_source_ts
          then gap g.from_source_ts g.to_source_ts ∷ []
          else [])
        ++ tile_loop (max_ℤ cursor g.to_source_ts) to gaps)

unfoldable pub tile : Timestamp → Timestamp → List GapSpan → List Segment
unfolding tile_loop
tile from to gaps = tile_loop from to gaps

-- `Ord::clamp`, for lo ≤ hi
abbrev clamp : Timestamp → Timestamp → Timestamp → Timestamp
clamp x lo hi = if ltb_ℤ x lo then lo else if ltb_ℤ hi x then hi else x

pub confirmed_prefix_end : Option Timestamp → Timestamp → Timestamp → Timestamp
confirmed_prefix_end none f t = f
confirmed_prefix_end (some m) f t = clamp (next_ts m) f t
