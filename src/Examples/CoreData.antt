-- ===== src/Examples/CoreData.antt =====
-- The shared types, at concrete values.
use datamancer.Base.{◌*◌, ◌≤◌, ◌≡◌, ◌↔◌, some}
use datamancer.Core.Adjustment.{as_str, from_token, spin_off, from_token_iff}
use datamancer.Core.Quantity.{from_units, u64_max, scale, from_units_lem}

from_token_iff_example : (from_token "spinoff" ≡ some spin_off) ↔ (as_str spin_off ≡ "spinoff")
from_token_iff_example = from_token_iff "spinoff" spin_off

from_units_lem_example :
    (from_units 100 ≤ u64_max)
    × (100 ≤ 20000000000 → from_units 100 ≤ from_units 20000000000)
    × ((from_units 100 ≡ 100 * scale) ↔ (100 ≤ 18446744073))
    × (18446744074 ≤ 100 → from_units 100 ≡ u64_max)
from_units_lem_example = from_units_lem 100 20000000000
