-- ===== src/Core/Quantity.antt =====
-- crates/datamancer-core/src/quantity.rs: sizes in units of 1e-9, in a u64. Its conversions from and
-- to floating point are not modelled.
use datamancer.Base.{ℕ, ◌*◌, ◌≤◌, ◌≡◌, ◌↔◌, arith, if◌then◌else◌, leb}

abbrev pub u64_max : ℕ
u64_max = 18446744073709551615

-- `Quantity::SCALE`
abbrev pub scale : ℕ
scale = 1000000000

-- u64 `saturating_mul`
abbrev saturating_mul : ℕ → ℕ → ℕ
saturating_mul a b = if leb (a * b) u64_max then a * b else u64_max

pub from_units : ℕ → ℕ
from_units units = saturating_mul units scale

-- Whole units become a quantity in the range of a u64 that keeps their order, is exact up to
-- 18446744073 of them, and is the largest quantity beyond that.
pub from_units_lem :
    (a b : ℕ)
    → (from_units a ≤ u64_max)
      × (a ≤ b → from_units a ≤ from_units b)
      × ((from_units a ≡ a * scale) ↔ (a ≤ 18446744073))
      × (18446744074 ≤ a → from_units a ≡ u64_max)
unfolding from_units
from_units_lem a b =
    (ground arith, λ h. ground arith, (λ h. ground arith, λ h. ground arith), λ h. ground arith)
