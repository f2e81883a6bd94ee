-- ===== src/Base.antt =====
-- Names the other modules share: the libraries' own, passed on, and those of the children below
-- (Boolean tests, lists, signed 64-bit timestamps, equality as an interface, association lists).
mod Tests
mod Lists
pub mod Int
mod Equality
mod Assoc
pub use Tests.*
pub use Lists.*
pub use Int.{ℤ, pos, negsuc, pos_part, neg_part, ◌≤ℤ◌, ◌<ℤ◌}
pub use Equality.{Eq, ◌==◌, nat_eq, string_eq, beq_refl, ne_of_beq}
unfoldable pub use Assoc.{lookup, insert, remove}
pub use Assoc.{
  lookup-insert, lookup-remove, Absent, IsUnique, insert-IsUnique, remove-IsUnique, remove-Absent,
}
pub use Prim.Native.Nat.{ℕ, zero, suc, ◌+◌, ◌-◌, ◌*◌, ◌/◌, ◌%◌, ◌^◌, ◌≤◌, ◌<◌}
pub use Prim.Native.String.{String}
pub use mathlib.Core.Path.{◌≡◌, refl, sym, ap, subst, ◌∙◌}
pub use mathlib.Core.Logic.{◌≢◌, ◌↔◌, ◌⊎◌, inl, inr}
pub use mathlib.Core.Bool.{Bool, true, false, not, ◌&&◌, ◌||◌}
pub use mathlib.Core.Option.{Option, none, some}
pub use mathlib.Core.List.{List, [], ◌∷◌, ◌++◌, map}
pub use native.Mathlib.Omega.{arith}
