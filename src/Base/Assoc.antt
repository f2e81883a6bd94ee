-- ===== src/Base/Assoc.antt =====
-- A hash map as an association list with at most one entry for a key. The program never relies on
-- the order in which a map is iterated.
use mathlib.Core.Path.{◌≡◌, refl, subst}
use mathlib.Core.Logic.{◌≢◌, inl, inr}
use mathlib.Core.Option.{Option, none, some}
use mathlib.Core.List.{List, [], ◌∷◌}
use native.Mathlib.Omega.{arith}
use datamancer.Base.Tests.{if◌then◌else◌, Bool-cases}
use datamancer.Base.Equality.{Eq, ◌==◌, ne_of_beq}

module _ {ℓ κ} {K : Type ℓ} {V : Type κ} ⦃e : Eq K⦄ where
  -- HashMap::get
  unfoldable pub lookup : K → List (K × V) → Option V
  lookup k [] = none
  lookup k ((i, old) ∷ m) = if i == k then some old else lookup k m

  -- HashMap::insert, which overwrites
  unfoldable pub insert : K → V → List (K × V) → List (K × V)
  insert k new [] = (k, new) ∷ []
  insert k new ((i, old) ∷ m) = if i == k then (k, new) ∷ m else (i, old) ∷ insert k new m

  -- HashMap::remove
  unfoldable pub remove : K → List (K × V) → List (K × V)
  remove k [] = []
  remove k ((j, v) ∷ m) = let rest = remove k m in if j == k then rest else (j, v) ∷ rest

  pub lookup-insert :
      (k asked : K) (new : V) (m : List (K × V))
      → lookup asked (insert k new m) ≡ (if k == asked then some new else lookup asked m)
  unfolding lookup insert
  lookup-insert k asked new [] = refl
  lookup-insert k asked new ((i, old) ∷ m) =
      ground
        (arith, lookup-insert k asked new m, e.beq_iff i k, e.beq_iff i asked, e.beq_iff k asked)

  pub lookup-remove :
      (k j : K) (m : List (K × V)) → lookup j (remove k m) ≡ (if k == j then none else lookup j m)
  unfolding lookup remove
  lookup-remove k j [] = ground arith
  lookup-remove k j ((i, v) ∷ m) =
      ground (arith, lookup-remove k j m, e.beq_iff i k, e.beq_iff i j, e.beq_iff k j)

  -- No entry for the key.
  abbrev pub Absent : K → List (K × V) → Type ℓ
  Absent k [] = Unit
  Absent k ((j, v) ∷ m) = (k ≢ j) × Absent k m

  -- Each key has one entry.
  abbrev pub IsUnique : List (K × V) → Type ℓ
  IsUnique [] = Unit
  IsUnique ((j, v) ∷ m) = Absent j m × IsUnique m

  pub insert-Absent :
      (k j : K) (v : V) (m : List (K × V)) → k ≢ j → Absent k m → Absent k (insert j v m)
  unfolding insert
  insert-Absent k j v [] n a = (n, tt)
  insert-Absent k j v ((i, w) ∷ m) n a = ground (arith, insert-Absent k j v m n a.1)

  pub remove-Absent : (k j : K) (m : List (K × V)) → Absent k m → Absent k (remove j m)
  unfolding remove
  remove-Absent k j [] a = tt
  remove-Absent k j ((i, w) ∷ m) a = ground (arith, remove-Absent k j m a.1)

  pub insert-IsUnique : (k : K) (v : V) (m : List (K × V)) → IsUnique m → IsUnique (insert k v m)
  unfolding insert
  insert-IsUnique k v [] u = (tt, tt)
  insert-IsUnique k v ((i, w) ∷ m) u = elim (Bool-cases (i == k)) [
    | inl same ↦ rw same (subst (λ j. Absent j m × IsUnique m) ((e.beq_iff i k).0 same) u)
    | inr other ↦
        rw other (insert-Absent i k v m (ne_of_beq i k other) u.0, insert-IsUnique k v m u.1)
  ]

  pub remove-IsUnique : (k : K) (m : List (K × V)) → IsUnique m → IsUnique (remove k m)
  unfolding remove
  remove-IsUnique k [] u = tt
  remove-IsUnique k ((i, w) ∷ m) u =
      ground (arith, remove-IsUnique k m u.1, remove-Absent i k m u.0)
