-- ===== src/FetchLocks/Exclusion.antt =====
-- At most one task holds a key, whatever the interleaving.
use datamancer.Base.{
  ℕ, ◌+◌, ◌≤◌, ◌≡◌, refl, sym, ap, ◌∙◌, Bool, true, false, ◌&&◌, none, some, List, [], ◌∷◌, map,
  if◌then◌else◌, ◌==◌, nat_eq, lookup, arith, All, inl, inr, some-eq, Option-cases,
}
use datamancer.Core.Request.{CacheKey, cache_key_eq, cache_key_beq_iff}
use datamancer.FetchLocks.Invariant.{Registered, new-IsSafe, run-IsSafe}
use datamancer.FetchLocks.{LockId, Entry, new, owners, AsyncMutex, Step, run}

-- The tasks that hold a key.
abbrev pub holders : CacheKey → List Entry → ℕ
holders key [] = 0
holders key (e ∷ es) = (if e.key == key && e.granted then 1 else 0) + holders key es

-- A holder of a key owns the lock that the registry has for it; without one there is none.
holders-owners :
    (map : List (CacheKey × LockId)) (key : CacheKey) (id : LockId) (es : List Entry)
    → All (Registered map) es
    → lookup key map ≡ some id
    → holders key es ≤ owners id es
holders-owners map key id [] a h = omega arith
holders-owners map key id (e ∷ es) a h = go (e.key == key) refl (holders-owners map key id es a.1 h)
  where
    go :
        (b : Bool)
        → (e.key == key) ≡ b
        → holders key es ≤ owners id es
        → (if b && e.granted then 1 else 0) + holders key es
          ≤ (if e.lock == id && e.granted then 1 else 0) + owners id es
    go true k rest =
        let same : e.key ≡ key = (cache_key_beq_iff e.key key).0 k in
        let at : e.lock ≡ id = some-eq (sym a.0 ∙ ap (λ x. lookup x map) same ∙ h) in
        ground (arith, at, rest)
    go false k rest = ground (arith, rest)

holders-none :
    (map : List (CacheKey × LockId)) (key : CacheKey) (es : List Entry)
    → All (Registered map) es
    → lookup key map ≡ none
    → holders key es ≡ 0
holders-none map key [] a h = refl
holders-none map key (e ∷ es) a h = go (e.key == key) refl (holders-none map key es a.1 h)
  where
    go :
        (b : Bool)
        → (e.key == key) ≡ b
        → holders key es ≡ 0
        → (if b && e.granted then 1 else 0) + holders key es ≡ 0
    go true k rest =
        let same : e.key ≡ key = (cache_key_beq_iff e.key key).0 k in
        let clash : some e.lock ≡ none = sym a.0 ∙ ap (λ x. lookup x map) same ∙ h in cc
    go false k rest = ground (arith, rest)

-- Whatever the interleaving of acquisitions, hand-ons and releases, cancelled waiters among them, at
-- most one task holds a key.
pub run-holders :
    (mutex : AsyncMutex) (steps : List Step) (key : CacheKey)
    → holders key (run mutex new steps).entries ≤ 1
run-holders mutex steps key =
    let s = run mutex new steps in
    let v = run-IsSafe mutex new steps new-IsSafe in
    elim (Option-cases (lookup key s.map)) [
      | inl absent ↦ omega (arith, holders-none s.map key s.entries v.registered absent)
      | inr (id, found) ↦
          omega (arith, holders-owners s.map key id s.entries v.registered found, v.single id)
    ]
