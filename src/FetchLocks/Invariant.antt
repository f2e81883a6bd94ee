-- ===== src/FetchLocks/Invariant.antt =====
-- What every interleaving keeps: each task is at the lock of its key, and a lock has one owner.
use datamancer.Base.{
  ◌+◌, ◌<◌, ◌≤◌, ◌≡◌, ◌⊎◌, refl, sym, ap, ◌∙◌, subst, Bool, true, false, Option, none, some, List,
  [], ◌∷◌, ◌++◌, map, if◌then◌else◌, ◌==◌, nat_eq, lookup, insert, lookup-insert, arith, All,
  All-append, beq_refl, ne_of_beq, Bool-cases, inl, inr,
}
use datamancer.Core.Request.{CacheKey, cache_key_eq, cache_key_beq_iff}
use datamancer.FetchLocks.{
  LockId, Task, Entry, FetchLocks, new, alive, upgrade, wait, owners, place, AsyncMutex,
  acquire_from, acquire, without, release, Step, acquires, grants, releases, step, run,
}

-- Every task is at the lock that the registry has for its key.
abbrev pub Registered : List (CacheKey × LockId) → Entry → Type 0
Registered map e = lookup e.key map ≡ some e.lock

pub record IsSafe (s : FetchLocks) : Type 0 where
  pub registered : All (Registered s.map) s.entries
  pub older : All (λ e. e.lock < s.next) s.entries
  pub single : (id : LockId) → owners id s.entries ≤ 1

owners_append : (id : LockId) (a b : List Entry) → owners id (a ++ b) ≡ owners id a + owners id b
owners_append id [] b = omega arith
owners_append id (e ∷ a) b = omega (arith, owners_append id a b)

owners-without :
    (task : Task) (id : LockId) (es : List Entry) → owners id (without task es) ≤ owners id es
owners-without task id [] = omega arith
owners-without task id (e ∷ es) = ground (arith, owners-without task id es)

All-mono {ℓ} :
    {A : Type ℓ} {P Q : A → Type 0} (xs : List A) → ((x : A) → P x → Q x) → All P xs → All Q xs
All-mono [] f a = tt
All-mono (x ∷ xs) f a = (f x a.0, All-mono xs f a.1)

-- A predicate on the places of entries moves along with them.
All-place :
    (P : Task × CacheKey × LockId → Type 0) (es fs : List Entry)
    → map place fs ≡ map place es
    → All (λ e. P (place e)) es
    → All (λ e. P (place e)) fs
All-place P es fs same a = back fs (subst (All P) (sym same) (forth es a))
  where
    forth : (xs : List Entry) → All (λ e. P (place e)) xs → All P (map place xs)
    forth [] a = tt
    forth (x ∷ xs) a = (a.0, forth xs a.1)

    back : (xs : List Entry) → All P (map place xs) → All (λ e. P (place e)) xs
    back [] a = tt
    back (x ∷ xs) a = (a.0, back xs a.1)

without-All :
    (P : Entry → Type 0) (task : Task) (es : List Entry) → All P es → All P (without task es)
without-All P task [] a = tt
without-All P task (e ∷ es) a = ground (arith, without-All P task es a.1)

alive-older :
    (id n : LockId) (es : List Entry) → All (λ e. e.lock < n) es → alive id es ≡ true → id < n
alive-older id n [] a h = cc
alive-older id n (e ∷ es) a h = ground (arith, alive-older id n es a.1)

-- A key whose lock is gone is no task's key.
other_keys :
    (key : CacheKey) (map : List (CacheKey × LockId)) (es : List Entry)
    → ((id : LockId) → lookup key map ≡ some id → alive id es ≡ false)
    → All (Registered map) es
    → All (λ e. (key == e.key) ≡ false) es
other_keys key map [] h a = tt
other_keys key map (e ∷ es) h a =
    (go (key == e.key) refl, other_keys key map es (λ id f. ground (arith, h id f)) a.1)
  where
    go : (b : Bool) → (key == e.key) ≡ b → b ≡ false
    go true k =
        let same : key ≡ e.key = (cache_key_beq_iff key e.key).0 k in
        let gone = h e.lock (ap (λ x. lookup x map) same ∙ a.0) in absurd (ground (arith, gone))
    go false k = refl

pub new-IsSafe : IsSafe new
new-IsSafe = record { registered = tt; older = tt; single = λ id. omega arith }

joined :
    (s : FetchLocks) (task : Task) (key : CacheKey) (id : LockId)
    → IsSafe s
    → (j : LockId) → owners j (s.entries ++ (wait task key id ∷ [])) ≤ 1
joined s task key id v j =
    ground (arith, owners_append j s.entries (wait task key id ∷ []), v.single j)

upgrade-some :
    (o : Option LockId) (es : List Entry) (id : LockId)
    → upgrade o es ≡ some id
    → (o ≡ some id) × (alive id es ≡ true)
upgrade-some none es id e = cc
upgrade-some (some j) es id e = (ground arith, ground arith)

upgrade-none :
    (o : Option LockId) (es : List Entry) (id : LockId)
    → upgrade o es ≡ none
    → o ≡ some id
    → alive id es ≡ false
upgrade-none o es id e h = ground arith

acquire_from-IsSafe :
    (s : FetchLocks) (task : Task) (key : CacheKey) (o : Option LockId)
    → upgrade (lookup key s.map) s.entries ≡ o
    → IsSafe s
    → IsSafe (acquire_from s task key o)
unfolding acquire_from
acquire_from-IsSafe s task key (some id) u v =
    let (found, lives) = upgrade-some (lookup key s.map) s.entries id u in
    record {
      registered =
          All-append (Registered s.map) s.entries (wait task key id ∷ []) v.registered (found, tt);
      older =
          All-append (λ e. e.lock < s.next) s.entries (wait task key id ∷ []) v.older
            (alive-older id s.next s.entries v.older lives, tt);
      single = joined s task key id v;
    }
acquire_from-IsSafe s task key none u v =
    let others =
      other_keys key s.map s.entries (λ id h. upgrade-none (lookup key s.map) s.entries id u h)
        v.registered in
    record {
      registered =
          All-append (Registered (insert key s.next s.map)) s.entries (wait task key s.next ∷ [])
            (kept s.entries others v.registered)
            (
              lookup-insert key key s.next s.map
                  ∙ ap (λ b. if b then some s.next else lookup key s.map) (beq_refl key),
              tt,
            );
      older =
          All-append (λ e. e.lock < s.next + 1) s.entries (wait task key s.next ∷ [])
            (All-mono s.entries (λ e h. omega (arith, h)) v.older) (omega arith, tt);
      single = joined s task key s.next v;
    }
  where
    kept :
        (es : List Entry)
        → All (λ e. (key == e.key) ≡ false) es
        → All (Registered s.map) es
        → All (Registered (insert key s.next s.map)) es
    kept [] o a = tt
    kept (e ∷ es) o a = (
      lookup-insert key e.key s.next s.map
          ∙ ap (λ b. if b then some s.next else lookup e.key s.map) o.0
          ∙ a.0,
      kept es o.1 a.1,
    )

grant-IsSafe :
    (mutex : AsyncMutex) (s : FetchLocks) (id : LockId)
    → IsSafe s
    → IsSafe (record s { entries = mutex.hand_on id s.entries })
grant-IsSafe mutex s id v = record {
  registered =
      All-place (λ p. lookup p.1 s.map ≡ some p.2) s.entries (mutex.hand_on id s.entries)
        (mutex.hand_on_place id s.entries) v.registered;
  older =
      All-place (λ p. p.2 < s.next) s.entries (mutex.hand_on id s.entries)
        (mutex.hand_on_place id s.entries) v.older;
  single = λ j. go j (Bool-cases (id == j));
}
  where
    go :
        (j : LockId)
        → ((id == j) ≡ true) ⊎ ((id == j) ≡ false)
        → owners j (mutex.hand_on id s.entries) ≤ 1
    go j (inl same) =
        subst (λ k. owners k (mutex.hand_on id s.entries) ≤ 1) ((nat_eq.beq_iff id j).0 same)
          (mutex.hand_on_one id s.entries (v.single id))
    go j (inr other) =
        omega (arith, mutex.hand_on_other id j s.entries (ne_of_beq id j other), v.single j)

release-IsSafe : (s : FetchLocks) (task : Task) → IsSafe s → IsSafe (release s task)
unfolding release
release-IsSafe s task v = record {
  registered = without-All (Registered s.map) task s.entries v.registered;
  older = without-All (λ e. e.lock < s.next) task s.entries v.older;
  single = λ j. omega (arith, owners-without task j s.entries, v.single j);
}

pub run-IsSafe :
    (mutex : AsyncMutex) (s : FetchLocks) (steps : List Step)
    → IsSafe s
    → IsSafe (run mutex s steps)
unfolding run step acquire
run-IsSafe mutex s [] v = v
run-IsSafe mutex s (acquires task key ∷ ps) v =
    run-IsSafe mutex (acquire s task key) ps
      (acquire_from-IsSafe s task key (upgrade (lookup key s.map) s.entries) refl v)
run-IsSafe mutex s (grants id ∷ ps) v =
    run-IsSafe mutex (record s { entries = mutex.hand_on id s.entries }) ps
      (grant-IsSafe mutex s id v)
run-IsSafe mutex s (releases task ∷ ps) v =
    run-IsSafe mutex (release s task) ps (release-IsSafe s task v)
