-- ===== src/FetchLocks.antt =====
-- crates/datamancer/src/fetch_locks.rs: `FetchLocks`, the registry that lets one task at a time
-- fetch a key. The state is what all tasks see: the registry of weak locks, and the tasks that hold
-- or await a lock, in the order in which they came; a lock is alive while a task holds or awaits it.
-- Tokio's mutex is a parameter.
pub mod Exclusion
pub mod Invariant
use datamancer.Base.{
  map, ◌≡◌, ◌≢◌, ◌≤◌, ℕ, suc, ◌+◌, Bool, true, false, not, ◌&&◌, ◌||◌, Option, none, some, List, [],
  ◌∷◌, ◌++◌, if◌then◌else◌, ◌==◌, nat_eq, lookup, insert,
}
use datamancer.Core.Request.{CacheKey, cache_key_eq}

abbrev pub LockId : Type 0
LockId = ℕ

abbrev pub Task : Type 0
Task = ℕ

-- A task at a lock; `granted` tells that it has the guard.
pub record Entry : Type 0 where
  pub task : Task
  pub key : CacheKey
  pub lock : LockId
  pub granted : Bool

pub record FetchLocks : Type 0 where
  pub map : List (CacheKey × LockId)
  pub entries : List Entry
  pub next : LockId

abbrev pub new : FetchLocks
new = record { map = []; entries = []; next = 0 }

-- Whether `Weak::upgrade` finds the lock.
abbrev pub alive : LockId → List Entry → Bool
alive id [] = false
alive id (e ∷ es) = e.lock == id || alive id es

abbrev pub upgrade : Option LockId → List Entry → Option LockId
upgrade none es = none
upgrade (some id) es = if alive id es then some id else none

abbrev pub wait : Task → CacheKey → LockId → Entry
wait task key id = record { task = task; key = key; lock = id; granted = false }

-- `acquire` up to its `lock_owned`, which makes the task wait: the lock that is there, or a new one.
pub acquire_from : FetchLocks → Task → CacheKey → Option LockId → FetchLocks
acquire_from s task key (some id) = record s { entries = s.entries ++ (wait task key id ∷ []) }
acquire_from s task key none = record {
  map = insert key s.next s.map;
  entries = s.entries ++ (wait task key s.next ∷ []);
  next = s.next + 1;
}

unfoldable pub acquire : FetchLocks → Task → CacheKey → FetchLocks
unfolding acquire_from
acquire s task key = acquire_from s task key (upgrade (lookup key s.map) s.entries)

-- The tasks that have the guard of a lock.
abbrev pub owners : LockId → List Entry → ℕ
owners id [] = 0
owners id (e ∷ es) = (if e.lock == id && e.granted then 1 else 0) + owners id es

abbrev pub place : Entry → Task × CacheKey × LockId
place e = (e.task, e.key, e.lock)

-- `tokio::sync::Mutex`: who gets the guard of a lock that is free. It only hands out guards, to one
-- task at a time, and does not touch other locks.
pub record AsyncMutex : Type 0 where
  pub hand_on : LockId → List Entry → List Entry
  pub hand_on_place : (id : LockId) (es : List Entry) → map place (hand_on id es) ≡ map place es
  pub hand_on_one :
      (id : LockId) (es : List Entry) → owners id es ≤ 1 → owners id (hand_on id es) ≤ 1
  pub hand_on_other :
      (id j : LockId) (es : List Entry) → id ≢ j → owners j (hand_on id es) ≡ owners j es

abbrev pub without : Task → List Entry → List Entry
without task [] = []
without task (e ∷ es) = let rest = without task es in if e.task == task then rest else e ∷ rest

-- A guard is dropped, or a task is cancelled while it waits.
unfoldable pub release : FetchLocks → Task → FetchLocks
release s task = record s { entries = without task s.entries }

-- The steps of the tasks and of the mutexes, in any interleaving.
pub data Step : Type 0 where
  acquires : Task → CacheKey → Step
  grants : LockId → Step
  releases : Task → Step

module _ (mutex : AsyncMutex) where
  unfoldable pub step : FetchLocks → Step → FetchLocks
  unfolding acquire release
  step s (acquires task key) = acquire s task key
  step s (grants id) = record s { entries = mutex.hand_on id s.entries }
  step s (releases task) = release s task

  unfoldable pub run : FetchLocks → List Step → FetchLocks
  unfolding step
  run s [] = s
  run s (p ∷ ps) = run (step s p) ps
