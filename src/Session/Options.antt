-- ===== src/Session/Options.antt =====
-- crates/datamancer/src/session.rs: what a session covers, and how it uses the persistence layer.
use datamancer.Base.{Bool, true, false, ◌||◌, Option}
use datamancer.Core.Event.{Timestamp}

pub data Scope : Type 0 where
  historical : (from to : Timestamp) → Scope
  live : (backfill_from : Option Timestamp) → Scope

pub record PersistenceOptions : Type 0 where
  pub read_cache : Bool
  pub write_cache : Bool
  pub write_tap_log : Bool

abbrev pub no_persistence : PersistenceOptions
no_persistence = record { read_cache = false; write_cache = false; write_tap_log = false }

abbrev pub cached : PersistenceOptions
cached = record { read_cache = true; write_cache = true; write_tap_log = false }

abbrev read_only : PersistenceOptions
read_only = record { read_cache = true; write_cache = false; write_tap_log = false }

abbrev refresh : PersistenceOptions
refresh = record { read_cache = false; write_cache = true; write_tap_log = false }

abbrev pub with_tap_log : PersistenceOptions → Bool → PersistenceOptions
with_tap_log o on = record o { write_tap_log = on }

abbrev pub uses_cache : PersistenceOptions → Bool
uses_cache o = o.read_cache || o.write_cache
