-- ===== src/Health.antt =====
-- crates/datamancer-core/src/{snapshot,health}.rs and the assembly of a snapshot in
-- crates/datamancer/src/session.rs.
pub mod Snapshot
pub mod View
pub mod Agreement
pub mod Liveness
