-- ===== src/Storage.antt =====
-- crates/datamancer/src/storage: the pure parts of the storage backends.
pub mod Coverage
pub mod Turso
