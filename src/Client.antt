-- ===== src/Client.antt =====
-- crates/datamancer/src/client.rs: authoritative sessions' fan-out and statistics, and the
-- multiplexing client sessions over them.
pub mod Stats
pub mod FanOut
pub mod Ring
pub mod Occupancy
pub mod Session
