-- ===== src/Session.antt =====
-- crates/datamancer/src/session.rs: the session controllers and their helpers.
pub mod Tile
pub mod Ring
pub mod Run
pub mod Live
pub mod Historical
pub mod Options
pub mod Controller
pub mod Lifecycle
