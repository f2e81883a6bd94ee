-- ===== src/Core.antt =====
-- crates/datamancer-core/src: the shared types of the workspace.
pub mod Instrument
pub mod Event
pub mod Extent
pub mod Adjustment
pub mod Quantity
pub mod Request
pub mod Kinds
