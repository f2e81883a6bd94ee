-- ===== src/Examples.antt =====
-- Concrete runs of the modelled code: an instance of the channel, small data, and the theorems
-- applied to them.
pub mod Fixtures
pub mod CoreData
pub mod Planning
pub mod Rings
pub mod Delivery
pub mod Sessions
pub mod Clients
pub mod Reports
pub mod Runs
pub mod Wire
