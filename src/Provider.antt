-- ===== src/Provider.antt =====
-- What the workspace keeps and decides for one upstream provider.
pub mod Accounting
