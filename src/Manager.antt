-- ===== src/Manager.antt =====
-- The manager of integrations (manager/hahapent/).
pub mod Storage
pub mod Versions
pub mod Registry
pub mod World
pub mod Change
pub mod Apply
pub mod Catalog
pub mod Sources
pub mod Actions
