-- ===== src/Routing/LightPbx.antt =====
-- modules/routing/LightPbxProvisionReader.js: the routes that a tenant provisions on chain.
pub mod Provisions
pub mod Targets
pub mod Reader
pub mod Revisions
pub mod Reads
pub mod Orders
pub mod Cache
