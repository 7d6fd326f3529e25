-- ===== src/Routing.antt =====
-- modules/routing: where a call goes.
pub mod LightPbx
pub mod Addresses
pub mod Business
pub mod Services
mod Examples
