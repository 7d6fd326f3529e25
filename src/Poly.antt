-- ===== src/Poly.antt =====
-- modules/calls/poly: the orchestration core of a call between two parties.
pub mod States
pub mod Intents
pub mod Table
pub mod Reconcile
pub mod World
pub mod SessionLeg
pub mod SipLeg
pub mod CallIdentity
pub mod PolySession
pub mod Quiet
pub mod Frame
pub mod Steady
pub mod Unbridged
pub mod Settled
pub mod Converges
pub mod Hooks
pub mod Registry
mod Examples
