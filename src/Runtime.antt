-- ===== src/Runtime.antt =====
-- modules/runtime: identities, the keys of a pair of parties, and the sessions by key.
pub mod CallPairRef
pub mod CallPairResolver
pub mod SessionStore
mod Examples
