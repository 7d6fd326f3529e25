-- ===== src/Calls.antt =====
-- modules/calls: the records of calls and their states.
pub mod StateMachine
pub mod Call
pub mod Registry
pub mod Events
pub mod Multiring
mod Examples
