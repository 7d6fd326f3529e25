-- ===== src/Calls/Multiring.antt =====
-- modules/calls/webrtc/MultiringCoordinator.js: one inbound call that rings several clients at once.
pub mod Candidates
pub mod Groups
pub mod Starts
pub mod Handlers
pub mod Objects
pub mod Keeps
pub mod Closes
pub mod Handles
pub mod Locks
pub mod Losers
pub mod Events
mod Examples
