-- ===== src/CallFeatures.antt =====
-- modules/callFeatures: what the service adds to a call.
pub mod MinuteCounter
mod Examples
