-- ===== src/CallFeatures/MinuteCounter.antt =====
-- modules/callFeatures/minuteCounter/MinuteCounter.js: the minutes that an identity may call.
pub mod Entries
pub mod Usage
pub mod Sessions
pub mod Dates
pub mod Accounts
pub mod Finishes
