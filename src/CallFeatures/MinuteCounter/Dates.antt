-- ===== src/CallFeatures/MinuteCounter/Dates.antt =====
-- modules/callFeatures/minuteCounter/MinuteCounter.js: the month of a date that was written.
use arnacon_webrtc_service.Shared.{ℕ, ◌≡◌, ◌+◌, ◌%◌, ◌/◌, true, arith}
use arnacon_webrtc_service.CallFeatures.MinuteCounter.Entries.{
  Date, is_digit, month_text, date_text, entry_month,
}

digit-is_digit : (n : ℕ) → is_digit (b'0' + n % 10) ≡ true
digit-is_digit n = ground arith

-- The month that is read from a written date is the date's.
pub entry_month-date_text : (d : Date) → entry_month (date_text d) ≡ month_text d
unfolding entry_month date_text month_text
entry_month-date_text d = rw (
  digit-is_digit (d.year / 1000),
  digit-is_digit (d.year / 100),
  digit-is_digit (d.year / 10),
  digit-is_digit d.year,
  digit-is_digit (d.month / 10),
  digit-is_digit d.month,
  digit-is_digit (d.day / 10),
  digit-is_digit d.day,
)
