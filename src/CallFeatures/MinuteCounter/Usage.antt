-- ===== src/CallFeatures/MinuteCounter/Usage.antt =====
-- modules/callFeatures/minuteCounter/MinuteCounter.js: the seconds used, and whether a call may start.
use arnacon_webrtc_service.Shared.{
  ℕ, Bool, true, false, Option, none, some, [], ◌∷◌, if◌then◌else◌, ltb, Text,
}
use arnacon_webrtc_service.CallFeatures.MinuteCounter.Entries.{
  Date, Value, Entry, Counter, positive, normalize_service_id, normalize_identity, read_totals,
  write_if, get_monthly_entry, seconds_in, cap_in,
}

-- The entry of a normalized service and identity, and the counter after it is looked up.
unfoldable pub look_up : Date → Text → Text → Counter → Option Entry × Counter
unfolding get_monthly_entry
look_up today service_id identity c =
    let found = get_monthly_entry today false service_id identity (read_totals c) in
    (found.entry, write_if found.changed found.totals c)

abbrev pub used_of : Text → Text → Option Entry × Counter → Counter → ℕ × Counter
used_of [] identity found c = (0, c)
used_of (x ∷ s) [] found c = (0, c)
used_of (x ∷ s) (y ∷ i) found c = (seconds_in found.0, found.1)

-- `getUsedSeconds`.
unfoldable pub get_used_seconds : Date → Text → Text → Counter → ℕ × Counter
unfolding normalize_service_id normalize_identity look_up
get_used_seconds today service_id identity c =
    let s = normalize_service_id service_id in
    let i = normalize_identity identity in used_of s i (look_up today s i c) c

abbrev or_limit : Option ℕ → ℕ → ℕ
or_limit none n = n
or_limit (some m) n = m

abbrev limit_of : Text → Text → ℕ → Option Entry × Counter → Counter → Option ℕ × Counter
limit_of [] identity n found c = (some n, c)
limit_of (x ∷ s) [] n found c = (some n, c)
limit_of (x ∷ s) (y ∷ i) n found c = (some (or_limit (cap_in found.0) n), found.1)

abbrev effective : Date → Text → Text → Option ℕ → Counter → Option ℕ × Counter
unfolding normalize_service_id normalize_identity look_up
effective today service_id identity none c = (none, c)
effective today service_id identity (some n) c =
    let s = normalize_service_id service_id in
    let i = normalize_identity identity in limit_of s i n (look_up today s i c) c

-- `getEffectiveLimitSeconds`.
unfoldable pub get_effective_limit_seconds :
    Date → Text → Text → Value → Counter → Option ℕ × Counter
unfolding effective
get_effective_limit_seconds today service_id identity limit c =
    effective today service_id identity (positive limit) c

abbrev within : Date → Text → Text → Option ℕ × Counter → Bool × Counter
unfolding get_used_seconds
within today service_id identity (none, c) = (true, c)
within today service_id identity (some limit, c) =
    let used = get_used_seconds today service_id identity c in
    if c.has_file then (ltb used.0 limit, used.1) else (true, c)

-- `assertCanStart`: false where it throws.
unfoldable pub assert_can_start : Date → Text → Text → Value → Counter → Bool × Counter
unfolding get_effective_limit_seconds within
assert_can_start today service_id identity limit c =
    within today service_id identity (get_effective_limit_seconds today service_id identity limit c)
