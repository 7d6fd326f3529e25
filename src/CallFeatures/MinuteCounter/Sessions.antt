-- ===== src/CallFeatures/MinuteCounter/Sessions.antt =====
-- modules/callFeatures/minuteCounter/MinuteCounter.js: the count of one session.
use arnacon_webrtc_service.Shared.{
  ℕ, zero, suc, ◌+◌, ◌-◌, ◌/◌, Bool, true, false, ◌&&◌, not, Option, none, some, [], ◌∷◌,
  if◌then◌else◌, Text, lookup, insert,
}
use arnacon_webrtc_service.CallFeatures.MinuteCounter.Entries.{
  Date, Value, Entry, entry_of, broken, identities, Totals, Counter, Active, Counting, number,
  positive, seconds_of, normalize_service_id, normalize_identity, is_empty, date_text, read_totals,
  write_totals, service_or_broken, get_monthly_entry,
}

abbrev is_limit : Option ℕ → Bool
is_limit none = false
is_limit (some n) = true

-- `start`, of a session: whether it counts, and the session after it.
unfoldable pub start : ℕ → Text → Text → Value → Counter → Counting → Bool × Counting
unfolding normalize_service_id normalize_identity
start now service_id identity limit c session =
    let s = normalize_service_id service_id in
    let i = normalize_identity identity in
    if c.has_file && (is_limit (positive limit) && (not (is_empty s) && not (is_empty i)))
    then (true, some (record { service_id = s; identity = i; started_at = now; finished = false }))
    else (false, session)

-- `startedAt || Date.now()`.
abbrev since : ℕ → ℕ → ℕ
since zero now = now
since (suc t) now = suc t

-- The whole seconds between two times in milliseconds, the last one begun counted in full.
unfoldable pub billed_seconds : ℕ → ℕ → ℕ
billed_seconds now started_at = (now - since started_at now + 999) / 1000

unfoldable pub counted : Entry → ℕ → Date → Entry
unfolding date_text
counted e seconds today = record e {
  total_seconds = number (seconds_of e.total_seconds + seconds);
  last_updated = date_text today;
}

-- The entry that `getMonthlyEntry` returned is written in place.
unfoldable pub counted_in : Text → Text → Option Entry → ℕ → Date → Totals → Totals
unfolding lookup insert counted
counted_in s i none seconds today totals = totals
counted_in s i (some e) seconds today totals =
    insert s
      (identities (
        insert i (entry_of (counted e seconds today))
          (elim (service_or_broken (lookup s totals)) [ broken ↦ [] | identities m ↦ m ])))
      totals

unfoldable pub charge : Date → ℕ → Text → Text → Counter → Counter
unfolding get_monthly_entry counted_in
charge today seconds s i c =
    let found = get_monthly_entry today true s i (read_totals c) in
    write_totals (counted_in s i found.entry seconds today found.totals) c

unfoldable pub charged : Date → ℕ → Text → Text → Counter → ℕ × Counter
unfolding charge
charged today zero s i c = (0, c)
charged today (suc n) [] i c = (0, c)
charged today (suc n) (x ∷ s) [] c = (0, c)
charged today (suc n) (x ∷ s) (y ∷ i) c =
    if c.has_file then (suc n, charge today (suc n) (x ∷ s) (y ∷ i) c) else (0, c)

unfoldable pub finish_active : Date → ℕ → Active → Counter → ℕ × Counting × Counter
unfolding normalize_service_id normalize_identity billed_seconds charged
finish_active today now active c =
    let done =
      charged today (billed_seconds now active.started_at) (normalize_service_id active.service_id)
        (normalize_identity active.identity) c in
    if active.finished
    then (0, some active, c)
    else (done.0, some (record active { finished = true }), done.1)

-- `finish`: the seconds added, the session and the counter after it.
unfoldable pub finish : Date → ℕ → Counting → Counter → ℕ × Counting × Counter
unfolding finish_active
finish today now none c = (0, none, c)
finish today now (some active) c = finish_active today now active c
