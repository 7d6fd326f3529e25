-- ===== src/CallFeatures/MinuteCounter/Accounts.antt =====
-- modules/callFeatures/minuteCounter/MinuteCounter.js: what `finish` adds is what `getUsedSeconds`
-- then tells.
use arnacon_webrtc_service.Shared.{
  ℕ, ◌+◌, ◌≡◌, refl, ◌∙◌, ap, Bool, true, false, Option, some, [], if-cases, if◌then◌else◌, Text,
  text_eq, TextMap, lookup, insert, lookup-insert, arith,
}
use arnacon_webrtc_service.CallFeatures.MinuteCounter.Entries.{
  Date, number, Entry, Stored, null, malformed, bare, entry_of, Service, broken, identities, Totals,
  Counter, seconds_of, month_text, date_text, this_month, monthly, stored_or_null,
  service_or_broken, of_service, in_service, normalized, new_entry, get_monthly_entry, seconds_in,
  read_totals, write_totals,
}
use arnacon_webrtc_service.CallFeatures.MinuteCounter.Sessions.{counted, counted_in, charge}
use arnacon_webrtc_service.CallFeatures.MinuteCounter.Dates.{entry_month-date_text}

-- The seconds of an identity in the month of `today`, as the totals have them.
unfoldable pub balance : Date → Text → Text → Totals → ℕ
unfolding get_monthly_entry
balance today s i totals = seconds_in (get_monthly_entry today false s i totals).entry

-- An entry written on `d` counts in the month of `d`.
unfoldable written : Date → ℕ → Entry → Entry
unfolding date_text
written d n e = record e { total_seconds = number n; last_updated = date_text d }

unfoldable pub if_same_month : Date → Date → ℕ → ℕ
unfolding text_eq month_text
if_same_month d today n = if text_eq (month_text d) (month_text today) then n else 0

this_month-seconds :
    (today d : Date) (n : ℕ) (e : Entry) (changed : Bool)
    → seconds_of (this_month today (written d n e, changed)).0.total_seconds
      ≡ if_same_month d today n
unfolding this_month written if_same_month
this_month-seconds today d n e changed =
    ap (λ m. at_month (text_eq m (month_text today))) (entry_month-date_text d)
    ∙ seconds_at (text_eq (month_text d) (month_text today))
  where
    both : Bool → Entry × Bool
    both b = if b then (written d n e, changed) else (
      record (written d n e) { total_seconds = number 0; last_updated = date_text today },
      true,
    )

    at_month : Bool → ℕ
    at_month b = seconds_of (both b).0.total_seconds

    seconds_at : (b : Bool) → at_month b ≡ (if b then n else 0)
    seconds_at true = refl
    seconds_at false = refl

balance-written :
    (today d : Date) (n : ℕ) (e : Entry) (s i : Text) (m : TextMap Stored) (totals : Totals)
    → balance today s i (insert s (identities (insert i (entry_of (written d n e)) m)) totals)
      ≡ if_same_month d today n
unfolding balance get_monthly_entry of_service in_service monthly written date_text month_text
balance-written today d n e s i m totals =
    let tot = insert s (identities (insert i (entry_of (written d n e)) m)) totals in
    ap (λ o. seconds_in (of_service today false s i tot (service_or_broken o)).entry)
      (lookup-insert s (identities (insert i (entry_of (written d n e)) m)) totals)
    ∙ ap
        (λ o.
          seconds_in
            (in_service s i tot (insert i (entry_of (written d n e)) m)
              (monthly today false (stored_or_null o))).entry)
        (lookup-insert i (entry_of (written d n e)) m)
    ∙ this_month-seconds today d n (normalized today (written d n e)) _

new_entry-seconds :
    (today : Date) → seconds_of (this_month today (new_entry today 0, true)).0.total_seconds ≡ 0
unfolding new_entry if_same_month written
new_entry-seconds today =
    this_month-seconds today today 0 (new_entry today 0) true
    ∙ if_zero (text_eq (month_text today) (month_text today))
  where
    if_zero : (b : Bool) → ◌≡◌ {A = ℕ} (if b then 0 else 0) 0
    if_zero true = refl
    if_zero false = refl

-- An entry that is there, with the seconds that an account had.
abbrev Holds : Option Entry → ℕ → Type 0
Holds o n = (e : Entry) × (o ≡ some e) × (seconds_of e.total_seconds ≡ n)

monthly-Holds :
    (today : Date) (s i : Text) (totals : Totals) (m : TextMap Stored) (x : Stored)
    → Holds
        (in_service s i totals m (monthly today true x)).entry
        (seconds_in (in_service s i totals m (monthly today false x)).entry)
unfolding monthly in_service
monthly-Holds today s i totals m null =
    ((this_month today (new_entry today 0, true)).0, refl, new_entry-seconds today)
monthly-Holds today s i totals m malformed = (_, refl, refl)
monthly-Holds today s i totals m (bare n) = (_, refl, refl)
monthly-Holds today s i totals m (entry_of e) = (_, refl, refl)

-- `create` makes an entry and leaves the account.
created :
    (today : Date) (s i : Text) (totals : Totals) (service : Service)
    → Holds
        (of_service today true s i totals service).entry
        (seconds_in (of_service today false s i totals service).entry)
unfolding of_service monthly in_service
created today s i totals broken = monthly-Holds today s i totals [] null
created today s i totals (identities m) =
    monthly-Holds today s i totals m (stored_or_null (lookup i m))

balance-counted_in :
    (today later : Date) (k n : ℕ) (s i : Text) (o : Option Entry) (totals : Totals)
    → Holds o n
    → balance later s i (counted_in s i o k today totals) ≡ if_same_month today later (n + k)
unfolding counted_in counted written
balance-counted_in today later k n s i o totals (e, same, holds) =
    ap (λ p. balance later s i (counted_in s i p k today totals)) same
    ∙ balance-written later today (seconds_of e.total_seconds + k) e s i
        (elim (service_or_broken (lookup s totals)) [ broken ↦ [] | identities m ↦ m ]) totals
    ∙ ap (λ a. if_same_month today later (a + k)) holds

pub balance-charge :
    (today later : Date) (k : ℕ) (s i : Text) (c : Counter)
    → c.has_file ≡ true
    → balance later s i (read_totals (charge today k s i c))
      ≡ if_same_month today later (balance today s i (read_totals c) + k)
unfolding charge balance get_monthly_entry
balance-charge today later k s i c on =
    let totals = read_totals c in
    let found = get_monthly_entry today true s i totals in
    ap (balance later s i) (read-write (counted_in s i found.entry k today found.totals) c on)
    ∙ balance-counted_in today later k _ s i found.entry found.totals
        (created today s i totals (service_or_broken (lookup s totals)))
  where
    read-write :
        (totals : Totals) (c : Counter)
        → c.has_file ≡ true
        → read_totals (write_totals totals c) ≡ totals
    read-write totals c on =
        if-cases (λ d. read_totals d ≡ totals) c.has_file _ _ (λ _. rw (on)) (λ off. ground arith)
