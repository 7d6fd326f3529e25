-- ===== src/CallFeatures/MinuteCounter/Entries.antt =====
-- modules/callFeatures/minuteCounter/MinuteCounter.js: the seconds that an identity has called in
-- a month, in the file and as `getMonthlyEntry` finds them. The numbers of the file are whole; its text
-- is read and written by the JSON library.
use arnacon_webrtc_service.Shared.{
  ℕ, suc, ◌+◌, ◌/◌, ◌%◌, Bool, true, false, ◌&&◌, ◌||◌, not, Option, none, some, [], ◌∷◌, ◌++◌,
  if◌then◌else◌, leb, ◌==◌, Text, text, text_eq, trim, to_lower, TextMap, lookup, insert,
}

-- The local date; years have four digits.
pub record Date : Type 0 where
  pub year : ℕ
  pub month : ℕ
  pub day : ℕ

-- A value of the file where a number is expected: a number, a text of one, or another value; a
-- negative number is among the last.
pub data Value : Type 0 where
  number numeral : ℕ → Value
  other : Value

pub record Entry : Type 0 where
  pub total_seconds : Value
  pub last_updated : Text
  pub custom_second_cap : Option Value

-- What stands in the file for an identity: nothing of use, a bare number, an entry, or something else.
pub data Stored : Type 0 where
  null malformed : Stored
  bare : ℕ → Stored
  entry_of : Entry → Stored

-- What stands in the file for a service.
pub data Service : Type 0 where
  broken : Service
  identities : TextMap Stored → Service

abbrev pub Totals : Type 0
Totals = TextMap Service

-- The path of the file, whether one is set, and what the file holds; none where it cannot be read.
pub record Counter : Type 0 where
  pub has_file : Bool
  pub file : Option Totals

pub record Active : Type 0 where
  pub service_id : Text
  pub identity : Text
  pub started_at : ℕ
  pub finished : Bool

-- `session.minuteCounter`.
abbrev pub Counting : Type 0
Counting = Option Active

unfoldable pub normalize_service_id : Text → Text
unfolding trim
normalize_service_id id = trim id

unfoldable pub normalize_identity : Text → Text
unfolding trim to_lower
normalize_identity id = to_lower (trim id)

-- `normalizeLimitSeconds` and `normalizeCustomSecondCap`.
abbrev pub positive : Value → Option ℕ
positive (number (suc n)) = some (suc n)
positive (numeral (suc n)) = some (suc n)
positive _ = none

-- `Math.max(0, Number(value) || 0)`.
abbrev pub seconds_of : Value → ℕ
seconds_of (number n) = n
seconds_of (numeral n) = n
seconds_of other = 0

-- `getLocalDateParts`.
abbrev digit : ℕ → ℕ
digit n = b'0' + n % 10

abbrev two_digits : ℕ → Text
two_digits n = digit (n / 10) ∷ digit n ∷ []

abbrev four_digits : ℕ → Text
four_digits n = digit (n / 1000) ∷ digit (n / 100) ∷ digit (n / 10) ∷ digit n ∷ []

unfoldable pub month_text : Date → Text
month_text d = four_digits d.year ++ b'-' ∷ two_digits d.month

unfoldable pub date_text : Date → Text
unfolding month_text
date_text d = month_text d ++ b'-' ∷ two_digits d.day

-- `getEntryMonth`: the first part of a text of the form 0000-00-00, or the empty text.
abbrev pub is_digit : ℕ → Bool
is_digit c = leb b'0' c && leb c b'9'

abbrev fits : Text → Text → Bool
fits [] [] = true
fits (b ∷ form) (c ∷ t) = (if b == b'0' then is_digit c else c == b) && fits form t
fits _ _ = false

abbrev month_part : Text → Text
month_part (y ∷ e ∷ a ∷ r ∷ dash ∷ m ∷ o ∷ rest) = y ∷ e ∷ a ∷ r ∷ dash ∷ m ∷ o ∷ []
month_part _ = []

unfoldable pub entry_month : Text → Text
entry_month raw = if fits (text "0000-00-00") raw then month_part raw else []

abbrev pub or_none : Option Totals → Totals
or_none none = []
or_none (some totals) = totals

-- `readTotals` and `writeTotals`.
abbrev pub read_totals : Counter → Totals
read_totals c = if c.has_file then or_none c.file else []

abbrev pub write_totals : Totals → Counter → Counter
write_totals totals c = if c.has_file then record c { file = some totals } else c

abbrev pub write_if : Bool → Totals → Counter → Counter
write_if true totals c = write_totals totals c
write_if false totals c = c

abbrev is_number : Value → Bool
is_number (number n) = true
is_number _ = false

abbrev whole_cap : Option ℕ → Option Value
whole_cap none = none
whole_cap (some n) = some (number n)

abbrev cap_of : Option Value → Option Value
cap_of none = none
cap_of (some v) = whole_cap (positive v)

abbrev keeps_cap : Option ℕ → Value → Bool
keeps_cap none v = false
keeps_cap (some n) v = is_number v

abbrev cap_changed : Option Value → Bool
cap_changed none = false
cap_changed (some v) = not (keeps_cap (positive v) v)

abbrev or_today : Text → Text → Text
or_today [] today = today
or_today (c ∷ t) today = c ∷ t

abbrev pub is_empty : Text → Bool
is_empty [] = true
is_empty (c ∷ t) = false

-- The last branch of the `if` of `getMonthlyEntry`.
unfoldable pub normalized : Date → Entry → Entry
unfolding date_text
normalized today e = record {
  total_seconds = number (seconds_of e.total_seconds);
  last_updated = or_today e.last_updated (date_text today);
  custom_second_cap = cap_of e.custom_second_cap;
}

abbrev was_changed : Entry → Bool
was_changed e =
    not (is_number e.total_seconds) || (cap_changed e.custom_second_cap || is_empty e.last_updated)

unfoldable pub new_entry : Date → ℕ → Entry
unfolding date_text
new_entry today n = record {
  total_seconds = number n;
  last_updated = date_text today;
  custom_second_cap = none;
}

-- The entry of the month, with whether the file differs: the last `if` of `getMonthlyEntry`.
unfoldable pub this_month : Date → Entry × Bool → Entry × Bool
unfolding entry_month month_text date_text text_eq
this_month today (e, changed) =
    if text_eq (entry_month e.last_updated) (month_text today)
    then (e, changed)
    else (record e { total_seconds = number 0; last_updated = date_text today }, true)

unfoldable pub monthly : Date → Bool → Stored → Option (Entry × Bool)
unfolding this_month new_entry normalized date_text
monthly today create null =
    if create then some (this_month today (new_entry today 0, true)) else none
monthly today create malformed = some (this_month today (new_entry today 0, true))
monthly today create (bare n) = some (this_month today (new_entry today n, true))
monthly today create (entry_of e) = some (this_month today (normalized today e, was_changed e))

abbrev pub stored_or_null : Option Stored → Stored
stored_or_null none = null
stored_or_null (some s) = s

abbrev pub service_or_broken : Option Service → Service
service_or_broken none = broken
service_or_broken (some s) = s

pub record Monthly : Type 0 where
  pub entry : Option Entry
  pub changed : Bool
  pub totals : Totals

unfoldable pub in_service : Text → Text → Totals → TextMap Stored → Option (Entry × Bool) → Monthly
unfolding insert
in_service service_id identity totals service none = record {
  entry = none;
  changed = false;
  totals = totals;
}
in_service service_id identity totals service (some (e, changed)) = record {
  entry = some e;
  changed = changed;
  totals = insert service_id (identities (insert identity (entry_of e) service)) totals;
}

unfoldable pub of_service : Date → Bool → Text → Text → Totals → Service → Monthly
unfolding lookup monthly in_service
of_service today create service_id identity totals broken =
    if create
    then in_service service_id identity totals [] (monthly today create null)
    else record { entry = none; changed = false; totals = totals }
of_service today create service_id identity totals (identities service) =
    in_service service_id identity totals service
      (monthly today create (stored_or_null (lookup identity service)))

-- `getMonthlyEntry`. Its objects are written in place: `totals` is what they are afterwards.
unfoldable pub get_monthly_entry : Date → Bool → Text → Text → Totals → Monthly
unfolding lookup of_service
get_monthly_entry today create service_id identity totals =
    of_service today create service_id identity totals
      (service_or_broken (lookup service_id totals))

abbrev pub seconds_in : Option Entry → ℕ
seconds_in none = 0
seconds_in (some e) = seconds_of e.total_seconds

abbrev pub cap_in : Option Entry → Option ℕ
cap_in none = none
cap_in (some e) = elim e.custom_second_cap [ none ↦ none | some v ↦ positive v ]
