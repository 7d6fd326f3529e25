-- ===== src/Routing/Addresses.antt =====
-- modules/routing/CallRouterApi.js: the forms of an address.
pub mod Names
use arnacon_webrtc_service.Shared.{
  ℕ, ◌≡◌, ◌≢◌, refl, sym, ap, ◌∙◌, Bool, true, false, ◌&&◌, ◌||◌, not, Option, none, some, [], ◌∷◌,
  ◌++◌, if◌then◌else◌, if-cases, leb, ◌==◌, Text, text, text_eq, text_eq_refl, text_eq→eq, trim,
  is_space, all, any, length, Bool-cases, inl, inr, arith,
}
use mathlib.Core.Path.{subst}
use mathlib.Core.Bool.{true≢false}
use mathlib.Core.Option.{none-ne-some, some-injective}

-- The result of `parseAddress`.
pub data Address : Type 0 where
  unknown raw email : Text → Address
  ens : Text → Text → Text → Address

abbrev pub is_empty : Text → Bool
is_empty [] = true
is_empty (c ∷ t) = false

abbrev pub is_digit : ℕ → Bool
is_digit c = leb b'0' c && leb c b'9'

-- The expression of a number: a digit, a star or a plus, and at most 20 digits.
unfoldable pub is_raw : Text → Bool
is_raw [] = false
is_raw (c ∷ t) = (is_digit c || (c == b'*' || c == b'+')) && (all is_digit t && leb (length t) 20)

abbrev is_plain : ℕ → Bool
unfolding is_space
is_plain c = not (is_space c || c == b'@')

-- Plain code units that hold a dot with one of them after it.
abbrev has_dot : Text → Bool
has_dot [] = false
has_dot (c ∷ t) = (c == b'.' && not (is_empty t)) || has_dot t

abbrev is_dotted : Text → Bool
unfolding is_space
is_dotted [] = false
is_dotted (c ∷ t) = all is_plain (c ∷ t) && has_dot t

-- The text after the first `@`, where what stands before it is plain and not empty.
abbrev local_then : Text → Bool
unfolding is_dotted is_space
local_then [] = false
local_then (c ∷ t) = if c == b'@' then is_dotted t else is_plain c && local_then t

abbrev starts_plain : Text → Bool
unfolding is_space
starts_plain [] = false
starts_plain (c ∷ t) = is_plain c

-- The text before a suffix, if it has it.
unfoldable pub before_suffix : Text → Text → Option Text
unfolding text_eq
before_suffix s [] = if text_eq [] s then some [] else none
before_suffix s (c ∷ t) =
    let rest = before_suffix s t in
    if text_eq (c ∷ t) s then some [] else elim rest [ none ↦ none | some u ↦ some (c ∷ u) ]

abbrev pub has_suffix : Option Text → Bool
has_suffix none = false
has_suffix (some t) = true

unfoldable pub has_email_form : Text → Bool
unfolding starts_plain local_then
has_email_form t = starts_plain t && local_then t

-- `isRawEmail`.
unfoldable pub is_raw_email : Text → Bool
unfolding has_email_form before_suffix
is_raw_email t = has_email_form t && not (has_suffix (before_suffix (text ".global") t))

-- A text at its last dot.
unfoldable pub at_last_dot : Text → Option (Text × Text)
at_last_dot [] = none
at_last_dot (c ∷ t) =
    let rest = at_last_dot t in
    elim rest [ some p ↦ some (c ∷ p.0, p.1) | none ↦ if c == b'.' then some ([], t) else none ]

-- The code units that the `.` of an expression does not match.
abbrev is_line_end : ℕ → Bool
is_line_end c = c == 10 || (c == 13 || (c == 8232 || c == 8233))

abbrev pub has_line_end : Text → Bool
has_line_end t = any is_line_end t

-- A name before one more label of the domain.
abbrev longer_domain : Text → Option (Text × Text) → Option (Text × Text)
longer_domain label none = none
longer_domain label (some (name, first)) =
    if is_empty name || (is_empty first || has_line_end name)
    then none
    else some (name, first ++ b'.' ∷ label)

-- The name and the domain of `name.domain.global`: the name takes all it can, so that the domain is
-- one label, or two where the longer name has a line end.
unfoldable pub labels : Option (Text × Text) → Option (Text × Text)
unfolding at_last_dot
labels none = none
labels (some (name, label)) =
    let longer = longer_domain label (at_last_dot name) in
    if is_empty name || is_empty label
    then none
    else if has_line_end name
    then longer
    else some (name, label)

abbrev pub ens_of : Text → Option (Text × Text) → Address
ens_of full none = unknown full
ens_of full (some (name, label)) = ens name (label ++ text ".global") full

unfoldable pub parts_of : Option Text → Option (Text × Text)
unfolding at_last_dot labels
parts_of none = none
parts_of (some t) = labels (at_last_dot t)

unfoldable pub parse_trimmed : Text → Address
unfolding is_raw is_raw_email before_suffix parts_of
parse_trimmed t =
    if is_raw t
    then raw t
    else if is_raw_email t
    then email t
    else ens_of t (parts_of (before_suffix (text ".global") t))

-- `parseAddress`.
unfoldable pub parse_address : Text → Address
unfolding trim parse_trimmed
parse_address addr = if is_empty addr then unknown addr else parse_trimmed (trim addr)
