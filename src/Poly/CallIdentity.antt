-- ===== src/Poly/CallIdentity.antt =====
-- modules/calls/poly/PolySession.js: which call attempt owns the pair.
use arnacon_webrtc_service.Shared.{
  ℕ, zero, suc, ◌||◌, length, ◌/◌, ◌%◌, ◌+◌, ◌-◌, ◌*◌, Bool, false, ◌&&◌, Option, none, some, [],
  ◌∷◌, if◌then◌else◌, leb, ltb, ◌==◌, Text, text_eq, trim_start,
}
use arnacon_webrtc_service.Runtime.CallPairRef.{normalize_identity_for_key}
use arnacon_webrtc_service.Poly.World.{ActiveCall, Session}

unfoldable pub is_digit : ℕ → Bool
is_digit c = leb b'0' c && leb c b'9'

-- The digits that `Number.parseInt(t, 10)` reads after the sign, as a number: `none` where it has none.
unfoldable pub parse_digits : Option ℕ → Text → Option ℕ
unfolding is_digit
parse_digits acc [] = acc
parse_digits acc (c ∷ t) =
    let rest = parse_digits (some (elim acc [ none ↦ 0 | some n ↦ n ] * 10 + (c - b'0'))) t in
    if is_digit c then rest else acc

-- A number that is not negative; the caller has no use for the others.
abbrev parse_signed : Text → Option ℕ
parse_signed [] = none
parse_signed (c ∷ t) =
    if c == b'+' then parse_digits none t else if c == b'-' then none else parse_digits none (c ∷ t)

-- The powers of two by which a number is to be divided to have 53 binary digits; `bits` bounds them.
unfoldable excess : ℕ → ℕ → ℕ
excess zero n = zero
excess (suc bits) n =
    let rest = excess bits (n / 2) in if ltb n 9007199254740992 then zero else suc rest

unfoldable pow2 : ℕ → ℕ
pow2 zero = 1
pow2 (suc e) = 2 * pow2 e

-- A number at 53 binary digits, `2 ^ e` to the last: the nearest one, and of two the even one.
abbrev nearest : ℕ → ℕ → ℕ
unfolding pow2
nearest e n =
    let unit = pow2 e in
    let q = n / unit in
    let twice = 2 * (n % unit) in
    (if ltb unit twice || (unit == twice && q % 2 == 1) then q + 1 else q) * unit

-- The double of a number of at most `bits` binary digits: `none` is Infinity.
unfoldable pub to_double : ℕ → ℕ → Option ℕ
unfolding excess pow2
to_double bits n =
    if ltb n 9007199254740992
    then some n
    else let d = nearest (excess bits n) n in if ltb d (pow2 1024) then some d else none

abbrev positive : ℕ → Option ℕ → Option ℕ
unfolding to_double
positive bits none = none
positive bits (some n) = if ltb 0 n then to_double bits n else none

-- `_normalizeCallIdValue`; `none` for null, undefined and the empty text.
unfoldable pub normalize_call_id : Option Text → Option ℕ
unfolding parse_digits trim_start to_double
normalize_call_id none = none
normalize_call_id (some t) = positive (4 * length t) (parse_signed (trim_start t))

abbrev non_empty : Text → Option Text
non_empty [] = none
non_empty (c ∷ t) = some (c ∷ t)

-- `_normalizeFromValue`.
unfoldable pub normalize_from : Option Text → Option Text
unfolding normalize_identity_for_key
normalize_from none = none
normalize_from (some t) = non_empty (normalize_identity_for_key t)

abbrev pub mark : Option Text → Option ℕ → Session → Session
mark (some from) (some call_id) s = record s {
  active_call = some (record { from = from; call_id = call_id });
}
mark _ _ s = s

-- `markActiveCall`.
unfoldable pub mark_active_call : Option Text → Option Text → Session → Session
unfolding normalize_from normalize_call_id
mark_active_call from call_id s = mark (normalize_from from) (normalize_call_id call_id) s

abbrev pub matches : ActiveCall → Option Text → Option ℕ → Bool
matches active (some from) (some call_id) = text_eq active.from from && active.call_id == call_id
matches active _ _ = false

abbrev pub same_as : Option ActiveCall → Option Text → Option ℕ → Bool
same_as none from call_id = false
same_as (some active) from call_id = matches active from call_id

-- `isSameCall`.
unfoldable pub is_same_call : Session → Option Text → Option Text → Bool
unfolding normalize_from normalize_call_id text_eq
is_same_call s from call_id =
    same_as s.active_call (normalize_from from) (normalize_call_id call_id)
