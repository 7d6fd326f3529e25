-- ===== src/Runtime/CallPairRef.antt =====
-- modules/runtime/CallPairRef.js: the label of an identity, and the key of a pair.
use arnacon_webrtc_service.Shared.{
  ◌≡◌, none, some, ◌∷◌, ◌++◌, if◌then◌else◌, Text, trim, to_lower, before, text_le, text_le_total,
  text_le_antisymm, Bool-cases, inl, inr,
}

-- A value that is no string, which the function hands back, is no `Text`.
unfoldable pub identity_label : Text → Text
unfolding before trim
identity_label identity = elim (before b'@' (trim identity)) [
  | some local ↦ local
  | none ↦ elim (before b'.' (trim identity)) [ some label ↦ label | none ↦ trim identity ]
]

unfoldable pub normalize_identity_for_key : Text → Text
unfolding identity_label to_lower
normalize_identity_for_key identity = identity_label (to_lower identity)

-- `[a, b].sort().join("|")`.
unfoldable pub join_sorted : Text → Text → Text
unfolding text_le
join_sorted a b = if text_le a b then a ++ b'|' ∷ b else b ++ b'|' ∷ a

unfoldable pub pair_key_from_identities : Text → Text → Text
unfolding join_sorted normalize_identity_for_key
pair_key_from_identities a b =
    join_sorted (normalize_identity_for_key a) (normalize_identity_for_key b)

join_sorted_comm : (a b : Text) → join_sorted a b ≡ join_sorted b a
unfolding join_sorted
join_sorted_comm a b = elim (Bool-cases (text_le a b)) [
  | inl le ↦ elim (Bool-cases (text_le b a)) [
    | inl ge ↦ rw (text_le_antisymm a b le ge)
    | inr lt ↦ rw (le, lt)
  ]
  | inr gt ↦ rw (gt, text_le_total a b gt)
]

-- The key of a pair does not depend on the order of its parties.
pub pair_key_comm : (a b : Text) → pair_key_from_identities a b ≡ pair_key_from_identities b a
unfolding pair_key_from_identities
pair_key_comm a b = join_sorted_comm (normalize_identity_for_key a) (normalize_identity_for_key b)
