-- ===== src/Runtime/SessionStore/Numbers.antt =====
-- modules/runtime/SessionStore.js: which forms of a number lead to the same session.
use mathlib.Core.Path.{subst}
use mathlib.Core.Bool.{false≢true}
use arnacon_webrtc_service.Shared.{
  Bool, true, false, ◌||◌, ◌≡◌, ℕ, List, [], ◌∷◌, Text, any, text_eq, text_eq_refl, text_eq→eq,
  arith, if-cases, Bool-cases, inl, inr, sym, ◌∙◌,
}
use arnacon_webrtc_service.Runtime.SessionStore.{
  digits_only, forms, build_link_identity_variants, has_any_variant_match,
}

any_or : (p q : Bool) → p ≡ true → (p || q) ≡ true
any_or p q h = ground arith

later : (p q : Bool) → q ≡ true → (p || q) ≡ true
later p q h = ground arith

abbrev is_form : Text → List Text → Bool
unfolding text_eq
is_form x xs = any (text_eq x) xs

common :
    (x : Text) (xs ys : List Text)
    → is_form x xs ≡ true
    → is_form x ys ≡ true
    → has_any_variant_match xs ys ≡ true
unfolding has_any_variant_match is_form
common x [] ys h k = absurd (false≢true h)
common x (y ∷ xs) ys h k = elim (Bool-cases (text_eq x y)) [
  | inl e ↦ any_or _ _ (subst (λ z. any (text_eq z) ys ≡ true) (text_eq→eq x y e) k)
  | inr e ↦ later _ _ (common x xs ys (rest (text_eq x y) (any (text_eq x) xs) h e) k)
]
  where
    rest : (p q : Bool) → (p || q) ≡ true → p ≡ false → q ≡ true
    rest p q h e = ground arith

module _ (c : ℕ) (t : Text) (digits : digits_only (c ∷ t) ≡ true) where
  world_of_local :
      is_form (b'9' ∷ b'7' ∷ b'2' ∷ c ∷ t) (build_link_identity_variants (b'0' ∷ c ∷ t)) ≡ true
  unfolding build_link_identity_variants forms text_eq is_form
  world_of_local =
      if-cases (λ l. any (text_eq (b'9' ∷ b'7' ∷ b'2' ∷ c ∷ t)) l ≡ true) (digits_only (c ∷ t)) _ _
        (λ _. any_or _ _ (text_eq_refl (b'9' ∷ b'7' ∷ b'2' ∷ c ∷ t)))
        (λ no. absurd (false≢true (sym no ∙ digits)))

  world_of_world :
      is_form
        (b'9' ∷ b'7' ∷ b'2' ∷ c ∷ t)
        (build_link_identity_variants (b'9' ∷ b'7' ∷ b'2' ∷ c ∷ t))
      ≡ true
  unfolding build_link_identity_variants forms is_form
  world_of_world = any_or _ _ (text_eq_refl (b'9' ∷ b'7' ∷ b'2' ∷ c ∷ t))

-- For a number of one or more digits, its local form, with a leading zero, and the form with the country code 972 match, in
-- either order.
pub forms-match :
    (c : ℕ) (t : Text)
    → digits_only (c ∷ t) ≡ true
    → (has_any_variant_match
          (build_link_identity_variants (b'0' ∷ c ∷ t))
          (build_link_identity_variants (b'9' ∷ b'7' ∷ b'2' ∷ c ∷ t))
        ≡ true)
      × (has_any_variant_match
            (build_link_identity_variants (b'9' ∷ b'7' ∷ b'2' ∷ c ∷ t))
            (build_link_identity_variants (b'0' ∷ c ∷ t))
          ≡ true)
forms-match c t h = (
  common (b'9' ∷ b'7' ∷ b'2' ∷ c ∷ t) _ _ (world_of_local c t h) (world_of_world c t h),
  common (b'9' ∷ b'7' ∷ b'2' ∷ c ∷ t) _ _ (world_of_world c t h) (world_of_local c t h),
)
