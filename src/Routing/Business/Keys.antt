-- ===== src/Routing/Business/Keys.antt =====
-- modules/routing/CallRouterApi.js: the keys are not asked for twice, and the loop that makes them ends.
use arnacon_webrtc_service.Shared.{
  ℕ, zero, suc, ◌≤◌, ◌<◌, ◌≡◌, refl, sym, ap, ◌∙◌, Bool, true, false, Option, none, some, List, [],
  ◌∷◌, ◌++◌, if◌then◌else◌, if-cases, Option-cases, inl, inr, ◌==◌, Text, text_eq, text_eq_refl,
  text_neq, length, Distinct, any, any-cons, ||_left, ||_right, arith,
}
use mathlib.Core.Path.{subst}
use mathlib.Core.Bool.{true≢false}
use mathlib.Core.Option.{none-ne-some, some-injective}
use arnacon_webrtc_service.Routing.Addresses.{at_last_dot, is_empty}
use arnacon_webrtc_service.Routing.Business.{
  normalized_key, at_first, push_new, push_all, cuts, more_keys, build_business_lookup_keys,
}

text_eq-flip : (t u : Text) → text_eq t u ≡ false → text_eq u t ≡ false
text_eq-flip t u h =
    text_neq u t (λ e. true≢false (sym (text_eq_refl u) ∙ ap (λ v. text_eq v u) e ∙ h))

any-last :
    (p : Text → Bool) (ts : List Text) (u : Text)
    → any p ts ≡ false
    → p u ≡ false
    → any p (ts ++ u ∷ []) ≡ false
any-last p [] u h k = any-cons p u [] k refl
any-last p (t ∷ ts) u h k =
    any-cons p t (ts ++ u ∷ []) (||_left (p t) (any p ts) h)
      (any-last p ts u (||_right (p t) (any p ts) h) k)

Distinct-last :
    (ts : List Text) (u : Text) → Distinct ts → any (text_eq u) ts ≡ false → Distinct (ts ++ u ∷ [])
Distinct-last [] u h k = (refl, tt)
Distinct-last (t ∷ ts) u h k = (
  any-last (text_eq t) ts u h.0 (text_eq-flip u t (||_left (text_eq u t) (any (text_eq u) ts) k)),
  Distinct-last ts u h.1 (||_right (text_eq u t) (any (text_eq u) ts) k),
)

push_new-Distinct : (u : Text) (ts : List Text) → Distinct ts → Distinct (push_new u ts)
unfolding push_new
push_new-Distinct u ts h =
    if-cases Distinct (any (text_eq u) ts) _ _ (λ _. h) (λ k. Distinct-last ts u h k)

push_all-Distinct : (us ts : List Text) → Distinct ts → Distinct (push_all us ts)
unfolding push_all
push_all-Distinct [] ts h = h
push_all-Distinct (u ∷ us) ts h = push_all-Distinct us (push_new u ts) (push_new-Distinct u ts h)

-- No key of a business number is asked for twice.
pub build_business_lookup_keys-Distinct : (id : Text) → Distinct (build_business_lookup_keys id)
unfolding build_business_lookup_keys
build_business_lookup_keys-Distinct id =
    if-cases Distinct (is_empty (normalized_key id)) _ _ (λ _. tt)
      (λ _.
        push_all-Distinct (more_keys (normalized_key id) (at_first b'_' (normalized_key id)))
          (normalized_key id ∷ []) (refl, tt))

-- What is before the last dot is shorter.
length-at_last_dot : (t : Text) (p : Text × Text) → at_last_dot t ≡ some p → length p.0 < length t
unfolding at_last_dot
length-at_last_dot [] p h = absurd (none-ne-some p h)
length-at_last_dot (c ∷ t) p h = of_rest (at_last_dot t) (length-at_last_dot t) h
  where
    of_dot :
        (b : Bool)
        → ◌≡◌ {A = Option (Text × Text)} (if b then some ([], t) else none) (some p)
        → length p.0 < suc (length t)
    of_dot true h =
        subst (λ (q : Text × Text). length q.0 < suc (length t)) (some-injective ([], t) p h)
          (omega arith)
    of_dot false h = absurd (none-ne-some p h)

    of_rest :
        (o : Option (Text × Text))
        → ((q : Text × Text) → o ≡ some q → length q.0 < length t)
        → ◌≡◌ {A = Option (Text × Text)}
            (elim o [
              | some q ↦ some (c ∷ q.0, q.1)
              | none ↦ if c == b'.' then some ([], t) else none
            ])
            (some p)
        → length p.0 < suc (length t)
    of_rest none ih h = of_dot (c == b'.') h
    of_rest (some q) ih h =
        subst (λ (r : Text × Text). length r.0 < suc (length t)) (some-injective (c ∷ q.0, q.1) p h)
          (omega (arith, ih q refl))

-- As much fuel as the text is long is enough for the loop that cuts it: with more, its result is the
-- same.
pub cuts-enough : (k n : ℕ) (t : Text) → length t ≤ n → n ≤ k → cuts k t ≡ cuts n t
unfolding cuts at_last_dot
cuts-enough zero zero t h le = refl
cuts-enough zero (suc n) t h le = ground arith
cuts-enough (suc k) zero [] h le = refl
cuts-enough (suc k) zero (c ∷ t) h le = ground arith
cuts-enough (suc k) (suc n) t h le = elim (Option-cases (at_last_dot t)) [
  | inl e ↦ ap (λ o. cut o k) e ∙ sym (ap (λ o. cut o n) e)
  | inr (p, e) ↦
      ap (λ o. cut o k) e
      ∙ ap (λ ks. p.0 ∷ ks)
          (cuts-enough k n p.0 (omega (arith, length-at_last_dot t p e)) (omega arith))
      ∙ sym (ap (λ o. cut o n) e)
]
  where
    cut : Option (Text × Text) → ℕ → List Text
    cut o m = elim o [ none ↦ [] | some p ↦ p.0 ∷ cuts m p.0 ]
