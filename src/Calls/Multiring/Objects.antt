-- ===== src/Calls/Multiring/Objects.antt =====
-- modules/calls/webrtc/MultiringCoordinator.js: objects that are written and made.
use arnacon_webrtc_service.Shared.{
  ℕ, zero, suc, ◌≡◌, ◌≢◌, refl, sym, ap, ◌∙◌, Option, none, some, List, [], ◌∷◌, ◌++◌, arith, ◌⊎◌,
  inl, inr, ◌==◌, ==_iff, Bool-cases,
}
use mathlib.Core.Bool.{true≢false}
use arnacon_webrtc_service.Calls.Multiring.Candidates.{get_at, update_at}

module _ {ℓ} {A : Type ℓ} where
  -- A relation that the write satisfies at its object, and that is reflexive, it satisfies at each.
  pub at-update_at {κ} :
      (R : Option A → Option A → Type κ) (f : A → A)
      → ((o : Option A) → R o o)
      → ((x : A) → R (some x) (some (f x)))
      → (r q : ℕ) (xs : List A) → R (get_at q xs) (get_at q (update_at r f xs))
  unfolding get_at update_at
  at-update_at R f same step r q [] = same none
  at-update_at R f same step zero zero (x ∷ xs) = step x
  at-update_at R f same step zero (suc q) (x ∷ xs) = same (get_at q xs)
  at-update_at R f same step (suc r) zero (x ∷ xs) = same (some x)
  at-update_at R f same step (suc r) (suc q) (x ∷ xs) = at-update_at R f same step r q xs

  pub get_at-update_at :
      (f : A → A) (x : A) (r : ℕ) (xs : List A)
      → get_at r xs ≡ some x
      → get_at r (update_at r f xs) ≡ some (f x)
  unfolding get_at update_at
  get_at-update_at f x r [] h = ground arith
  get_at-update_at f x zero (y ∷ xs) h = ground arith
  get_at-update_at f x (suc r) (y ∷ xs) h = get_at-update_at f x r xs h

  pub get_at-update_at_other :
      (f : A → A) (r q : ℕ) (xs : List A) → q ≢ r → get_at q (update_at r f xs) ≡ get_at q xs
  unfolding get_at update_at
  get_at-update_at_other f r q [] h = refl
  get_at-update_at_other f zero zero (x ∷ xs) h = absurd (h refl)
  get_at-update_at_other f zero (suc q) (x ∷ xs) h = refl
  get_at-update_at_other f (suc r) zero (x ∷ xs) h = refl
  get_at-update_at_other f (suc r) (suc q) (x ∷ xs) h =
      get_at-update_at_other f r q xs (λ e. h (ap suc e))

  -- So it is for a new object, where nothing was.
  pub at-append {κ} :
      (R : Option A → Option A → Type κ) (x : A)
      → ((o : Option A) → R o o)
      → R none (some x)
      → (q : ℕ) (xs : List A) → R (get_at q xs) (get_at q (xs ++ x ∷ []))
  unfolding get_at
  at-append R x same new zero [] = new
  at-append R x same new (suc q) [] = same none
  at-append R x same new zero (y ∷ xs) = same (some y)
  at-append R x same new (suc q) (y ∷ xs) = at-append R x same new q xs

-- Two references are one object's or two.
pub ref-cases : (r q : ℕ) → (r ≡ q) ⊎ (r ≢ q)
ref-cases r q = elim (Bool-cases (r == q)) [
  | inl e ↦ inl ((==_iff r q).0 e)
  | inr e ↦ inr (λ h. true≢false (sym ((==_iff r q).1 h) ∙ e))
]
