-- ===== src/Shared/Maps.antt =====
-- JavaScript's Map from texts, in the order of insertion.
use mathlib.Core.Path.{subst, ◌≡◌, refl, sym, ◌∙◌}
use mathlib.Core.Logic.{◌≢◌, inl, inr}
use mathlib.Core.Bool.{Bool, false}
use mathlib.Core.Option.{Option, none, some, none-ne-some, some-injective}
use mathlib.Core.List.{List, [], ◌∷◌}
use arnacon_webrtc_service.Shared.Tests.{if◌then◌else◌, Bool-cases, if-cases}
use arnacon_webrtc_service.Shared.Lists.{All}
use arnacon_webrtc_service.Shared.Texts.{Text, text_eq, text_eq_refl, text_eq→eq}

abbrev pub TextMap {ℓ} : Type ℓ → Type ℓ
TextMap V = List (Text × V)

pub text_neq : (k l : Text) → k ≢ l → text_eq k l ≡ false
text_neq k l h = elim (Bool-cases (text_eq k l)) [
  | inl e ↦ absurd (h (text_eq→eq k l e))
  | inr e ↦ e
]

module _ {ℓ} {V : Type ℓ} where
  -- `get`.
  unfoldable pub lookup : Text → TextMap V → Option V
  lookup k [] = none
  lookup k ((l, v) ∷ m) = if text_eq k l then some v else lookup k m

  -- `set`: a key that is there keeps its place.
  unfoldable pub insert : Text → V → TextMap V → TextMap V
  insert k v [] = (k, v) ∷ []
  insert k v ((l, u) ∷ m) = if text_eq k l then (l, v) ∷ m else (l, u) ∷ insert k v m

  -- The map without the entries that a test picks, for a loop of `delete` over `entries`.
  unfoldable pub drop_where : (Text → V → Bool) → TextMap V → TextMap V
  drop_where p [] = []
  drop_where p ((l, u) ∷ m) = if p l u then drop_where p m else (l, u) ∷ drop_where p m

  -- `delete`.
  unfoldable pub delete : Text → TextMap V → TextMap V
  unfolding drop_where
  delete k m = drop_where (λ l u. text_eq k l) m

  pub lookup-insert : (k : Text) (v : V) (m : TextMap V) → lookup k (insert k v m) ≡ some v
  unfolding lookup insert
  lookup-insert k v [] = rw (text_eq_refl k)
  lookup-insert k v ((l, u) ∷ m) = elim (Bool-cases (text_eq k l)) [
    | inl e ↦ rw (e, e)
    | inr e ↦ rw (e, e, lookup-insert k v m)
  ]

  pub lookup-insert_other :
      (k j : Text) (v : V) (m : TextMap V) → j ≢ k → lookup j (insert k v m) ≡ lookup j m
  unfolding lookup insert
  lookup-insert_other k j v [] h = rw (text_neq j k h)
  lookup-insert_other k j v ((l, u) ∷ m) h = elim (Bool-cases (text_eq k l)) [
    | inl e ↦ rw (e, text_neq j l (λ j≡l. h (j≡l ∙ sym (text_eq→eq k l e))))
    | inr e ↦ rw (e, lookup-insert_other k j v m h)
  ]

  -- What holds of every entry holds of what is found.
  pub lookup-All :
      (P : Text × V → Type 0) (k : Text) (v : V) (m : TextMap V)
      → All P m
      → lookup k m ≡ some v
      → P (k, v)
  unfolding lookup
  lookup-All P k v [] h = λ e. absurd (none-ne-some v e)
  lookup-All P k v ((l, u) ∷ m) h =
      if-cases (λ o. o ≡ some v → P (k, v)) (text_eq k l) (some u) (lookup k m)
        (λ same e.
          subst (λ j. P (j, v)) (sym (text_eq→eq k l same))
            (subst (λ w. P (l, w)) (some-injective u v e) h.0))
        (λ _. lookup-All P k v m h.1)

  -- After the loop, what held of every entry does, and the test picks none.
  pub All-drop_where :
      (P : Text × V → Type 0) (p : Text → V → Bool) (m : TextMap V)
      → All P m
      → All (λ e. P e × (p e.0 e.1 ≡ false)) (drop_where p m)
  unfolding drop_where
  All-drop_where P p [] h = tt
  All-drop_where P p ((l, u) ∷ m) h =
      if-cases (All (λ e. P e × (p e.0 e.1 ≡ false))) (p l u) _ _ (λ _. All-drop_where P p m h.1)
        (λ e. ((h.0, e), All-drop_where P p m h.1))

  pub All-insert :
      (P : Text × V → Type 0) (k : Text) (v : V) (m : TextMap V)
      → P (k, v)
      → All P m
      → All P (insert k v m)
  unfolding insert
  All-insert P k v [] h hs = (h, tt)
  All-insert P k v ((l, u) ∷ m) h hs =
      if-cases (All P) (text_eq k l) _ _
        (λ same. (subst (λ j. P (j, v)) (text_eq→eq k l same) h, hs.1))
        (λ _. (hs.0, All-insert P k v m h hs.1))

  pub lookup-delete : (k : Text) (m : TextMap V) → lookup k (delete k m) ≡ none
  unfolding lookup delete drop_where
  lookup-delete k [] = refl
  lookup-delete k ((l, u) ∷ m) = elim (Bool-cases (text_eq k l)) [
    | inl e ↦ rw (e, lookup-delete k m)
    | inr e ↦ rw (e, e, lookup-delete k m)
  ]

  pub lookup-delete_other :
      (k j : Text) (m : TextMap V) → j ≢ k → lookup j (delete k m) ≡ lookup j m
  unfolding lookup delete drop_where
  lookup-delete_other k j [] h = refl
  lookup-delete_other k j ((l, u) ∷ m) h = elim (Bool-cases (text_eq k l)) [
    | inl e ↦
        rw (e, text_neq j l (λ j≡l. h (j≡l ∙ sym (text_eq→eq k l e))), lookup-delete_other k j m h)
    | inr e ↦ rw (e, lookup-delete_other k j m h)
  ]
