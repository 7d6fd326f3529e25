-- ===== src/Routing/LightPbx/Revisions.antt =====
-- modules/routing/LightPbxProvisionReader.js: the revisions that reads deliver, in any order of their
-- parts.
use arnacon_webrtc_service.Shared.{
  ℕ, ◌+◌, ◌≤◌, ◌≡◌, ◌≢◌, refl, sym, ap, ◌∙◌, Bool, true, false, not, Option, none, some, [], ◌∷◌,
  ◌++◌, Bool-cases, inl, inr, leb, ◌==◌, Text, text_eq, text_eq→eq, text_eq_refl, TextMap, lookup,
  insert, lookup-insert, lookup-insert_other, all, arith,
}
use mathlib.Core.Path.{subst}
use mathlib.Core.Bool.{true≢false}
use mathlib.Core.Option.{some-injective}
use arnacon_webrtc_service.Routing.LightPbx.Provisions.{Route}
use arnacon_webrtc_service.Routing.LightPbx.Reader.{
  Config, Cached, Reader, is_stale, highest, cache_key, keep,
}

abbrev pub at_least : ℕ → Option ℕ → Bool
at_least n none = false
at_least n (some h) = leb n h

abbrev pub no_colon : Text → Bool
no_colon t = all (λ c. not (c == b':')) t

-- Every cached route has a revision that its identity has reached.
unfoldable pub IsKept : Reader → Type 0
unfolding lookup cache_key
IsKept r =
    (i key : Text) (c : Cached)
    → no_colon i ≡ true
    → lookup (cache_key i key) r.provision_cache ≡ some c
    → at_least c.route.route_revision (lookup i r.highest_revision) ≡ true

cache_key_injective :
    (i j k l : Text)
    → no_colon i ≡ true
    → no_colon j ≡ true
    → text_eq (i ++ b':' ∷ k) (j ++ b':' ∷ l) ≡ true
    → text_eq i j ≡ true
unfolding text_eq
cache_key_injective [] [] k l p q h = refl
cache_key_injective [] (d ∷ j) k l p q h = ground arith
cache_key_injective (c ∷ i) [] k l p q h = ground arith
cache_key_injective (c ∷ i) (d ∷ j) k l p q h = ground (arith, cache_key_injective i j k l)

pub at_least-highest : (n : ℕ) (o : Option ℕ) → at_least n (some (highest n o)) ≡ true
at_least-highest n none = ground arith
at_least-highest n (some h) = ground arith

highest-at_least :
    (n m : ℕ) (o : Option ℕ) → at_least n o ≡ true → at_least n (some (highest m o)) ≡ true
highest-at_least n m none h = ground arith
highest-at_least n m (some k) h = ground arith

text_eq-apart : (t u : Text) → text_eq t u ≡ false → t ≢ u
text_eq-apart t u e p = true≢false (sym (text_eq_refl t) ∙ ap (text_eq t) p ∙ e)

-- A revision that was reached stays reached when another identity's, or a higher one, is noted.
pub at_least-insert :
    (n m : ℕ) (i j : Text) (seen : TextMap ℕ)
    → at_least n (lookup j seen) ≡ true
    → at_least n (lookup j (insert i (highest m (lookup i seen)) seen)) ≡ true
at_least-insert n m i j seen h = elim (Bool-cases (text_eq j i)) [
  | inl e ↦
      let same = text_eq→eq j i e in
      subst (λ p. at_least n (lookup p (insert i (highest m (lookup i seen)) seen)) ≡ true)
        (sym same)
        (ap (at_least n) (lookup-insert i (highest m (lookup i seen)) seen)
          ∙ highest-at_least n m (lookup i seen)
              (ap (λ p. at_least n (lookup p seen)) (sym same) ∙ h))
  | inr e ↦
      ap (at_least n)
        (lookup-insert_other i j (highest m (lookup i seen)) seen (text_eq-apart j i e))
      ∙ h
]

pub at_least_le : (n m : ℕ) (o : Option ℕ) → at_least n o ≡ true → is_stale m o ≡ false → n ≤ m
at_least_le n m none h k = ground arith
at_least_le n m (some x) h k = ground arith

module _ (g : Config) where
  pub keep-IsKept :
      (i key : Text) (now : ℕ) (route : Route) (r : Reader)
      → no_colon i ≡ true
      → IsKept r
      → IsKept (keep g i key now route r)
  unfolding IsKept keep cache_key
  keep-IsKept i key now route r clean kept j key' c clean' found =
      elim (Bool-cases (text_eq (cache_key j key') (cache_key i key))) [
        | inl e ↦
            let place = text_eq→eq (cache_key j key') (cache_key i key) e in
            let same = text_eq→eq j i (cache_key_injective j i key' key clean' clean e) in
            let written = some-injective c new (
              sym found
              ∙ ap (λ p. lookup p (insert (cache_key i key) new r.provision_cache)) place
              ∙ lookup-insert (cache_key i key) new r.provision_cache) in
            ap (λ p. at_least c.route.route_revision (lookup p seen)) same
            ∙ ap (at_least c.route.route_revision) (
                lookup-insert i (highest route.route_revision (lookup i r.highest_revision))
                  r.highest_revision)
            ∙ ap
                (λ (d : Cached).
                  at_least d.route.route_revision
                    (some (highest route.route_revision (lookup i r.highest_revision))))
                written
            ∙ at_least-highest route.route_revision (lookup i r.highest_revision)
        | inr e ↦
            at_least-insert c.route.route_revision route.route_revision i j r.highest_revision (
              kept j key' c clean' (
                sym (
                  lookup-insert_other (cache_key i key) (cache_key j key') _ r.provision_cache
                    (text_eq-apart (cache_key j key') (cache_key i key) e))
                ∙ found))
      ]
    where
      new : Cached
      new = record { route = route; expires_at = now + g.route_ttl }

      seen : TextMap ℕ
      seen =
          insert i (highest route.route_revision (lookup i r.highest_revision)) r.highest_revision
