-- ===== src/Poly/Registry/Pairs.antt =====
-- modules/calls/poly/PolySessionRegistry.js: one session for a pair, whichever party is named first.
use mathlib.Core.Bool.{false≢true}
use mathlib.Core.Option.{none-ne-some}
use arnacon_webrtc_service.Shared.{
  ℕ, ◌≡◌, refl, sym, ◌∙◌, ap, Bool, ◌||◌, true, false, Option, none, some, List, [], ◌∷◌, Text,
  text_eq, TextMap, lookup, drop_where, All, All-drop_where, lookup-All, text_eq_refl,
  lookup-insert, lookup-delete, lookup-delete_other, ◌≢◌, if◌then◌else◌, Bool-cases, inl, inr,
  arith,
}
use arnacon_webrtc_service.Runtime.CallPairRef.{pair_key_from_identities, pair_key_comm}
use arnacon_webrtc_service.Poly.World.{Session, Port}
use arnacon_webrtc_service.Poly.Registry.{
  Registry, Spec, Target, create_session, create, found_or_created, resolve, is_empty, get, destroy,
  destroy_found,
}

module _ (make_hooks : Text → List ℕ) where
  abbrev resolved_in : Text → Spec → Spec → Registry → Registry
  unfolding lookup found_or_created
  resolved_in key a b r = (found_or_created make_hooks key a b (lookup key r.by_key) r).1

  resolve-registry :
      (a b : Spec) (target : Target) (r : Registry)
      → (resolve make_hooks a b target r).1 ≡ (
          if is_empty a.endpoint || is_empty b.endpoint
          then r
          else resolved_in (pair_key_from_identities a.endpoint b.endpoint) a b r)
  unfolding resolve
  resolve-registry a b target r = elim (Bool-cases (is_empty a.endpoint || is_empty b.endpoint)) [
    | inl e ↦ rw e
    | inr e ↦ rw e
  ]

  kept :
      (key : Text) (a b : Spec) (r : Registry) (s : Session)
      → lookup key r.by_key ≡ some s
      → resolved_in key a b r ≡ r
  unfolding found_or_created resolved_in
  kept key a b r s e = ap (λ o. (found_or_created make_hooks key a b o r).1) e

  found_again :
      (key : Text) (a b c d : Spec) (r : Registry) (o : Option Session)
      → lookup key r.by_key ≡ o
      → resolved_in key c d (found_or_created make_hooks key a b o r).1
        ≡ (found_or_created make_hooks key a b o r).1
  unfolding found_or_created create
  found_again key a b c d r none e =
      kept key c d _ (create_session (make_hooks key) a b)
        (lookup-insert key (create_session (make_hooks key) a b) r.by_key)
  found_again key a b c d r (some s) e = kept key c d r s e

  unchanged :
      (empty : Bool) (key : Text) (a b c d : Spec) (r : Registry)
      → (if empty
          then (if empty then r else resolved_in key a b r)
          else resolved_in key c d (if empty then r else resolved_in key a b r))
        ≡ (if empty then r else resolved_in key a b r)
  unfolding resolved_in
  unchanged true key a b c d r = refl
  unchanged false key a b c d r = found_again key a b c d r (lookup key r.by_key) refl

  or_comm : (p q : Bool) → (p || q) ≡ (q || p)
  or_comm p q = ground arith

  -- Resolving a pair again with its parties the other way round, for whatever targets, creates
  -- nothing: the registry is as the first `resolve` left it, whether that one found the session,
  -- created it or threw.
  pub resolve-again :
      (a b : Spec) (target target' : Target) (r : Registry)
      → (resolve make_hooks b a target' (resolve make_hooks a b target r).1).1
        ≡ (resolve make_hooks a b target r).1
  resolve-again a b target target' r =
      let empty = is_empty a.endpoint || is_empty b.endpoint in
      let key = pair_key_from_identities a.endpoint b.endpoint in
      let r' = (resolve make_hooks a b target r).1 in
      resolve-registry b a target' r'
      ∙ ap
          (λ e.
            if e then r' else resolved_in (pair_key_from_identities b.endpoint a.endpoint) b a r')
          (or_comm (is_empty b.endpoint) (is_empty a.endpoint))
      ∙ ap (λ k. if empty then r' else resolved_in k b a r') (pair_key_comm b.endpoint a.endpoint)
      ∙ ap (λ u. if empty then u else resolved_in key b a u) (resolve-registry a b target r)
      ∙ unchanged empty key a b b a r
      ∙ sym (resolve-registry a b target r)

All-unit : (m : TextMap Text) → All (λ e. Unit {0}) m
All-unit [] = tt
All-unit (e ∷ m) = (tt, All-unit m)

no_endpoint :
    (key label : Text) (m : TextMap Text)
    → lookup label (drop_where (λ endpoint k. text_eq k key) m) ≢ some key
no_endpoint key label m found = false≢true (
    sym
      (lookup-All (λ e. Unit {0} × (text_eq e.1 key ≡ false)) label key _
        (All-drop_where (λ e. Unit {0}) (λ endpoint k. text_eq k key) m (All-unit m)) found).1
    ∙ text_eq_refl key)

-- The three things that `destroy` sees to.
abbrev pub Forgets : Text → Registry → Registry → Type 0
Forgets key r r' =
    (get key r' ≡ none)
    × ((j : Text) → j ≢ key → get j r' ≡ get j r)
    × ((label : Text) → lookup label r'.by_endpoint ≢ some key)

module _ (port : Port) (retries : ℕ) (make_hooks : Text → List ℕ) where
  destroy_found-Forgets :
      (key : Text) (r : Registry) (s : Session) (o : Option Session)
      → o ≡ some s
      → Forgets key r (destroy_found port retries make_hooks o key r).1
  unfolding destroy_found get
  destroy_found-Forgets key r s none e = absurd (none-ne-some s e)
  destroy_found-Forgets key r s (some t) e = (
    lookup-delete key r.by_key,
    λ j h. lookup-delete_other key j r.by_key h,
    λ label. no_endpoint key label r.by_endpoint,
  )

  -- Once the session of a key is destroyed, the key leads to no session and no endpoint to the key,
  -- and every other key leads where it did.
  pub destroy-Forgets :
      (key : Text) (r : Registry) (s : Session)
      → get key r ≡ some s
      → Forgets key r (destroy port retries make_hooks key r).1
  unfolding destroy get
  destroy-Forgets key r s found = destroy_found-Forgets key r s (lookup key r.by_key) found
