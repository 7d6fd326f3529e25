-- ===== src/Routing/LightPbx/Reads.antt =====
-- modules/routing/LightPbxProvisionReader.js: what each part of a read leaves of the revisions, and what
-- it delivers.
use arnacon_webrtc_service.Shared.{
  ℕ, ◌≤◌, ◌≡◌, ◌&&◌, refl, sym, ap, ◌∙◌, true, false, not, Option, none, some, [], ◌∷◌, ◌++◌,
  if-cases, ltb, Text, text, text_eq, trim, to_lower, lookup, lookup-insert, all, all-append,
  &&_right, arith,
}
use mathlib.Core.Path.{subst}
use mathlib.Core.Option.{none-ne-some, some-injective}
use arnacon_webrtc_service.Routing.LightPbx.Provisions.{
  Result, label_invalid, called_identity_invalid, returns, throws, Route,
}
use arnacon_webrtc_service.Routing.LightPbx.Reader.{
  Config, Cached, Reader, Found, Start, rejected, missed, look_for, unexpired, or_identity, gives,
  is_label, is_digit, is_none, identity_of, is_stale, highest, read_started, cache_key, checked,
  use_cached, key_resolved, keep, accept,
}
use arnacon_webrtc_service.Routing.LightPbx.Revisions.{
  at_least, no_colon, IsKept, keep-IsKept, at_least-insert, at_least-highest, at_least_le,
}

abbrev pub route_in : Result Route → Option Route
route_in (returns route) = some route
route_in (throws e) = none

abbrev pub route_found : Found → Option Route
route_found (gives o) = route_in o
route_found _ = none

-- What a part of a read leaves of the reader: the cache keeps to the revisions that were reached, which
-- only rise; and the route that it delivers, if any, is of no lower revision than its identity's.
pub record Keeps (i : Text) (r : Reader) (delivered : Option Route) (after : Reader) : Type 0 where
  pub kept : IsKept r → IsKept after
  pub delivers :
      (route : Route)
      → IsKept r
      → delivered ≡ some route
      → at_least route.route_revision (lookup i after.highest_revision) ≡ true
  pub fresh :
      (route : Route) (n : ℕ)
      → delivered ≡ some route
      → at_least n (lookup i r.highest_revision) ≡ true
      → n ≤ route.route_revision
  pub rises :
      (n : ℕ) (j : Text)
      → at_least n (lookup j r.highest_revision) ≡ true
      → at_least n (lookup j after.highest_revision) ≡ true

-- A part that delivers nothing and leaves the revisions and the cached provisions.
pub Keeps-idle :
    (i : Text) (r after : Reader)
    → after.provision_cache ≡ r.provision_cache
    → after.highest_revision ≡ r.highest_revision
    → Keeps i r none after
unfolding IsKept
Keeps-idle i r after same_cache same_revisions = record {
  kept = λ h j key c clean found.
      ap (λ m. at_least c.route.route_revision (lookup j m)) same_revisions
      ∙ h j key c clean (sym (ap (lookup (cache_key j key)) same_cache) ∙ found);
  delivers = λ route h e. absurd (none-ne-some route e);
  fresh = λ route n e. absurd (none-ne-some route e);
  rises = λ n j h. ap (λ m. at_least n (lookup j m)) same_revisions ∙ h;
}

-- A route that is delivered.
Keeps-delivered :
    (i : Text) (route : Route) (r after : Reader)
    → is_stale route.route_revision (lookup i r.highest_revision) ≡ false
    → (IsKept r → IsKept after)
    → (IsKept r → at_least route.route_revision (lookup i after.highest_revision) ≡ true)
    → ((n : ℕ) (j : Text)
        → at_least n (lookup j r.highest_revision) ≡ true
        → at_least n (lookup j after.highest_revision) ≡ true)
    → Keeps i r (some route) after
Keeps-delivered i route r after live kept reached rises = record {
  kept = kept;
  delivers = λ other h e.
      subst (λ (p : Route). at_least p.route_revision (lookup i after.highest_revision) ≡ true)
        (some-injective route other e) (reached h);
  fresh = λ other n e h.
      subst (λ (p : Route). n ≤ p.route_revision) (some-injective route other e)
        (at_least_le n route.route_revision (lookup i r.highest_revision) h live);
  rises = rises;
}

checked-Keeps :
    (i key : Text) (c : Cached) (r : Reader)
    → no_colon i ≡ true
    → lookup (cache_key i key) r.provision_cache ≡ some c
    → Keeps i r (route_in (checked c.route (lookup i r.highest_revision))) r
unfolding IsKept
checked-Keeps i key c r clean found =
    if-cases (λ (x : Result Route). Keeps i r (route_in x) r)
      (is_stale c.route.route_revision (lookup i r.highest_revision)) _ _
      (λ _. Keeps-idle i r r refl refl)
      (λ live.
        Keeps-delivered i c.route r r live (λ h. h) (λ h. h i key c clean found) (λ n j h. h))

pub key_resolved-Keeps :
    (i : Text) (key : Option Text) (now : ℕ) (r : Reader)
    → no_colon i ≡ true
    → Keeps i r (route_found (key_resolved i key now r)) r
unfolding key_resolved use_cached
key_resolved-Keeps i none now r clean = Keeps-idle i r r refl refl
key_resolved-Keeps i (some key) now r clean =
    of_cached (lookup (cache_key i key) r.provision_cache) refl
  where
    of_cached :
        (o : Option Cached)
        → lookup (cache_key i key) r.provision_cache ≡ o
        → Keeps i r (route_found (use_cached i now o r)) r
    of_cached none found = Keeps-idle i r r refl refl
    of_cached (some c) found =
        if-cases (λ f. Keeps i r (route_found f) r) (ltb now c.expires_at) _ _
          (λ _. checked-Keeps i key c r clean found) (λ _. Keeps-idle i r r refl refl)

pub accept-Keeps :
    (g : Config) (i key : Text) (now : ℕ) (o : Result Route) (r : Reader)
    → no_colon i ≡ true
    → Keeps i r (route_in (accept g i key now o r).0) (accept g i key now o r).1
unfolding accept keep
accept-Keeps g i key now (throws e) r clean = Keeps-idle i r r refl refl
accept-Keeps g i key now (returns route) r clean =
    if-cases (λ (p : Result Route × Reader). Keeps i r (route_in p.0) p.1)
      (is_stale route.route_revision (lookup i r.highest_revision)) _ _
      (λ _. Keeps-idle i r r refl refl)
      (λ live.
        Keeps-delivered i route r (keep g i key now route r) live
          (keep-IsKept g i key now route r clean)
          (λ _.
            ap (at_least route.route_revision) (
              lookup-insert i (highest route.route_revision (lookup i r.highest_revision))
                r.highest_revision)
            ∙ at_least-highest route.route_revision (lookup i r.highest_revision))
          (λ n j h. at_least-insert n route.route_revision i j r.highest_revision h))

look_for-Keeps :
    (i label expected : Text) (now : ℕ) (r : Reader)
    → Keeps i r none (look_for label expected now r).1
unfolding look_for
look_for-Keeps i label expected now r =
    if-cases (λ (p : Start × Reader). Keeps i r none p.1)
      (unexpired now (lookup expected r.miss_cache)) (missed, r) _ (λ _. Keeps-idle i r r refl refl)
      (λ _. Keeps-idle i r _ refl refl)

pub read_started-Keeps :
    (g : Config) (i input : Text) (identity : Option Text) (now : ℕ) (r : Reader)
    → Keeps i r none (read_started g input identity now r).1
unfolding read_started
read_started-Keeps g i input identity now r =
    let label = trim input in
    let expected = to_lower (trim (or_identity identity (identity_of g label))) in
    if-cases (λ (p : Start × Reader). Keeps i r none p.1) (not (is_label label))
      (rejected label_invalid, r) _ (λ _. Keeps-idle i r r refl refl)
      (λ _.
        if-cases (λ (p : Start × Reader). Keeps i r none p.1)
          (not (text_eq expected (identity_of g label))) (rejected called_identity_invalid, r) _
          (λ _. Keeps-idle i r r refl refl) (λ _. look_for-Keeps i label expected now r))

digits-no_colon : (t : Text) → all is_digit t ≡ true → no_colon t ≡ true
digits-no_colon [] h = refl
digits-no_colon (c ∷ t) h = ground (arith, digits-no_colon t)

pub identity_of-no_colon :
    (g : Config) (label : Text)
    → no_colon g.tenant_name ≡ true
    → is_label label ≡ true
    → no_colon (identity_of g label) ≡ true
unfolding is_label identity_of
identity_of-no_colon g label plain h =
    all-append _ (label ++ b'.' ∷ g.tenant_name) (text ".global")
    ∙ ap (λ b. b && true) (all-append _ label (b'.' ∷ g.tenant_name))
    ∙ rw (digits-no_colon label (&&_right (not (is_none label)) (all is_digit label) h), plain)
