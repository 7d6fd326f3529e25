-- ===== src/Routing/LightPbx/Targets.antt =====
-- modules/routing/LightPbxProvisionReader.js: what every route that is returned satisfies.
use arnacon_webrtc_service.Shared.{
  ℕ, suc, ◌^◌, ◌≤◌, ◌<◌, ◌≡◌, refl, sym, ap, Bool, true, false, ◌||◌, not, Option, none, some, List,
  [], ◌∷◌, if-cases, ltb, Text, text, text_eq, text_eq→eq, to_lower, ◌&&◌, Distinct, length, map,
  length-map, any, All, any-cons, arith, ltb→lt, ||_left, ||_right,
}
use mathlib.Core.Path.{subst}
use mathlib.Core.Bool.{true≢false}
use arnacon_webrtc_service.Routing.LightPbx.Provisions.{
  Error, Result, returns, throws, require, and_then, Provision, RouteType, direct, multi_ring, ivr,
  Route, is_email_identity, is_openai_sip_target, keep_if, unique, first_target, email_targets,
  choose_targets, good_count, is_none, is_direct, safe_revision, type_or, build_route,
  route_of_type, raw_targets, route_type_of, schema_unsupported, kind_invalid, label_mismatch,
  identity_mismatch, provider_invalid, owner_invalid, to_canonical_route, is_owner_address,
}

module _ {ℓ} {A : Type ℓ} where
  abbrev is_returned : Result A → Bool
  is_returned (returns a) = true
  is_returned (throws e) = false

  abbrev returned_or : A → Result A → A
  returned_or b (returns a) = a
  returned_or b (throws e) = b

  throws≢returns : (e : Error) (a : A) → ◌≡◌ {A = Result A} (throws e) (returns a) → ⊥
  throws≢returns e a h = true≢false (sym (ap is_returned h))

  returns_injective : (a b : A) → ◌≡◌ {A = Result A} (returns a) (returns b) → a ≡ b
  returns_injective a b h = ap (returned_or a) h

  pub require-returns :
      (b : Bool) (e : Error) (rest : Result A) (a : A)
      → require b e rest ≡ returns a
      → (b ≡ true) × (rest ≡ returns a)
  require-returns true e rest a h = (refl, h)
  require-returns false e rest a h = absurd (throws≢returns e a h)

pub and_then-returns {ℓ κ} :
    {A : Type ℓ} {B : Type κ} (r : Result A) (f : A → Result B) (b : B)
    → and_then r f ≡ returns b
    → (a : A) × (r ≡ returns a) × (f a ≡ returns b)
and_then-returns (returns a) f b h = (a, refl, h)
and_then-returns (throws e) f b h = absurd (throws≢returns e b h)

module _ {ℓ} {A : Type ℓ} where
  length-keep_if : (p : A → Bool) (xs : List A) → length (keep_if p xs) ≤ length xs
  unfolding keep_if
  length-keep_if p [] = omega arith
  length-keep_if p (x ∷ xs) =
      if-cases (λ (ys : List A). length ys ≤ suc (length xs)) (p x) _ _
        (λ _. omega (arith, length-keep_if p xs)) (λ _. omega (arith, length-keep_if p xs))

  keep_if-All : (p : A → Bool) (xs : List A) → All (λ x. p x ≡ true) (keep_if p xs)
  unfolding keep_if
  keep_if-All p [] = tt
  keep_if-All p (x ∷ xs) =
      if-cases (All (λ x. p x ≡ true)) (p x) _ _ (λ h. (h, keep_if-All p xs))
        (λ _. keep_if-All p xs)

  All-keep_if {κ} : (P : A → Type κ) (p : A → Bool) (xs : List A) → All P xs → All P (keep_if p xs)
  unfolding keep_if
  All-keep_if P p [] h = tt
  All-keep_if P p (x ∷ xs) h =
      if-cases (All P) (p x) _ _ (λ _. (h.0, All-keep_if P p xs h.1)) (λ _. All-keep_if P p xs h.1)

  any-keep_if : (q p : A → Bool) (xs : List A) → any q xs ≡ false → any q (keep_if p xs) ≡ false
  unfolding keep_if
  any-keep_if q p [] h = refl
  any-keep_if q p (x ∷ xs) h =
      if-cases (λ (ys : List A). any q ys ≡ false) (p x) _ _
        (λ _.
          any-cons q x (keep_if p xs) (||_left (q x) (any q xs) h)
            (any-keep_if q p xs (||_right (q x) (any q xs) h)))
        (λ _. any-keep_if q p xs (||_right (q x) (any q xs) h))

  any-keep_others : (p : A → Bool) (xs : List A) → any p (keep_if (λ x. not (p x)) xs) ≡ false
  unfolding keep_if
  any-keep_others p [] = refl
  any-keep_others p (x ∷ xs) =
      if-cases (λ (ys : List A). any p ys ≡ false) (not (p x)) _ _
        (λ h. any-cons p x (keep_if (λ y. not (p y)) xs) (not_true (p x) h) (any-keep_others p xs))
        (λ _. any-keep_others p xs)
    where
      not_true : (b : Bool) → not b ≡ true → b ≡ false
      not_true b h = ground arith

keep_if-Distinct : (p : Text → Bool) (ts : List Text) → Distinct ts → Distinct (keep_if p ts)
unfolding keep_if
keep_if-Distinct p [] h = tt
keep_if-Distinct p (t ∷ ts) h =
    if-cases Distinct (p t) _ _ (λ _. (any-keep_if (text_eq t) p ts h.0, keep_if-Distinct p ts h.1))
      (λ _. keep_if-Distinct p ts h.1)

pub unique-Distinct : (ts : List Text) → Distinct (unique ts)
unfolding unique
unique-Distinct [] = tt
unique-Distinct (t ∷ ts) =
    (any-keep_others (text_eq t) (unique ts), keep_if-Distinct _ (unique ts) (unique-Distinct ts))

length-unique : (ts : List Text) → length (unique ts) ≤ length ts
unfolding unique
length-unique [] = omega arith
length-unique (t ∷ ts) =
    omega (arith, length-keep_if (λ u. not (text_eq t u)) (unique ts), length-unique ts)

All-unique : (P : Text → Type 0) (ts : List Text) → All P ts → All P (unique ts)
unfolding unique
All-unique P [] h = tt
All-unique P (t ∷ ts) h = (h.0, All-keep_if P _ (unique ts) (All-unique P ts h.1))

-- What holds of a target, by the type of its route.
abbrev pub valid_target : RouteType → Text → Bool
unfolding is_email_identity is_openai_sip_target
valid_target direct t = is_email_identity t
valid_target multi_ring t = is_email_identity t
valid_target ivr t = is_openai_sip_target t

abbrev pub most_targets : RouteType → ℕ
most_targets direct = 1
most_targets multi_ring = 5
most_targets ivr = 1

unfoldable pub AreTargets : RouteType → List Text → Type 0
unfolding valid_target
AreTargets type ts =
    (length ts ≤ most_targets type) × All (λ t. valid_target type t ≡ true) ts × Distinct ts

email_targets-AreTargets :
    (raws : List Text)
    → (length (email_targets raws).0 ≤ length raws)
      × All (λ t. is_email_identity t ≡ true) (email_targets raws).0
      × Distinct (email_targets raws).0
unfolding email_targets
email_targets-AreTargets raws =
    let kept = keep_if is_email_identity (map to_lower raws) in
    (
      omega (
        arith,
        length-unique kept,
        length-keep_if is_email_identity (map to_lower raws),
        length-map to_lower raws,
      ),
      All-unique _ kept (keep_if-All is_email_identity (map to_lower raws)),
      unique-Distinct kept,
    )

choose_targets-AreTargets :
    (type : RouteType) (raws : List Text) (chosen : List Text × ℕ)
    → good_count type (length raws) ≡ true
    → choose_targets type raws ≡ returns chosen
    → AreTargets type chosen.0
unfolding choose_targets AreTargets valid_target
choose_targets-AreTargets direct raws chosen count chose =
    let emails = email_targets-AreTargets raws in
    subst (λ (c : List Text × ℕ). AreTargets direct c.0)
      (returns_injective (email_targets raws) chosen chose) (ground arith, emails.1, emails.2)
choose_targets-AreTargets multi_ring raws chosen count chose =
    let emails = email_targets-AreTargets raws in
    subst (λ (c : List Text × ℕ). AreTargets multi_ring c.0)
      (returns_injective (email_targets raws) chosen chose) (ground arith, emails.1, emails.2)
choose_targets-AreTargets ivr raws chosen count chose =
    let both = require-returns (is_openai_sip_target (first_target raws)) _ _ chosen chose in
    subst (λ (c : List Text × ℕ). AreTargets ivr c.0)
      (returns_injective (first_target raws ∷ [], 0) chosen both.1)
      (omega arith, (both.0, tt), (refl, tt))

-- A route has targets, as many as its type allows and no two the same, each a text of the form that the
-- type asks for; and its revision is a safe integer.
unfoldable pub IsRoute : Route → Type 0
unfolding AreTargets
IsRoute r = (1 ≤ length r.targets) × AreTargets r.route_type r.targets × (r.route_revision < 2 ^ 53)

safe_revision-lt : (o : Option ℕ) (n : ℕ) → safe_revision o ≡ returns n → n < 2 ^ 53
safe_revision-lt none n h = absurd (throws≢returns _ n h)
safe_revision-lt (some m) n h =
    let both = require-returns (ltb m (2 ^ 53)) _ (returns m) n h in
    subst (λ k. k < 2 ^ 53) (returns_injective m n both.1) (ltb→lt m (2 ^ 53) both.0)

nonempty : (ts : List Text) (b : Bool) → not (is_none ts || b) ≡ true → 1 ≤ length ts
nonempty [] b h = ground arith
nonempty (t ∷ ts) b h = omega arith

build_route-IsRoute :
    (identifier key identity : Text) (p : Provision) (type : RouteType) (chosen : List Text × ℕ)
    (route : Route)
    → AreTargets type chosen.0
    → build_route identifier key identity p type chosen ≡ returns route
    → IsRoute route × (route.route_identity ≡ identity)
unfolding build_route IsRoute
build_route-IsRoute identifier key identity p type (targets, rejected) route ok h =
    let checked = require-returns _ _ _ route h in
    let (n, safe, made) = and_then-returns (safe_revision p.revision) _ route checked.1 in
    subst (λ (r : Route). IsRoute r × (r.route_identity ≡ identity))
      (returns_injective _ route made)
      (
        (
          nonempty targets (is_direct type && ltb 0 rejected) checked.0,
          ok,
          safe_revision-lt p.revision n safe,
        ),
        refl,
      )

route_of_type-IsRoute :
    (identifier key identity : Text) (p : Provision) (type : RouteType) (route : Route)
    → route_of_type identifier key identity p type ≡ returns route
    → IsRoute route × (route.route_identity ≡ identity)
unfolding route_of_type
route_of_type-IsRoute identifier key identity p type route h =
    let (raws, listed, rest) = and_then-returns (raw_targets p.targets_of) _ route h in
    let counted = require-returns (good_count type (length raws)) _ _ route rest in
    let (chosen, chose, built) = and_then-returns (choose_targets type raws) _ route counted.1 in
    build_route-IsRoute identifier key identity p type chosen route
      (choose_targets-AreTargets type raws chosen counted.0 chose) built

-- A provision that gives a route names the called label and identity, and its owner is an address; the
-- route is of the called identity, in lower case, and satisfies `IsRoute`.
pub to_canonical_route-IsRoute :
    (identifier key label expected_identity : Text) (p : Provision) (route : Route)
    → to_canonical_route identifier key label expected_identity p ≡ returns route
    → IsRoute route
      × (route.route_identity ≡ to_lower expected_identity)
      × (p.label ≡ label)
      × (to_lower p.identity ≡ to_lower expected_identity)
      × (is_owner_address p.owner ≡ true)
unfolding to_canonical_route
to_canonical_route-IsRoute identifier key label expected_identity p route h =
    let identity = to_lower expected_identity in
    let schema =
      require-returns (text_eq p.schema (text "arnacon.lightpbx.endpoint.v1")) schema_unsupported _
        route h in
    let kind =
      require-returns (text_eq p.kind (text "lightpbx_external_extension")) kind_invalid _ route
        schema.1 in
    let labels = require-returns (text_eq p.label label) label_mismatch _ route kind.1 in
    let same =
      require-returns (text_eq (to_lower p.identity) identity) identity_mismatch _ route labels.1 in
    let provider =
      require-returns (text_eq (to_lower p.provider) (text "cellact")) provider_invalid _ route
        same.1 in
    let owner = require-returns (is_owner_address p.owner) owner_invalid _ route provider.1 in
    let (type, known, rest) =
      and_then-returns (type_or (route_type_of p.type_name))
        (route_of_type identifier key identity p) route owner.1 in
    let made =
      route_of_type-IsRoute identifier key (to_lower expected_identity) p type route rest in
    (made.0, made.1, text_eq→eq p.label label labels.0, text_eq→eq _ _ same.0, owner.0)
