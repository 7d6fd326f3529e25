-- ===== src/Routing/LightPbx/Provisions.antt =====
-- modules/routing/LightPbxProvisionReader.js: the checks of a provision, and the route that it gives.
use arnacon_webrtc_service.Shared.{
  ℕ, zero, suc, ◌-◌, ◌^◌, Bool, true, false, ◌&&◌, ◌||◌, not, Option, none, some, List, [], ◌∷◌,
  if◌then◌else◌, leb, ltb, ◌==◌, Text, text, text_eq, trim, to_lower, to_upper, length, map,
}

-- The codes of `LightPbxProvisionError`.
pub data Error : Type 0 where
  payload_invalid_json payload_invalid : Error
  schema_unsupported kind_invalid label_mismatch identity_mismatch provider_invalid : Error
  owner_invalid route_unsupported targets_invalid direct_target_count multiring_target_count : Error
  ivr_target_count ivr_target_invalid target_invalid revision_invalid : Error
  record_lookup_failed payload_lookup_failed payload_missing revision_rollback : Error
  label_invalid called_identity_invalid : Error

pub data Result {ℓ} (A : Type ℓ) : Type ℓ where
  returns : A → Result A
  throws : Error → Result A

-- A check: the rest, where it holds.
abbrev pub require {ℓ} : {A : Type ℓ} → Bool → Error → Result A → Result A
require true e rest = rest
require false e rest = throws e

-- `provision.routing.targets`: missing, no array, or the texts of its elements.
pub data Targets : Type 0 where
  missing no_array : Targets
  listed : List Text → Targets

-- A provision; a text is empty where the code's `String` of a missing field is not read otherwise.
-- The revision is none where `Number` of it is no natural number.
pub record Provision : Type 0 where
  pub schema : Text
  pub kind : Text
  pub label : Text
  pub identity : Text
  pub provider : Text
  pub owner : Text
  pub type_name : Text
  pub targets_of : Targets
  pub group_id : Option Text
  pub revision : Option ℕ
  pub config_hash : Option Text

-- What `getProvision` gives.
pub data Raw : Type 0 where
  absent malformed : Raw
  written : Text → Raw
  object : Provision → Raw

pub data RouteType : Type 0 where
  direct multi_ring ivr : RouteType

pub record Route : Type 0 where
  pub provision_identifier : Text
  pub provision_key : Text
  pub route_identity : Text
  pub route_owner : Text
  pub route_type : RouteType
  pub targets : List Text
  pub rejected_target_count : ℕ
  pub route_group : Option Text
  pub route_revision : ℕ
  pub route_hash : Option Text

-- `parseProvision`; `JSON.parse` is a parameter, none where it throws.
unfoldable pub parse_provision : (Text → Option Provision) → Raw → Result Provision
parse_provision parse absent = throws payload_invalid
parse_provision parse malformed = throws payload_invalid
parse_provision parse (written t) = elim (parse t) [
  | none ↦ throws payload_invalid_json
  | some p ↦ returns p
]
parse_provision parse (object p) = returns p

abbrev between : ℕ → ℕ → ℕ → Bool
between low high c = leb low c && leb c high

abbrev is_lower_hex : ℕ → Bool
is_lower_hex c = between b'a' b'f' c || between b'0' b'9' c

abbrev is_hex : ℕ → Bool
is_hex c = is_lower_hex c || between b'A' b'F' c

abbrev is_alphanumeric : ℕ → Bool
is_alphanumeric c = between b'a' b'z' c || (between b'A' b'Z' c || between b'0' b'9' c)

-- `n` code units that pass the test, and then the text `rest`.
abbrev repeats : (ℕ → Bool) → ℕ → Text → Text → Bool
repeats p zero rest t = text_eq t rest
repeats p (suc n) rest [] = false
repeats p (suc n) rest (c ∷ t) = p c && repeats p n rest t

abbrev after_prefix : Text → Text → Option Text
after_prefix [] t = some t
after_prefix (c ∷ p) [] = none
after_prefix (c ∷ p) (d ∷ t) = if c == d then after_prefix p t else none

-- `EMAIL_IDENTITY`.
unfoldable pub is_email_identity : Text → Bool
unfolding text_eq
is_email_identity t = repeats is_lower_hex 64 (text ".email.global") t

-- `OWNER_ADDRESS`.
unfoldable pub is_owner_address : Text → Bool
unfolding text_eq
is_owner_address t = elim (after_prefix (text "0x") t) [
  | none ↦ false
  | some u ↦ repeats is_hex 40 [] u
]

-- One or more code units that pass the test, and then the text `rest`.
abbrev some_then : (ℕ → Bool) → Text → Text → Bool
some_then p rest [] = false
some_then p rest (c ∷ t) = p c && (text_eq t rest || some_then p rest t)

-- `OPENAI_SIP_TARGET`: the target that is built from its match is the text that matches.
unfoldable pub is_openai_sip_target : Text → Bool
unfolding text_eq
is_openai_sip_target t = elim (after_prefix (text "sip:proj_") t) [
  | none ↦ false
  | some u ↦ some_then is_alphanumeric (text "@sip.api.openai.com;transport=tls") u
]

unfoldable pub route_type_of : Text → Option RouteType
unfolding text_eq to_upper
route_type_of name =
    let t = to_upper name in
    if text_eq t (text "DIRECT")
    then some direct
    else if text_eq t (text "MULTI_RING")
    then some multi_ring
    else if text_eq t (text "IVR")
    then some ivr
    else none

unfoldable pub raw_targets : Targets → Result (List Text)
unfolding trim
raw_targets missing = returns []
raw_targets no_array = throws targets_invalid
raw_targets (listed ts) = returns (map trim ts)

abbrev pub good_count : RouteType → ℕ → Bool
good_count direct n = n == 1
good_count multi_ring n = leb 1 n && leb n 5
good_count ivr n = n == 1

abbrev pub count_error : RouteType → Error
count_error direct = direct_target_count
count_error multi_ring = multiring_target_count
count_error ivr = ivr_target_count

unfoldable pub keep_if {ℓ} : {A : Type ℓ} → (A → Bool) → List A → List A
keep_if p [] = []
keep_if p (x ∷ xs) = let rest = keep_if p xs in if p x then x ∷ rest else rest

-- `[...new Set(ts)]`.
unfoldable pub unique : List Text → List Text
unfolding keep_if text_eq
unique [] = []
unique (t ∷ ts) = t ∷ keep_if (λ u. not (text_eq t u)) (unique ts)

abbrev pub first_target : List Text → Text
first_target [] = []
first_target (t ∷ ts) = t

-- The targets that are identities, with the number of the others.
unfoldable pub email_targets : List Text → List Text × ℕ
unfolding is_email_identity unique keep_if to_lower
email_targets raws =
    let targets = unique (keep_if is_email_identity (map to_lower raws)) in
    (targets, length (map to_lower raws) - length targets)

-- The targets of a route, with the number of those that were rejected.
unfoldable pub choose_targets : RouteType → List Text → Result (List Text × ℕ)
unfolding is_openai_sip_target email_targets
choose_targets ivr raws =
    require (is_openai_sip_target (first_target raws)) ivr_target_invalid
      (returns (first_target raws ∷ [], 0))
choose_targets direct raws = returns (email_targets raws)
choose_targets multi_ring raws = returns (email_targets raws)

abbrev pub is_none {ℓ} : {A : Type ℓ} → List A → Bool
is_none [] = true
is_none (x ∷ xs) = false

abbrev pub is_direct : RouteType → Bool
is_direct direct = true
is_direct _ = false

-- `Number.isSafeInteger`.
abbrev pub safe_revision : Option ℕ → Result ℕ
safe_revision none = throws revision_invalid
safe_revision (some n) = require (ltb n (2 ^ 53)) revision_invalid (returns n)

abbrev pub and_then {ℓ κ} : {A : Type ℓ} {B : Type κ} → Result A → (A → Result B) → Result B
and_then (returns a) f = f a
and_then (throws e) f = throws e

abbrev pub type_or : Option RouteType → Result RouteType
type_or none = throws route_unsupported
type_or (some t) = returns t

unfoldable pub build_route :
    Text → Text → Text → Provision → RouteType → List Text × ℕ → Result Route
build_route identifier key identity p type (targets, rejected) =
    require (not (is_none targets || (is_direct type && ltb 0 rejected))) target_invalid (
      and_then (safe_revision p.revision) (λ revision. returns (record {
        provision_identifier = identifier;
        provision_key = key;
        route_identity = identity;
        route_owner = p.owner;
        route_type = type;
        targets = targets;
        rejected_target_count = rejected;
        route_group = p.group_id;
        route_revision = revision;
        route_hash = p.config_hash;
      })))

unfoldable pub route_of_type : Text → Text → Text → Provision → RouteType → Result Route
unfolding raw_targets choose_targets build_route
route_of_type identifier key identity p type = and_then (raw_targets p.targets_of) (λ raws.
    require (good_count type (length raws)) (count_error type)
      (and_then (choose_targets type raws) (build_route identifier key identity p type)))

-- `toCanonicalRoute`.
unfoldable pub to_canonical_route : Text → Text → Text → Text → Provision → Result Route
unfolding to_lower text_eq is_owner_address route_type_of route_of_type
to_canonical_route identifier key label expected_identity p =
    let identity = to_lower expected_identity in
    require (text_eq p.schema (text "arnacon.lightpbx.endpoint.v1")) schema_unsupported (
      require (text_eq p.kind (text "lightpbx_external_extension")) kind_invalid (
        require (text_eq p.label label) label_mismatch (
          require (text_eq (to_lower p.identity) identity) identity_mismatch (
            require (text_eq (to_lower p.provider) (text "cellact")) provider_invalid (
              require (is_owner_address p.owner) owner_invalid (
                and_then (type_or (route_type_of p.type_name))
                  (route_of_type identifier key identity p)))))))
