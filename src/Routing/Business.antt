-- ===== src/Routing/Business.antt =====
-- modules/routing/CallRouterApi.js: the keys of a business number, and the lookup that tries them.
pub mod Keys
use arnacon_webrtc_service.Shared.{
  ℕ, zero, suc, ◌+◌, ◌≤◌, ◌<◌, ◌≡◌, refl, sym, ap, ◌∙◌, Bool, true, false, ◌||◌, Option, none, some,
  List, [], ◌∷◌, ◌++◌, if◌then◌else◌, if-cases, Option-cases, inl, inr, ◌==◌, Text, text_eq,
  text_eq_refl, text_eq→eq, trim, to_lower, length, length-append, any, arith,
}
use arnacon_webrtc_service.Routing.Addresses.{at_last_dot, is_empty}

-- `replace("@", "_")`: the first one.
abbrev replace_at : Text → Text
replace_at [] = []
replace_at (c ∷ t) = if c == b'@' then b'_' ∷ t else c ∷ replace_at t

unfoldable pub normalized_key : Text → Text
unfolding trim to_lower
normalized_key id = replace_at (to_lower (trim id))

-- A text up to the first code unit `c`, and from it, if it has one.
unfoldable pub at_first : ℕ → Text → Option (Text × Text)
at_first c [] = none
at_first c (d ∷ t) =
    let rest = at_first c t in
    if d == c then some ([], t) else elim rest [ none ↦ none | some p ↦ some (d ∷ p.0, p.1) ]

abbrev up_to : Text → Option (Text × Text) → Text
up_to t none = t
up_to t (some p) = p.0

-- `split(".")`, and `filter(Boolean)`.
abbrev add_to_first : ℕ → List Text → List Text
add_to_first c [] = (c ∷ []) ∷ []
add_to_first c (p ∷ ps) = (c ∷ p) ∷ ps

abbrev split_dots : Text → List Text
split_dots [] = [] ∷ []
split_dots (c ∷ t) = let rest = split_dots t in if c == b'.' then [] ∷ rest else add_to_first c rest

abbrev keep_full : List Text → List Text
keep_full [] = []
keep_full ([] ∷ ps) = keep_full ps
keep_full ((c ∷ p) ∷ ps) = (c ∷ p) ∷ keep_full ps

abbrev join_dots : List Text → Text
join_dots [] = []
join_dots (p ∷ []) = p
join_dots (p ∷ q ∷ ps) = p ++ b'.' ∷ join_dots (q ∷ ps)

-- `slice(i).join(".")`, for each `i` from 1.
abbrev suffixes : List Text → List Text
suffixes [] = []
suffixes (p ∷ []) = []
suffixes (p ∷ q ∷ ps) = join_dots (q ∷ ps) ∷ suffixes (q ∷ ps)

-- `if (!lookups.includes(key)) lookups.push(key)`.
unfoldable pub push_new : Text → List Text → List Text
unfolding text_eq
push_new key ks = if any (text_eq key) ks then ks else ks ++ key ∷ []

unfoldable pub push_all : List Text → List Text → List Text
unfolding push_new
push_all [] ks = ks
push_all (key ∷ keys) ks = push_all keys (push_new key ks)

-- The `while` loop that cuts a text at its last dot, on fuel.
unfoldable pub cuts : ℕ → Text → List Text
unfolding at_last_dot
cuts zero t = []
cuts (suc n) t = elim (at_last_dot t) [ none ↦ [] | some p ↦ p.0 ∷ cuts n p.0 ]

abbrev keys_with : Text → List Text → List Text
keys_with domain [] = []
keys_with domain (s ∷ ss) =
    if is_empty s || is_empty domain
    then keys_with domain ss
    else (s ++ b'_' ∷ domain) ∷ keys_with domain ss

-- What is pushed after the first key, in order: for a local part and a domain, or for a plain name.
unfoldable pub more_keys : Text → Option (Text × Text) → List Text
unfolding at_first cuts
more_keys t none = cuts (length t) t
more_keys t (some p) =
    let domain = up_to p.1 (at_first b'_' p.1) in
    keys_with domain (suffixes (keep_full (split_dots p.0))) ++ domain ∷ cuts (length domain) domain

-- `buildBusinessLookupKeys`.
unfoldable pub build_business_lookup_keys : Text → List Text
unfolding normalized_key more_keys at_first push_all
build_business_lookup_keys id =
    let t = normalized_key id in
    if is_empty t then [] else push_all (more_keys t (at_first b'_' t)) (t ∷ [])

-- The loop of `roflCascadingBusinessLookup`: the keys that were asked for, and the number found.
unfoldable pub try_keys : (Text → Option Text) → List Text → List Text × Option Text
try_keys find [] = ([], none)
try_keys find (key ∷ keys) =
    let rest = try_keys find keys in
    elim (find key) [ none ↦ (key ∷ rest.0, rest.1) | some phone ↦ (key ∷ [], some phone) ]

-- `roflCascadingBusinessLookup`; `find` is `roflFindBusinessNumber`, none where it fails.
unfoldable pub cascading_business_lookup : (Text → Option Text) → Text → List Text × Option Text
unfolding build_business_lookup_keys try_keys
cascading_business_lookup find id = try_keys find (build_business_lookup_keys id)
