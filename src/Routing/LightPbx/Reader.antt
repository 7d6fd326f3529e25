-- ===== src/Routing/LightPbx/Reader.antt =====
-- modules/routing/LightPbxProvisionReader.js: the reader with its caches. A read is one function up to
-- each lookup of the SDK, and one from it; the timeout of a read changes nothing of the reader, and logs
-- are left out.
use arnacon_webrtc_service.Shared.{
  ℕ, ◌+◌, Bool, true, false, ◌&&◌, not, Option, none, some, [], ◌∷◌, ◌++◌, if◌then◌else◌, leb, ltb,
  Text, text, text_eq, trim, to_lower, TextMap, lookup, insert, delete, all,
}
use arnacon_webrtc_service.Routing.LightPbx.Provisions.{
  Error, Result, returns, throws, and_then, Provision, Raw, absent, Route, parse_provision,
  to_canonical_route, payload_missing, revision_rollback, label_invalid, called_identity_invalid,
  payload_lookup_failed,
}

-- An entry of `provisionCache`.
pub record Cached : Type 0 where
  pub route : Route
  pub expires_at : ℕ

pub record Reader : Type 0 where
  pub provision_cache : TextMap Cached
  pub miss_cache : TextMap ℕ
  pub highest_revision : TextMap ℕ

abbrev pub max : ℕ → ℕ → ℕ
max a b = if leb a b then b else a

abbrev pub min : ℕ → ℕ → ℕ
min a b = if leb a b then a else b

abbrev pub is_digit : ℕ → Bool
is_digit c = leb b'0' c && leb c b'9'

abbrev pub is_none : Text → Bool
is_none [] = true
is_none (c ∷ t) = false

unfoldable pub is_label : Text → Bool
is_label t = not (is_none t) && all is_digit t

-- Where a read stands after its first part.
pub data Start : Type 0 where
  rejected : Error → Start
  missed : Start
  looks_up : Text → Text → Start

-- Where it stands once the key is known.
pub data Found : Type 0 where
  no_key : Found
  gives : Result Route → Found
  fetches : Found

pub data Fetched : Type 0 where
  lookup_failed : Fetched
  fetched : Raw → Fetched

abbrev pub is_stale : ℕ → Option ℕ → Bool
is_stale n none = false
is_stale n (some h) = ltb n h

abbrev pub highest : ℕ → Option ℕ → ℕ
highest n none = n
highest n (some h) = max h n

-- The tenant, the times to live, and `JSON.parse` of a provision.
pub record Config : Type 0 where
  pub tenant_name : Text
  pub route_ttl : ℕ
  pub miss_ttl : ℕ
  pub parse : Text → Option Provision

abbrev pub or_identity : Option Text → Text → Text
or_identity none t = t
or_identity (some []) t = t
or_identity (some (c ∷ u)) t = c ∷ u

abbrev pub unexpired : ℕ → Option ℕ → Bool
unexpired now none = false
unexpired now (some t) = ltb now t

-- The key of `provisionCache`.
unfoldable pub cache_key : Text → Text → Text
cache_key identity key = identity ++ b':' ∷ key

abbrev pub checked : Route → Option ℕ → Result Route
checked route h =
    if is_stale route.route_revision h then throws revision_rollback else returns route

unfoldable pub use_cached : Text → ℕ → Option Cached → Reader → Found
unfolding lookup
use_cached identity now none r = fetches
use_cached identity now (some c) r =
    if ltb now c.expires_at
    then gives (checked c.route (lookup identity r.highest_revision))
    else fetches

-- `readUncached` between its lookups, by the key that the record holds; where `getRecord` fails, the read
-- does, and leaves the reader as it is.
unfoldable pub key_resolved : Text → Option Text → ℕ → Reader → Found
unfolding lookup use_cached cache_key
key_resolved identity none now r = no_key
key_resolved identity (some key) now r =
    use_cached identity now (lookup (cache_key identity key) r.provision_cache) r

-- The test of `missCache`.
unfoldable pub look_for : Text → Text → ℕ → Reader → Start × Reader
unfolding lookup delete
look_for label expected now r =
    if unexpired now (lookup expected r.miss_cache)
    then (missed, r)
    else (looks_up label expected, record r { miss_cache = delete expected r.miss_cache })

module _ (g : Config) where
  unfoldable pub identity_of : Text → Text
  identity_of label = label ++ b'.' ∷ g.tenant_name ++ text ".global"

  -- `readLightPbxProvision` up to `readUncached`.
  unfoldable pub read_started : Text → Option Text → ℕ → Reader → Start × Reader
  unfolding trim is_label to_lower identity_of text_eq look_for
  read_started input_label input_identity now r =
      let label = trim input_label in
      let expected = to_lower (trim (or_identity input_identity (identity_of label))) in
      if not (is_label label)
      then (rejected label_invalid, r)
      else if not (text_eq expected (identity_of label))
      then (rejected called_identity_invalid, r)
      else look_for label expected now r

  unfoldable pub received : Fetched → Result Provision
  unfolding parse_provision
  received lookup_failed = throws payload_lookup_failed
  received (fetched absent) = throws payload_missing
  received (fetched raw) = parse_provision g.parse raw

  unfoldable pub keep : Text → Text → ℕ → Route → Reader → Reader
  unfolding insert lookup cache_key
  keep identity key now route r = record r {
    highest_revision =
        insert identity (highest route.route_revision (lookup identity r.highest_revision))
          r.highest_revision;
    provision_cache =
        insert (cache_key identity key) (record { route = route; expires_at = now + g.route_ttl })
          r.provision_cache;
  }

  unfoldable pub accept : Text → Text → ℕ → Result Route → Reader → Result Route × Reader
  unfolding keep lookup
  accept identity key now (throws e) r = (throws e, r)
  accept identity key now (returns route) r =
      if is_stale route.route_revision (lookup identity r.highest_revision)
      then (throws revision_rollback, r)
      else (returns route, keep identity key now route r)

  -- `fetchProvision` and the rest of `readUncached`, from the provision that `getProvision` gave.
  unfoldable pub provision_fetched :
      Text → Text → Text → Fetched → ℕ → Reader → Result Route × Reader
  unfolding accept received to_canonical_route to_lower
  provision_fetched label identity key payload now r =
      accept identity key now
        (and_then (received payload)
          (to_canonical_route (to_lower (text "lightpbx." ++ label)) key label identity))
        r

  -- What a read without a route leaves, if its time is not out.
  unfoldable pub remember_miss : Text → ℕ → Reader → Reader
  unfolding insert
  remember_miss identity now r = record r {
    miss_cache = insert identity (now + min g.miss_ttl 10000) r.miss_cache;
  }

-- `clearCache`.
abbrev pub cleared : Reader
cleared = record { provision_cache = []; miss_cache = []; highest_revision = [] }
