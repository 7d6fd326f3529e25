-- ===== src/Routing/Examples.antt =====
-- modules/routing: runs at concrete provisions.
use arnacon_webrtc_service.Shared.{
  ◌++◌, ℕ, ◌≤◌, ◌≡◌, refl, true, none, some, [], ◌∷◌, Text, text, to_lower, text_eq, if◌then◌else◌,
}
use arnacon_webrtc_service.Routing.Addresses.{raw, email, ens, unknown, parse_address}
use arnacon_webrtc_service.Routing.Addresses.Names.{parse_address-ens}
use arnacon_webrtc_service.Routing.Business.{build_business_lookup_keys, cascading_business_lookup}
use arnacon_webrtc_service.Routing.LightPbx.Provisions.{
  Provision, Route, listed, object, returns, throws, direct, revision_rollback,
  called_identity_invalid, to_canonical_route, is_owner_address, choose_targets, ivr,
}
use arnacon_webrtc_service.Routing.LightPbx.Targets.{IsRoute, to_canonical_route-IsRoute}
use arnacon_webrtc_service.Routing.LightPbx.Reader.{
  Config, gives, fetched, cleared, key_resolved, provision_fetched, read_started, rejected,
}
use arnacon_webrtc_service.Routing.LightPbx.Orders.{
  Event, resolved, provisioned, step, after_events, delivered-rises,
}
use arnacon_webrtc_service.Routing.LightPbx.Cache.{key_resolved-provision_fetched}

abbrev tenant : Config
tenant = record {
  tenant_name = text "secnumtest";
  route_ttl = 45000;
  miss_ttl = 10000;
  parse = λ t. none;
}

abbrev called : Text
called = text "9725.secnumtest.global"

abbrev target : Text
target = text "00112233445566778899aabbccddeeff00112233445566778899aabbccddeeff.email.global"

-- A provision of a direct route, by its revision.
abbrev provision : ℕ → Provision
provision n = record {
  schema = text "arnacon.lightpbx.endpoint.v1";
  kind = text "lightpbx_external_extension";
  label = text "9725";
  identity = called;
  provider = text "Cellact";
  owner = text "0x00112233445566778899AABBCCDDEEFF00112233";
  type_name = text "direct";
  targets_of = listed (target ∷ []);
  group_id = none;
  revision = some n;
  config_hash = none;
}

abbrev route : Text → ℕ → Route
route key n = record {
  provision_identifier = text "lightpbx.9725";
  provision_key = key;
  route_identity = called;
  route_owner = text "0x00112233445566778899AABBCCDDEEFF00112233";
  route_type = direct;
  targets = target ∷ [];
  rejected_target_count = 0;
  route_group = none;
  route_revision = n;
  route_hash = none;
}

to_canonical_route-IsRoute_example :
    IsRoute (route (text "k") 3)
    × (called ≡ to_lower called)
    × (text "9725" ≡ text "9725")
    × (to_lower called ≡ to_lower called)
    × (is_owner_address (text "0x00112233445566778899AABBCCDDEEFF00112233") ≡ true)
unfolding to_canonical_route
to_canonical_route-IsRoute_example =
    to_canonical_route-IsRoute (text "lightpbx.9725") (text "k") (text "9725") called (provision 3)
      (route (text "k") 3) refl

abbrev first : Event
first = provisioned (text "9725") (text "k") (fetched (object (provision 3))) 1000

abbrev later : Event
later = provisioned (text "9725") (text "j") (fetched (object (provision 5))) 3000

delivered-rises_example : 3 ≤ 5
unfolding step after_events
delivered-rises_example =
    delivered-rises tenant [] (resolved (text "9725") (some (text "k")) 2000 ∷ []) first later
      (route (text "k") 3) (route (text "j") 5) refl refl refl refl refl

key_resolved-provision_fetched_example :
    key_resolved called
      (some (text "k"))
      2000
      (provision_fetched tenant
        (text "9725")
        called
        (text "k")
        (fetched (object (provision 3)))
        1000
        cleared).1
    ≡ gives (returns (route (text "k") 3))
unfolding key_resolved provision_fetched
key_resolved-provision_fetched_example =
    key_resolved-provision_fetched tenant (text "9725") called (text "k")
      (fetched (object (provision 3))) 1000 2000 (route (text "k") 3) cleared refl refl

-- An older revision is refused.
rolls_back :
    (provision_fetched tenant
      (text "9725")
      called
      (text "j")
      (fetched (object (provision 2)))
      3000
      (provision_fetched tenant
        (text "9725")
        called
        (text "k")
        (fetched (object (provision 3)))
        1000
        cleared).1).0
    ≡ throws revision_rollback
unfolding provision_fetched
rolls_back = refl

-- A tenant whose name has a capital letter refuses every called number.
capital_tenant :
    (read_started (record tenant { tenant_name = text "Secnum" }) (text "9725") none 0 cleared).0
    ≡ rejected called_identity_invalid
unfolding read_started
capital_tenant = refl

openai_target :
    choose_targets ivr (text "sip:proj_aB3@sip.api.openai.com;transport=tls" ∷ [])
    ≡ returns (text "sip:proj_aB3@sip.api.openai.com;transport=tls" ∷ [], 0)
unfolding choose_targets
openai_target = refl

parse_address-ens_example :
    parse_address (text "alice.b.secnumtest.global")
    ≡ ens (text "alice.b") (text "secnumtest.global") (text "alice.b.secnumtest.global")
unfolding parse_address
parse_address-ens_example =
    parse_address-ens (text "alice.b") (text "secnumtest") refl refl refl refl refl

-- A name with a line end leaves two labels to the domain.
parses_lines :
    parse_address (97 ∷ text ".b" ++ 10 ∷ text "c.d.global")
    ≡ ens (text "a") (text "b" ++ 10 ∷ text "c.d.global") (97 ∷ text ".b" ++ 10 ∷ text "c.d.global")
unfolding parse_address
parses_lines = refl

parses_number : parse_address (text " +97255 ") ≡ raw (text "+97255")
unfolding parse_address
parses_number = refl

parses_email : parse_address (text "bob@acme.com") ≡ email (text "bob@acme.com")
unfolding parse_address
parses_email = refl

parses_neither : parse_address (text "bob@acme") ≡ unknown (text "bob@acme")
unfolding parse_address
parses_neither = refl

keys_of_email :
    build_business_lookup_keys (text "Bob.Sales@acme.co.il")
    ≡ text "bob.sales_acme.co.il"
      ∷ text "sales_acme.co.il"
      ∷ text "acme.co.il"
      ∷ text "acme.co"
      ∷ text "acme"
      ∷ []
unfolding build_business_lookup_keys
keys_of_email = refl

-- The lookup stops at the first key that has a number.
cascades :
    cascading_business_lookup
      (λ k. if text_eq k (text "acme.co") then some (text "972") else none)
      (text "acme.co.il")
    ≡ (text "acme.co.il" ∷ text "acme.co" ∷ [], some (text "972"))
unfolding cascading_business_lookup text_eq
cascades = refl
