-- ===== src/Runtime/Examples.antt =====
-- modules/runtime: the theorems at two parties, as the service names them.
use arnacon_webrtc_service.Shared.{◌≡◌, refl, text, none, some, true, [], List, ℕ, Text, Option}
use arnacon_webrtc_service.Poly.Registry.{target_endpoint, Registry, Spec, at_b, resolve}
use arnacon_webrtc_service.Runtime.CallPairResolver.{
  resolve_pair_actor, returned, resolve_pair_actor-resolve,
}
use arnacon_webrtc_service.Runtime.SessionStore
use arnacon_webrtc_service.Runtime.SessionStore.{ClientSession}
use arnacon_webrtc_service.Runtime.SessionStore.Links.{link_session_pair}
use arnacon_webrtc_service.Runtime.SessionStore.Links.Answers.{Answers}
use arnacon_webrtc_service.Runtime.SessionStore.Lookups.{get_by_user-create_session}
use arnacon_webrtc_service.Runtime.SessionStore.Numbers.{forms-match}
use arnacon_webrtc_service.Runtime.CallPairRef.{pair_key_from_identities}

key_test : pair_key_from_identities (text "Bob@example.com") (text "alice.eth") ≡ text "alice|bob"
unfolding pair_key_from_identities
key_test = refl

abbrev party : Text → Spec
party name = record { endpoint = name; id = none; kind = none }

abbrev no_hooks : Text → List ℕ
no_hooks key = []

abbrev empty : Registry
empty = record { by_key = []; by_endpoint = [] }

resolve_pair_actor-resolve_example :
    resolve_pair_actor
      (text "alice")
      (text "bob")
      (target_endpoint at_b (party (text "alice")) (party (text "bob")))
      (resolve no_hooks (party (text "alice")) (party (text "bob")) at_b empty).1
    ≡ returned (resolve no_hooks (party (text "alice")) (party (text "bob")) at_b empty).0
resolve_pair_actor-resolve_example =
    resolve_pair_actor-resolve no_hooks (party (text "alice")) (party (text "bob")) at_b empty refl

get_by_user-create_session_example :
    let st =
      (SessionStore.create_session 5
        (text "a@x|b")
        (text "a@x")
        (text "b")
        SessionStore.new_store).1 in
    let made =
      SessionStore.session_of 5
        (SessionStore.normalize_session_id (text "a@x|b"))
        (text "a@x")
        (text "b") in
    (SessionStore.get (SessionStore.normalize_session_id (text "a@x|b")) st ≡ some made)
    × (SessionStore.get_by_user (pair_key_from_identities (text "a@x") (text "b")) st ≡ some made)
    × (SessionStore.get_by_user (pair_key_from_identities (text "b") (text "a@x")) st ≡ some made)
unfolding SessionStore.normalize_session_id
get_by_user-create_session_example =
    get_by_user-create_session 5 (text "a@x|b") b'a' b'b' (text "@x") [] SessionStore.new_store b'a'
      (text "|b") refl

forms-match_example :
    (SessionStore.has_any_variant_match
        (SessionStore.build_link_identity_variants (text "0501234567"))
        (SessionStore.build_link_identity_variants (text "972501234567"))
      ≡ true)
    × (SessionStore.has_any_variant_match
          (SessionStore.build_link_identity_variants (text "972501234567"))
          (SessionStore.build_link_identity_variants (text "0501234567"))
        ≡ true)
forms-match_example = forms-match b'5' (text "01234567") refl

-- Two outbound sessions of a number: the one that called the other party, and one that did not.
abbrev two_calls : SessionStore.Store
two_calls =
    (SessionStore.create_session 9 (text "2") (text "0501234567") (text "031111111")
      (SessionStore.create_session 5 (text "1") (text "972501234567") (text "032222222")
        SessionStore.new_store).1).1

abbrev link_of : Option ClientSession → Option Text
link_of none = none
link_of (some s) = s.linked_session_id

-- A session that is linked again leaves its first peer with a link to it, which its end does not undo.
stale_link :
    link_of (
      SessionStore.get (text "2") (
        SessionStore.destroy_session (text "1") (
          link_session_pair (text "1") (text "3") (
            link_session_pair
              (text "1")
              (text "2")
              (SessionStore.create_session 9 (text "3") (text "c") (text "d") two_calls).1))))
    ≡ some (text "1")
unfolding SessionStore.get SessionStore.destroy_session SessionStore.create_session
    link_session_pair
stale_link = refl
