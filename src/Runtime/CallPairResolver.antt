-- ===== src/Runtime/CallPairResolver.antt =====
-- modules/runtime/CallPairResolver.js: from sessions of clients and pairs of identities to the
-- mediated sessions of the registry and their legs.
use mathlib.Core.Path.{subst}
use arnacon_webrtc_service.Shared.{
  ℕ, false, ◌||◌, ◌≡◌, refl, sym, ◌∙◌, ap, Option, none, some, List, [], ◌∷◌, if◌then◌else◌, Text,
  lookup, lookup-insert,
}
use arnacon_webrtc_service.Runtime.CallPairRef.{pair_key_from_identities}
use arnacon_webrtc_service.Poly.Reconcile.{LegRef}
use arnacon_webrtc_service.Poly.World.{Session, Res, ok, thrown, other_failure}
use arnacon_webrtc_service.Poly.Registry.{
  Registry, Spec, Target, Resolved, create_session, create, found_or_created, with_leg, resolve,
  is_empty, target_endpoint, leg_by_endpoint, get,
}

-- `createCallPairRef`: a party that is missing or empty is null.
pub record CallPairRef : Type 0 where
  pub caller : Option Text
  pub callee : Option Text

abbrev or_null : Text → Option Text
or_null [] = none
or_null (c ∷ t) = some (c ∷ t)

abbrev pub create_call_pair_ref : Text → Text → CallPairRef
create_call_pair_ref caller callee = record { caller = or_null caller; callee = or_null callee }

-- What the resolver reads of a client's session.
pub record ClientSession : Type 0 where
  pub caller_ens : Text
  pub to_identity : Text
  pub call_pair_ref : Option CallPairRef

abbrev whole : Option Text → Option Text → CallPairRef → CallPairRef → CallPairRef
whole (some caller) (some callee) ref fallback = ref
whole _ _ ref fallback = fallback

abbrev ref_or : Option CallPairRef → CallPairRef → CallPairRef
ref_or none fallback = fallback
ref_or (some ref) fallback = whole ref.caller ref.callee ref fallback

-- `fromSession`.
abbrev pub from_session : ClientSession → CallPairRef
from_session session =
    ref_or session.call_pair_ref (create_call_pair_ref session.caller_ens session.to_identity)

abbrev or_empty : Option Text → Text
or_empty none = []
or_empty (some t) = t

-- `pairKeyFromRef` of CallPairRef.js.
unfoldable pub pair_key_from_ref : CallPairRef → Text
unfolding pair_key_from_identities
pair_key_from_ref ref = pair_key_from_identities (or_empty ref.caller) (or_empty ref.callee)

-- `keyFromPoly`.
unfoldable pub key_from_poly : Session → Text
unfolding pair_key_from_identities
key_from_poly s = pair_key_from_identities s.a.endpoint s.b.endpoint

-- `polyForSession`: a key holds a `|`, so it is never empty.
unfoldable pub poly_for_session : ClientSession → Registry → Option Session
unfolding pair_key_from_ref get
poly_for_session session r = get (pair_key_from_ref (from_session session)) r

-- `polyForOffer`.
unfoldable pub poly_for_offer : Text → Text → Registry → Option Session
unfolding pair_key_from_identities get
poly_for_offer from to r = get (pair_key_from_identities from to) r

-- `bindSessionPairRef`.
abbrev pub bind_session_pair_ref : Text → Text → ClientSession → ClientSession
bind_session_pair_ref caller callee session = record session {
  call_pair_ref = some (create_call_pair_ref caller callee);
}

-- `refForEndpoint`.
unfoldable pub ref_for_endpoint : Session → Text → Option LegRef
unfolding leg_by_endpoint
ref_for_endpoint s [] = none
ref_for_endpoint s (c ∷ t) = leg_by_endpoint (c ∷ t) s

abbrev pub actor_at : Text → Session → Option LegRef → Option Resolved
actor_at key s none = none
actor_at key s (some ref) = some (record { poly = s; ref = ref; key = key })

abbrev pub actor_in : Text → Option Session → Text → Option Resolved
unfolding ref_for_endpoint
actor_in key none endpoint = none
actor_in key (some s) endpoint = actor_at key s (ref_for_endpoint s endpoint)

-- `resolvePairActor`.
unfoldable pub resolve_pair_actor : Text → Text → Text → Registry → Option Resolved
unfolding pair_key_from_identities get actor_in
resolve_pair_actor caller callee endpoint r =
    let key = pair_key_from_identities caller callee in actor_in key (get key r) endpoint

-- What an operation returns, where it does not throw.
abbrev pub returned : Res Resolved → Option Resolved
returned (ok found) = some found
returned (thrown e) = none

ref_for_endpoint_lem : (t : Text) (s : Session) → ref_for_endpoint s t ≡ leg_by_endpoint t s
unfolding ref_for_endpoint leg_by_endpoint
ref_for_endpoint_lem [] s = refl
ref_for_endpoint_lem (c ∷ t) s = refl

returned-with_leg :
    (key : Text) (s : Session) (o : Option LegRef) → actor_at key s o ≡ returned (with_leg key s o)
returned-with_leg key s none = refl
returned-with_leg key s (some ref) = refl

lookup-found :
    (make_hooks : Text → List ℕ) (key : Text) (a b : Spec) (r : Registry) (o : Option Session)
    → lookup key r.by_key ≡ o
    → lookup key (found_or_created make_hooks key a b o r).1.by_key
      ≡ some (found_or_created make_hooks key a b o r).0
unfolding found_or_created create
lookup-found make_hooks key a b r none e =
    lookup-insert key (create_session (make_hooks key) a b) r.by_key
lookup-found make_hooks key a b r (some s) e = e

-- After a `resolve` of two named parties, asking the resolver for the same pair and the endpoint that
-- was meant gives what the `resolve` returned, the session, the leg and the key, and nothing where it
-- threw.
pub resolve_pair_actor-resolve :
    (make_hooks : Text → List ℕ) (a b : Spec) (target : Target) (r : Registry)
    → (is_empty a.endpoint || is_empty b.endpoint) ≡ false
    → resolve_pair_actor a.endpoint b.endpoint
        (target_endpoint target a b)
        (resolve make_hooks a b target r).1
      ≡ returned (resolve make_hooks a b target r).0
unfolding resolve_pair_actor resolve get actor_in
resolve_pair_actor-resolve make_hooks a b target r h =
    let key = pair_key_from_identities a.endpoint b.endpoint in
    let found = found_or_created make_hooks key a b (lookup key r.by_key) r in
    let t = target_endpoint target a b in
    subst
      (λ e.
        let x : Res Resolved × Registry =
          if e
          then (thrown other_failure, r)
          else (with_leg key found.0 (leg_by_endpoint t found.0), found.1) in
        actor_in key (lookup key x.1.by_key) t ≡ returned x.0)
      (sym h)
      (ap (λ o. actor_in key o t) (lookup-found make_hooks key a b r (lookup key r.by_key) refl)
        ∙ ap (actor_at key found.0) (ref_for_endpoint_lem t found.0)
        ∙ returned-with_leg key found.0 (leg_by_endpoint t found.0))
