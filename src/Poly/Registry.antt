-- ===== src/Poly/Registry.antt =====
-- modules/calls/poly/PolySessionRegistry.js, LegFactory.js and PolyIngress.js: the sessions by the
-- keys of their pairs, and the way of a wire message to its leg.
pub mod Deliveries
pub mod Pairs
mod Examples
use arnacon_webrtc_service.Shared.{
  ℕ, Bool, true, false, ◌||◌, ◌&&◌, not, Option, none, some, List, [], ◌∷◌, if◌then◌else◌, Text,
  text, text_eq, any, to_lower, TextMap, lookup, insert, delete, drop_where,
}
use arnacon_webrtc_service.Runtime.CallPairRef.{identity_label, pair_key_from_identities}
use arnacon_webrtc_service.Poly.States.{disconnected}
use arnacon_webrtc_service.Poly.Reconcile.{LegRef, leg_a, leg_b, Kind, webrtc}
use arnacon_webrtc_service.Poly.World.{
  EventType, Payload, LegEvent, Leg, Session, Port, Res, ok, thrown, other_failure, unknown_leg,
}
use arnacon_webrtc_service.Poly.PolySession

-- What a caller of `resolve` gives of a leg, and the leg it means.
pub record Spec : Type 0 where
  pub endpoint : Text
  pub id : Option Text
  pub kind : Option Kind

pub data Target : Type 0 where
  at_a at_b by_default : Target
  named : Text → Target

-- Fields of PolySessionRegistry. A session in the map is the one object that its users share.
pub record Registry : Type 0 where
  pub by_key : TextMap Session
  pub by_endpoint : TextMap Text

abbrev id_or : Option Text → Text → Text
id_or none endpoint = endpoint
id_or (some []) endpoint = endpoint
id_or (some (c ∷ t)) endpoint = c ∷ t

abbrev kind_or : Option Kind → Kind
kind_or none = webrtc
kind_or (some k) = k

-- `create` of LegFactory, with the constructor of SessionLeg.
abbrev pub create_leg : Spec → Leg
create_leg spec = record {
  id = id_or spec.id spec.endpoint;
  kind = kind_or spec.kind;
  endpoint = spec.endpoint;
  state = disconnected;
  from = none;
  pending_end_offer = none;
}

-- The constructor of PolySession.
abbrev pub create_session : List ℕ → Spec → Spec → Session
create_session hooks a b = record {
  a = create_leg a;
  b = create_leg b;
  media = false;
  last_event = none;
  dirty = false;
  running = false;
  queued = 0;
  diverged = false;
  subscribed = true;
  call_active = false;
  active_call = none;
  disposed = false;
  teardown_ran = false;
  teardown_hooks = hooks;
  log = [];
}

abbrev label : Text → Text
unfolding identity_label to_lower
label endpoint = identity_label (to_lower endpoint)

abbrev is_leg : Text → Leg → Bool
unfolding identity_label to_lower text_eq
is_leg wanted leg = text_eq (label leg.endpoint) wanted || text_eq (label leg.id) wanted

abbrev leg_by_label : Text → Session → Option LegRef
unfolding identity_label to_lower text_eq
leg_by_label [] s = none
leg_by_label (c ∷ t) s =
    if is_leg (c ∷ t) s.a then some leg_a else if is_leg (c ∷ t) s.b then some leg_b else none

-- `legByEndpoint`.
unfoldable pub leg_by_endpoint : Text → Session → Option LegRef
unfolding identity_label to_lower text_eq
leg_by_endpoint endpoint s = leg_by_label (label endpoint) s

abbrev pub is_empty : Text → Bool
is_empty [] = true
is_empty (c ∷ t) = false

abbrev pub target_endpoint : Target → Spec → Spec → Text
unfolding text_eq
target_endpoint at_a a b = a.endpoint
target_endpoint at_b a b = b.endpoint
target_endpoint by_default a b = a.endpoint
target_endpoint (named t) a b =
    if is_empty t || text_eq t (text "a")
    then a.endpoint
    else if text_eq t (text "b")
    then b.endpoint
    else t

-- `_create`; `make_hooks` is `makeTeardownHooks`, or gives none.
unfoldable pub create : (Text → List ℕ) → Text → Spec → Spec → Registry → Session × Registry
unfolding insert identity_label to_lower
create make_hooks key a b r =
    let s = create_session (make_hooks key) a b in
    (
      s,
      record {
        by_key = insert key s r.by_key;
        by_endpoint = insert (label b.endpoint) key (insert (label a.endpoint) key r.by_endpoint);
      },
    )

unfoldable pub found_or_created :
    (Text → List ℕ) → Text → Spec → Spec → Option Session → Registry → Session × Registry
unfolding create
found_or_created make_hooks key a b none r = create make_hooks key a b r
found_or_created make_hooks key a b (some s) r = (s, r)

pub record Resolved : Type 0 where
  pub poly : Session
  pub ref : LegRef
  pub key : Text

abbrev pub with_leg : Text → Session → Option LegRef → Res Resolved
with_leg key s none = thrown other_failure
with_leg key s (some ref) = ok (record { poly = s; ref = ref; key = key })

-- `resolve`.
unfoldable pub resolve : (Text → List ℕ) → Spec → Spec → Target → Registry → Res Resolved × Registry
unfolding pair_key_from_identities lookup leg_by_endpoint create found_or_created
resolve make_hooks a b target r =
    let key = pair_key_from_identities a.endpoint b.endpoint in
    let found = found_or_created make_hooks key a b (lookup key r.by_key) r in
    if is_empty a.endpoint || is_empty b.endpoint
    then (thrown other_failure, r)
    else (with_leg key found.0 (leg_by_endpoint (target_endpoint target a b) found.0), found.1)

-- ACTION_TO_EVENT and the two cases of `offer`; `is_inactive` is `isInactiveOffer` of sdp.js on the
-- payload of the message.
abbrev offer_type : Bool → Bool → EventType
offer_type force_offer is_inactive =
    if is_inactive && not force_offer then EventType.end_renegotiation else EventType.offer

-- The keys of Object.prototype.
abbrev is_inherited : Text → Bool
unfolding text_eq
is_inherited action = any (text_eq action) (
    text "constructor"
    ∷ text "toString"
    ∷ text "toLocaleString"
    ∷ text "valueOf"
    ∷ text "hasOwnProperty"
    ∷ text "isPrototypeOf"
    ∷ text "propertyIsEnumerable"
    ∷ text "__defineGetter__"
    ∷ text "__defineSetter__"
    ∷ text "__lookupGetter__"
    ∷ text "__lookupSetter__"
    ∷ text "__proto__"
    ∷ [])

unfoldable pub to_leg_event : Text → Bool → Bool → Option EventType
unfolding text_eq
to_leg_event action force_offer is_inactive =
    if text_eq action (text "offer")
    then some (offer_type force_offer is_inactive)
    else if text_eq action (text "answer")
    then some EventType.answer
    else if text_eq action (text "ice-batch")
    then some EventType.ice
    else if text_eq action (text "ice")
    then some EventType.ice
    else if text_eq action (text "end-call")
    then some EventType.end_renegotiation
    else if text_eq action (text "end")
    then some EventType.end
    else if text_eq action (text "reject")
    then some EventType.reject
    else if text_eq action (text "cancel")
    then some EventType.cancel
    else if text_eq action (text "dtmf")
    then some EventType.dtmf
    else if text_eq action (text "hold")
    then some EventType.hold
    else if text_eq action (text "bye")
    then some EventType.remote_bye
    else if is_inherited action
    then some EventType.inherited
    else none

pub record Message : Type 0 where
  pub a : Spec
  pub b : Spec
  pub target : Target
  pub action : Text
  pub payload : Payload
  pub force_offer : Bool
  pub is_inactive : Bool

-- `get` and `getByEndpoint`.
unfoldable pub get : Text → Registry → Option Session
unfolding lookup
get key r = lookup key r.by_key

abbrev session_at : Option Text → Registry → Option Session
unfolding lookup
session_at none r = none
session_at (some key) r = lookup key r.by_key

unfoldable pub get_by_endpoint : Text → Registry → Option Session
unfolding lookup identity_label to_lower
get_by_endpoint [] r = none
get_by_endpoint (c ∷ t) r = session_at (lookup (label (c ∷ t)) r.by_endpoint) r

module _ (port : Port) (retries : ℕ) (make_hooks : Text → List ℕ) where
  -- `onIngress` of a session that the registry holds.
  abbrev pub ingress_at : Res Resolved → EventType → Payload → Registry → Registry
  unfolding insert PolySession.on_ingress
  ingress_at (thrown e) type payload r = r
  ingress_at (ok found) type payload r = record r {
    by_key =
        insert found.key
          (PolySession.on_ingress port retries found.ref (record { type = type; payload = payload })
            found.poly).1
          r.by_key;
  }

  abbrev pub deliver_event : Option EventType → Message → Registry → Registry
  unfolding resolve ingress_at
  deliver_event none message r = r
  deliver_event (some type) message r =
      let resolved = resolve make_hooks message.a message.b message.target r in
      ingress_at resolved.0 type message.payload resolved.1

  -- `deliver`: the registry after it, whatever it throws. Deliveries run one after another.
  unfoldable pub deliver : Message → Registry → Registry
  unfolding to_leg_event deliver_event
  deliver message r =
      deliver_event (to_leg_event message.action message.force_offer message.is_inactive) message r

  abbrev pub destroy_found : Option Session → Text → Registry → Option Session × Registry
  unfolding delete drop_where text_eq PolySession.dispose
  destroy_found none key r = (none, r)
  destroy_found (some s) key r = (
    some (PolySession.dispose port retries s).1,
    record {
      by_key = delete key r.by_key;
      by_endpoint = drop_where (λ endpoint k. text_eq k key) r.by_endpoint;
    },
  )

  -- `destroy`: the session that was taken out, disposed, and the registry after it.
  unfoldable pub destroy : Text → Registry → Option Session × Registry
  unfolding lookup destroy_found
  destroy key r = destroy_found (lookup key r.by_key) key r
