-- ===== src/Poly/Registry/Deliveries.antt =====
-- modules/calls/poly/PolySessionRegistry.js and PolyIngress.js: what resolving and delivering keep.

use arnacon_webrtc_service.Shared.{
  ℕ, ◌≡◌, refl, Option, none, some, List, [], ◌∷◌, Text, text_eq, TextMap, lookup, All, All-insert,
  All-drop_where, lookup-All, delete, false, if-cases, arith, ◌||◌,
}
use arnacon_webrtc_service.Runtime.CallPairRef.{pair_key_from_identities}
use arnacon_webrtc_service.Poly.Reconcile.{LegRef}
use arnacon_webrtc_service.Poly.World.{
  EventType, Payload, Session, Port, Res, ok, thrown, other_failure,
}
use arnacon_webrtc_service.Poly.Steady.{IsObserved}
use arnacon_webrtc_service.Poly.Unbridged.{IsUnbridged}
use arnacon_webrtc_service.Poly.Settled.{IsCoherent, IsAtRest, IsSound}
use arnacon_webrtc_service.Poly.Settled.Messages.{IsAttended, on_ingress-IsSound}
use arnacon_webrtc_service.Poly.Registry.{
  Registry, Spec, Target, Message, Resolved, create_session, create, found_or_created, with_leg,
  resolve, ingress_at, deliver_event, is_empty, target_endpoint, leg_by_endpoint, deliver, get,
  destroy, destroy_found,
}

abbrev SafeEntry : Text × Session → Type 0
SafeEntry e = IsSound e.1

-- Every session that is at rest is coherent.
abbrev pub AllSafe : Registry → Type 0
AllSafe r = All SafeEntry r.by_key

create_session-IsSound : (hooks : List ℕ) (a b : Spec) → IsSound (create_session hooks a b)
create_session-IsSound hooks a b q = (λ e. ground arith, λ e. ground arith, λ e. ground arith)

found_or_created-Safe :
    (make_hooks : Text → List ℕ) (key : Text) (a b : Spec) (r : Registry) (o : Option Session)
    → lookup key r.by_key ≡ o
    → AllSafe r
    → IsSound (found_or_created make_hooks key a b o r).0
      × AllSafe (found_or_created make_hooks key a b o r).1
unfolding found_or_created create
found_or_created-Safe make_hooks key a b r none e h =
    let new = create_session-IsSound (make_hooks key) a b in
    (new, All-insert SafeEntry key (create_session (make_hooks key) a b) r.by_key new h)
found_or_created-Safe make_hooks key a b r (some s) e h =
    (lookup-All SafeEntry key s r.by_key h e, h)

abbrev SafeResult : Res Resolved × Registry → Type 0
SafeResult (thrown e, r) = AllSafe r
SafeResult (ok found, r) = IsSound found.poly × AllSafe r

with_leg-Safe :
    (key : Text) (s : Session) (o : Option LegRef) (r : Registry)
    → IsSound s
    → AllSafe r
    → SafeResult (with_leg key s o, r)
with_leg-Safe key s none r h k = k
with_leg-Safe key s (some ref) r h k = (h, k)

resolve-Safe :
    (make_hooks : Text → List ℕ) (a b : Spec) (target : Target) (r : Registry)
    → AllSafe r
    → SafeResult (resolve make_hooks a b target r)
unfolding resolve
resolve-Safe make_hooks a b target r h =
    let key = pair_key_from_identities a.endpoint b.endpoint in
    let both = found_or_created-Safe make_hooks key a b r (lookup key r.by_key) refl h in
    let found = found_or_created make_hooks key a b (lookup key r.by_key) r in
    if-cases SafeResult (is_empty a.endpoint || is_empty b.endpoint) (thrown other_failure, r)
      (with_leg key found.0 (leg_by_endpoint (target_endpoint target a b) found.0), found.1)
      (λ _. h) (λ _. with_leg-Safe key found.0 _ found.1 both.0 both.1)

All-weaken :
    (P Q : Text × Session → Type 0) (m : TextMap Session) → All (λ e. P e × Q e) m → All P m
All-weaken P Q [] h = tt
All-weaken P Q (e ∷ m) h = (h.0.0, All-weaken P Q m h.1)

module _ (port : Port) (retries : ℕ) (observed : IsObserved port) (unbridged : IsUnbridged port)
    (attended : IsAttended port retries) (make_hooks : Text → List ℕ) where
  ingress_at-Safe :
      (found : Res Resolved × Registry) (type : EventType) (payload : Payload)
      → SafeResult found
      → AllSafe (ingress_at port retries make_hooks found.0 type payload found.1)
  unfolding ingress_at
  ingress_at-Safe (thrown e, r) type payload h = h
  ingress_at-Safe (ok found, r) type payload h =
      All-insert SafeEntry found.key _ r.by_key
        (on_ingress-IsSound port retries observed unbridged attended found.ref _ found.poly h.0) h.1

  deliver_event-Safe :
      (o : Option EventType) (message : Message) (r : Registry)
      → AllSafe r
      → AllSafe (deliver_event port retries make_hooks o message r)
  unfolding deliver_event
  deliver_event-Safe none message r h = h
  deliver_event-Safe (some type) message r h =
      ingress_at-Safe (resolve make_hooks message.a message.b message.target r) type message.payload
        (resolve-Safe make_hooks message.a message.b message.target r h)

  destroy_found-Safe :
      (o : Option Session) (key : Text) (r : Registry)
      → AllSafe r
      → AllSafe (destroy_found port retries make_hooks o key r).1
  unfolding destroy_found delete
  destroy_found-Safe none key r h = h
  destroy_found-Safe (some s) key r h =
      All-weaken SafeEntry (λ e. text_eq key e.0 ≡ false) _
        (All-drop_where SafeEntry (λ l u. text_eq key l) r.by_key h)

-- What is asked of the registry.
pub data Request : Type 0 where
  deliver_message : Message → Request
  destroy_key : Text → Request

module _ (port : Port) (retries : ℕ) (make_hooks : Text → List ℕ) where
  unfoldable pub serve : Request → Registry → Registry
  unfolding deliver destroy
  serve (deliver_message message) r = deliver port retries make_hooks message r
  serve (destroy_key key) r = (destroy port retries make_hooks key r).1

  unfoldable pub after_requests : List Request → Registry → Registry
  unfolding serve
  after_requests [] r = r
  after_requests (x ∷ rest) r = after_requests rest (serve x r)

abbrev pub new_registry : Registry
new_registry = record { by_key = []; by_endpoint = [] }

module _ (port : Port) (retries : ℕ) (observed : IsObserved port) (unbridged : IsUnbridged port)
    (attended : IsAttended port retries) (make_hooks : Text → List ℕ) where
  serve-Safe :
      (x : Request) (r : Registry) → AllSafe r → AllSafe (serve port retries make_hooks x r)
  unfolding serve deliver destroy
  serve-Safe (deliver_message message) r h =
      deliver_event-Safe port retries observed unbridged attended make_hooks _ message r h
  serve-Safe (destroy_key key) r h =
      destroy_found-Safe port retries observed unbridged attended make_hooks _ key r h

  after_requests-Safe :
      (rest : List Request) (r : Registry)
      → AllSafe r
      → AllSafe (after_requests port retries make_hooks rest r)
  unfolding after_requests
  after_requests-Safe [] r h = h
  after_requests-Safe (x ∷ rest) r h = after_requests-Safe rest _ (serve-Safe x r h)

  -- Whatever wire messages come one after another for whatever pairs, with sessions destroyed in
  -- between: if what runs during the awaits of a drain writes the legs' states by `setState` alone,
  -- bridges no media and clears no dirty flag, and what runs during the awaits of a handler does so by
  -- drains alone, then each session of the registry that runs no drain, is observed, is not dirty and
  -- has had no drain give up has no leg in a call whose other leg is in no state of a call, and its
  -- media up only if both its legs are in the call.
  pub get-after_requests :
      (requests : List Request) (key : Text) (s : Session)
      → get key (after_requests port retries make_hooks requests new_registry) ≡ some s
      → IsAtRest s
      → IsCoherent s
  unfolding get
  get-after_requests requests key s found =
      lookup-All SafeEntry key s _ (after_requests-Safe requests new_registry tt) found
