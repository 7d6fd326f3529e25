-- ===== src/Poly/Registry/Examples.antt =====
-- modules/calls/poly/PolySessionRegistry.js and PolyIngress.js: the theorems at one call.
use arnacon_webrtc_service.Shared.{
  ℕ, ◌≡◌, refl, none, some, List, [], ◌∷◌, Text, text, false, text_eq,
}
use arnacon_webrtc_service.Poly.Reconcile.{webrtc, leg_a}
use arnacon_webrtc_service.Poly.World.{Session, Port, EventType}
use arnacon_webrtc_service.Poly.PolySession
use arnacon_webrtc_service.Poly.Quiet.{
  quiet, quiet-IsObserved, quiet-IsUnbridged, quiet-IsAttended, reply_of,
}
use arnacon_webrtc_service.Poly.Settled.{IsCoherent}
use arnacon_webrtc_service.Poly.Registry.{
  Registry, Spec, at_a, at_b, Message, create_session, resolve, deliver, get, destroy,
}
use arnacon_webrtc_service.Poly.Registry.Deliveries.{
  deliver_message, after_requests, serve, new_registry, get-after_requests,
}
use arnacon_webrtc_service.Poly.Registry.Pairs.{resolve-again, Forgets, destroy-Forgets}

abbrev party : Text → Spec
party name = record { endpoint = name; id = none; kind = some webrtc }

abbrev no_hooks : Text → List ℕ
no_hooks key = []

resolve-again_example :
    (resolve no_hooks
      (party (text "bob"))
      (party (text "alice"))
      at_a
      (resolve no_hooks (party (text "alice")) (party (text "bob")) at_b new_registry).1).1
    ≡ (resolve no_hooks (party (text "alice")) (party (text "bob")) at_b new_registry).1
resolve-again_example =
    resolve-again no_hooks (party (text "alice")) (party (text "bob")) at_b at_a new_registry

abbrev clients : Port
clients = quiet (reply_of webrtc webrtc)

abbrev offer : Message
offer = record {
  a = party (text "alice");
  b = party (text "bob");
  target = at_a;
  action = text "offer";
  payload = record { payload_type = none; from = none; call_id = none };
  force_offer = false;
  is_inactive = false;
}

abbrev offered : Registry
offered = after_requests clients 0 no_hooks (deliver_message offer ∷ []) new_registry

abbrev pair_session : Session
pair_session = create_session [] (party (text "alice")) (party (text "bob"))

-- Alice calls, and the session asks bob's leg to connect.
abbrev rung_session : Session
rung_session =
    (PolySession.on_ingress clients 0 leg_a
      (record { type = EventType.offer; payload = offer.payload }) pair_session).1

get-after_requests_example : IsCoherent rung_session
unfolding get text_eq after_requests serve deliver resolve PolySession.runs
get-after_requests_example =
    get-after_requests clients 0 (quiet-IsObserved (reply_of webrtc webrtc))
      (quiet-IsUnbridged (reply_of webrtc webrtc)) (quiet-IsAttended (reply_of webrtc webrtc) 0)
      no_hooks (deliver_message offer ∷ []) (text "alice|bob") rung_session refl
      (refl, (refl, refl, refl))

abbrev one_pair : Registry
one_pair = record {
  by_key = (text "alice|bob", pair_session) ∷ [];
  by_endpoint = (text "alice", text "alice|bob") ∷ (text "bob", text "alice|bob") ∷ [];
}

destroy-Forgets_example :
    Forgets (text "alice|bob") one_pair (destroy clients 0 no_hooks (text "alice|bob") one_pair).1
unfolding get text_eq
destroy-Forgets_example =
    destroy-Forgets clients 0 no_hooks (text "alice|bob") one_pair pair_session refl
