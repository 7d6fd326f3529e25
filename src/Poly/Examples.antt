-- ===== src/Poly/Examples.antt =====
-- modules/calls/poly: the theorems at the states and messages of one call.
use arnacon_webrtc_service.Shared.{
  is_space, ◌≤◌, ◌≡◌, refl, true, false, none, some, List, [], ◌∷◌, text, All, arith,
}
use arnacon_webrtc_service.Poly.States.{
  LegState, disconnected, connected, calling, ringing, in_call, end_requested, failed, same,
}
use arnacon_webrtc_service.Poly.Intents.{answer, end_call, ack_ring, ack_connected}
use arnacon_webrtc_service.Poly.Reconcile.{
  LegRef, webrtc, sip, leg_a, leg_b, bridge, Snapshot, reconcile, triggered_by, is_caller,
}
use arnacon_webrtc_service.Poly.Reconcile.Legal.{allowed, reconcile-allowed}
use arnacon_webrtc_service.Poly.Reconcile.Issues.{
  asks, moves, either, advances, count_moves, mirror,
}
use arnacon_webrtc_service.Poly.Reconcile.Teardown.{
  must_end, end_call-reconcile, reconcile-exclusive, count_moves-reconcile,
}
use arnacon_webrtc_service.Poly.Reconcile.Progress.{
  joins, bridge-reconcile, tears, ack-reconcile, reconcile-mirror,
}
use arnacon_webrtc_service.Poly.World.{LegEvent, EventType, Session, Port}
use arnacon_webrtc_service.Poly.PolySession
use arnacon_webrtc_service.Poly.CallIdentity.{normalize_call_id}
use arnacon_webrtc_service.Poly.Hooks.{counting, IsBracketed, IsHookless}
use arnacon_webrtc_service.Poly.Hooks.Drains.{after_messages-IsBracketed}
use arnacon_webrtc_service.Poly.Quiet.{
  quiet, quiet-IsObserved, quiet-IsUnbridged, quiet-IsAttended, reply_of, new_leg, new_session,
  message,
}
use arnacon_webrtc_service.Poly.Settled.{IsCoherent}
use arnacon_webrtc_service.Poly.Steady.{IsQuiet}
use arnacon_webrtc_service.Poly.Converges.{answers}
use arnacon_webrtc_service.Poly.Converges.Drain.{drain_loop-settles}
use arnacon_webrtc_service.Poly.Converges.Lost.{lost_channel, drain_loop-diverges}
use arnacon_webrtc_service.Poly.Settled.Messages.{after_messages-IsCoherent}

abbrev at : LegState → LegState → Snapshot
at a b = record {
  a = record { state = a; kind = webrtc };
  b = record { state = b; kind = sip };
  media_connected = false;
}

reconcile-allowed_example :
    All (λ x. allowed in_call ringing x ≡ true) (reconcile (at in_call ringing) none)
reconcile-allowed_example = reconcile-allowed (at in_call ringing) none

end_call-reconcile_example :
    asks leg_b end_call (reconcile (at end_requested in_call) none) ≡ must_end in_call end_requested
end_call-reconcile_example = end_call-reconcile leg_b (at end_requested in_call) none

reconcile-exclusive_example :
    (moves bridge (reconcile (at failed in_call) none) ≡ false)
    × (either (λ r. advances r (reconcile (at failed in_call) none)) ≡ false)
unfolding reconcile
reconcile-exclusive_example = reconcile-exclusive (at failed in_call) none refl

count_moves-reconcile_example :
    count_moves leg_b (reconcile (at calling disconnected) (some calling)) ≤ 1
count_moves-reconcile_example = count_moves-reconcile leg_b (at calling disconnected) (some calling)

bridge-reconcile_example :
    (false ≡ false)
    × (joins leg_a (at calling in_call) (some in_call) ≡ true)
    × (joins leg_b (at calling in_call) (some in_call) ≡ true)
unfolding reconcile
bridge-reconcile_example = bridge-reconcile (at calling in_call) (some in_call) refl

ack-reconcile_example :
    (asks leg_a ack_ring (reconcile (at calling ringing) (some ringing)) ≡ true
      → (triggered_by ringing (some ringing) ≡ true)
        × (same ringing ringing ≡ true)
        × (is_caller calling ≡ true))
    × (asks leg_a ack_connected (reconcile (at calling ringing) (some ringing)) ≡ true
        → (triggered_by calling (some ringing) ≡ true) × (same calling calling ≡ true))
    × (triggered_by ringing (some ringing) ≡ true
        → same ringing ringing ≡ true
        → is_caller calling ≡ true
        → tears (reconcile (at calling ringing) (some ringing)) ≡ false
        → asks leg_a ack_ring (reconcile (at calling ringing) (some ringing)) ≡ true)
    × (triggered_by calling (some ringing) ≡ true
        → same calling calling ≡ true
        → tears (reconcile (at calling ringing) (some ringing)) ≡ false
        → asks leg_a ack_connected (reconcile (at calling ringing) (some ringing)) ≡ true)
ack-reconcile_example = ack-reconcile leg_a (at calling ringing) (some ringing)

reconcile-mirror_example :
    (asks leg_b answer (reconcile (mirror (at ringing in_call)) none)
      ≡ asks leg_a answer (reconcile (at ringing in_call) none))
    × (moves bridge (reconcile (mirror (at ringing in_call)) none)
        ≡ moves bridge (reconcile (at ringing in_call) none))
reconcile-mirror_example = reconcile-mirror leg_a answer bridge (at ringing in_call) none refl

abbrev two_clients : Session
two_clients = new_session (new_leg webrtc (text "alice")) (new_leg webrtc (text "bob"))

abbrev clients : Port
clients = quiet (reply_of webrtc webrtc)

-- Both connect, one calls, the other answers.
abbrev one_call : List (LegRef × LegEvent)
one_call =
    (leg_a, message EventType.transport_open)
    ∷ (leg_b, message EventType.transport_open)
    ∷ (leg_a, message EventType.offer)
    ∷ (leg_b, message EventType.answer)
    ∷ []

abbrev after_call : Session
after_call = PolySession.after_messages clients 0 one_call two_clients

after_call_test :
    (after_call.a.state ≡ in_call) × (after_call.b.state ≡ in_call) × (after_call.media ≡ true)
unfolding PolySession.runs
after_call_test = (refl, refl, refl)

two_clients-IsCoherent : IsCoherent two_clients
two_clients-IsCoherent = (λ e. ground arith, λ e. ground arith, λ e. ground arith)

after_messages-IsCoherent_example : IsCoherent after_call
unfolding PolySession.runs
after_messages-IsCoherent_example =
    after_messages-IsCoherent clients 0 (quiet-IsObserved (reply_of webrtc webrtc))
      (quiet-IsUnbridged (reply_of webrtc webrtc)) (quiet-IsAttended (reply_of webrtc webrtc) 0)
      one_call two_clients two_clients-IsCoherent (refl, (refl, refl, refl))

-- A session in which alice calls bob, about to drain.
abbrev ring_due : Session
ring_due = record two_clients {
  a = record two_clients.a { state = calling };
  b = record two_clients.b { state = connected };
  dirty = true;
}

drain_loop-settles_example :
    IsQuiet (PolySession.drain_loop (answers webrtc webrtc true false true false) 0 50 ring_due).1
    × IsCoherent
        (PolySession.drain_loop (answers webrtc webrtc true false true false) 0 50 ring_due).1
drain_loop-settles_example = drain_loop-settles true false true false ring_due refl refl refl

drain_loop-diverges_example :
    ((PolySession.drain_loop lost_channel 0 50 ring_due).1.diverged ≡ true)
    × ((PolySession.drain_loop lost_channel 0 50 ring_due).1.a.state ≡ calling)
drain_loop-diverges_example =
    drain_loop-diverges ring_due (refl, refl, refl, refl, refl, refl, refl, refl)

-- A call id above 2^53 is rounded as the program's numbers are.
rounds_test : normalize_call_id (some (text " 9007199254740993 calls")) ≡ some 9007199254740992
unfolding normalize_call_id is_space
rounds_test = refl

clients-IsHookless : IsHookless clients
clients-IsHookless c s h = h

after_messages-IsBracketed_example : IsBracketed after_call
unfolding counting
after_messages-IsBracketed_example =
    after_messages-IsBracketed clients clients-IsHookless 0 one_call two_clients refl
