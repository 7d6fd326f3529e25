-- ===== src/Poly/Quiet.antt =====
-- Environments in which nothing else runs while a leg waits for its port, and new sessions in them.
use arnacon_webrtc_service.Shared.{ℕ, refl, none, [], true, false, Text}
use arnacon_webrtc_service.Poly.States.{disconnected, connected}
use arnacon_webrtc_service.Poly.Reconcile.{Kind, webrtc, sip, leg_a, leg_b}
use arnacon_webrtc_service.Poly.World.{
  NegOp, Call, negotiate, Reply, nothing, deferred, settled, ok, Port, plain, LegEvent, Session,
  Leg, EventType,
}
use arnacon_webrtc_service.Poly.Steady.{IsObserved}
use arnacon_webrtc_service.Poly.Unbridged.{IsUnbridged}
use arnacon_webrtc_service.Poly.Settled.Messages.{writes, IsAttended}

abbrev pub quiet : (Call → Reply) → Port
quiet reply c s = (ok (reply c), s)

pub quiet-IsObserved : (reply : Call → Reply) → IsObserved (quiet reply)
quiet-IsObserved reply c s h q = (q, refl, refl)

pub quiet-IsUnbridged : (reply : Call → Reply) → IsUnbridged (quiet reply)
quiet-IsUnbridged reply c s h up = up

pub quiet-IsAttended : (reply : Call → Reply) (retries : ℕ) → IsAttended (quiet reply) retries
quiet-IsAttended reply retries r op event s = writes refl (λ q. (q, refl, refl)) (λ up. up)

-- A client's leg defers `connect` and `endCall` to the client's answer; a SIP leg settles at once.
abbrev pub op_reply : Kind → NegOp → Reply
op_reply webrtc (NegOp.connect) = deferred
op_reply webrtc (NegOp.end_call plain) = deferred
op_reply webrtc NegOp.ack_end = settled connected
op_reply sip (NegOp.end_call plain) = settled disconnected
op_reply _ _ = nothing

abbrev pub reply_of : Kind → Kind → Call → Reply
reply_of ka kb (negotiate leg_a op arg) = op_reply ka op
reply_of ka kb (negotiate leg_b op arg) = op_reply kb op
reply_of ka kb _ = nothing

abbrev pub new_leg : Kind → Text → Leg
new_leg k name = record {
  id = name;
  kind = k;
  endpoint = name;
  state = disconnected;
  from = none;
  pending_end_offer = none;
}

abbrev pub new_session : Leg → Leg → Session
new_session a b = record {
  a = a;
  b = b;
  media = false;
  last_event = none;
  dirty = false;
  running = false;
  queued = 0;
  diverged = false;
  subscribed = true;
  call_active = false;
  active_call = none;
  disposed = false;
  teardown_ran = false;
  teardown_hooks = [];
  log = [];
}

abbrev pub message : EventType → LegEvent
message t = record {
  type = t;
  payload = record { payload_type = none; from = none; call_id = none };
}
