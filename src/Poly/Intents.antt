-- ===== src/Poly/Intents.antt =====
-- modules/calls/poly/LegStateBehavior.js and LEG_INTENTS of ports.js: which intents a state allows.
use arnacon_webrtc_service.Shared.{Bool, true, false}
use arnacon_webrtc_service.Poly.States.{
  LegState, disconnected, connecting, connected, calling, ringing, answering, in_call,
  end_requested, ending, ended, canceling, canceled, rejecting, rejected, failed,
}

-- LEG_INTENTS.
pub data Intent : Type 0 where
  connect ring ack_connected ack_ring answer ack_end end_call cancel reject : Intent

-- LEGALITY, one clause for each entry of a state's list.
abbrev pub is_intent_legal : LegState → Intent → Bool
is_intent_legal disconnected connect = true
is_intent_legal connecting connect = true
is_intent_legal connecting cancel = true
is_intent_legal connecting end_call = true
is_intent_legal connected connect = true
is_intent_legal connected ring = true
is_intent_legal connected end_call = true
is_intent_legal connected cancel = true
is_intent_legal calling ring = true
is_intent_legal calling ack_connected = true
is_intent_legal calling ack_ring = true
is_intent_legal calling answer = true
is_intent_legal calling end_call = true
is_intent_legal calling cancel = true
is_intent_legal calling reject = true
is_intent_legal ringing ring = true
is_intent_legal ringing ack_connected = true
is_intent_legal ringing ack_ring = true
is_intent_legal ringing answer = true
is_intent_legal ringing end_call = true
is_intent_legal ringing cancel = true
is_intent_legal ringing reject = true
is_intent_legal answering answer = true
is_intent_legal answering end_call = true
is_intent_legal answering cancel = true
is_intent_legal in_call end_call = true
is_intent_legal end_requested ack_end = true
is_intent_legal end_requested end_call = true
is_intent_legal ending end_call = true
is_intent_legal ended connect = true
is_intent_legal ended ring = true
is_intent_legal canceling cancel = true
is_intent_legal canceled connect = true
is_intent_legal canceled ring = true
is_intent_legal rejecting reject = true
is_intent_legal rejected connect = true
is_intent_legal rejected ring = true
is_intent_legal failed connect = true
is_intent_legal _ _ = false
