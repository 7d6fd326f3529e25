-- ===== src/Poly/States.antt =====
-- modules/calls/poly/states.js: the states of a leg, and the sets of states that the rules test.
use arnacon_webrtc_service.Shared.{Bool, true, false, ◌&&◌, not}

-- The values of LEG_STATES. A value outside the list, which `isValidState` refuses, is no value here.
pub data LegState : Type 0 where
  disconnected connecting connected calling ringing answering in_call : LegState
  end_requested ending ended canceling canceled rejecting rejected failed : LegState

-- `===` on two states.
abbrev pub same : LegState → LegState → Bool
same disconnected disconnected = true
same connecting connecting = true
same connected connected = true
same calling calling = true
same ringing ringing = true
same answering answering = true
same in_call in_call = true
same end_requested end_requested = true
same ending ending = true
same ended ended = true
same canceling canceling = true
same canceled canceled = true
same rejecting rejecting = true
same rejected rejected = true
same failed failed = true
same _ _ = false

-- TEARDOWN_STATES.
abbrev pub is_teardown : LegState → Bool
is_teardown end_requested = true
is_teardown ending = true
is_teardown canceling = true
is_teardown rejecting = true
is_teardown failed = true
is_teardown _ = false

-- CALL_VIABLE_STATES.
abbrev pub call_viable : LegState → Bool
call_viable calling = true
call_viable ringing = true
call_viable answering = true
call_viable in_call = true
call_viable _ = false

-- ACTIVE_CALL_STATES.
abbrev pub is_active_call : LegState → Bool
is_active_call calling = true
is_active_call ringing = true
is_active_call answering = true
is_active_call in_call = true
is_active_call ending = true
is_active_call _ = false

-- RUNGABLE_STATES.
abbrev pub can_be_rung : LegState → Bool
can_be_rung connected = true
can_be_rung ended = true
can_be_rung canceled = true
can_be_rung rejected = true
can_be_rung _ = false

-- A peer worth ending: it holds a live call and is not already tearing down.
abbrev pub needs_ending : LegState → Bool
needs_ending s = is_active_call s && not (is_teardown s)

-- `_isTerminal` of SessionLeg.js.
abbrev pub is_terminal : LegState → Bool
is_terminal ended = true
is_terminal canceled = true
is_terminal rejected = true
is_terminal failed = true
is_terminal _ = false
