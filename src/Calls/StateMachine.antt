-- ===== src/Calls/StateMachine.antt =====
-- modules/calls/CallStateMachine.js: the states of a call and its transitions.
pub mod Histories
use arnacon_webrtc_service.Shared.{
  ℕ, Bool, true, false, ◌||◌, List, [], ◌∷◌, ◌++◌, if◌then◌else◌, Text,
}

-- CALL_STATES.
pub data CallState : Type 0 where
  handshake waiting_for_data_channel connected ringing in_call : CallState
  cancelling cancelled ending post_call : CallState

-- `===` on two states.
abbrev pub same : CallState → CallState → Bool
same handshake handshake = true
same waiting_for_data_channel waiting_for_data_channel = true
same connected connected = true
same ringing ringing = true
same in_call in_call = true
same cancelling cancelling = true
same cancelled cancelled = true
same ending ending = true
same post_call post_call = true
same _ _ = false

-- ALLOWED_TRANSITIONS, one clause for each entry of a state's set.
abbrev pub allowed : CallState → CallState → Bool
allowed handshake waiting_for_data_channel = true
allowed handshake connected = true
allowed handshake cancelling = true
allowed handshake cancelled = true
allowed handshake post_call = true
allowed waiting_for_data_channel connected = true
allowed waiting_for_data_channel cancelling = true
allowed waiting_for_data_channel cancelled = true
allowed waiting_for_data_channel post_call = true
allowed connected ringing = true
allowed connected in_call = true
allowed connected cancelling = true
allowed connected cancelled = true
allowed connected post_call = true
allowed ringing in_call = true
allowed ringing cancelling = true
allowed ringing cancelled = true
allowed ringing post_call = true
allowed ringing connected = true
allowed in_call ending = true
allowed in_call post_call = true
allowed in_call cancelling = true
allowed in_call cancelled = true
allowed cancelling cancelled = true
allowed cancelling post_call = true
allowed cancelled post_call = true
allowed cancelled connected = true
allowed ending post_call = true
allowed post_call connected = true
allowed post_call ringing = true
allowed post_call cancelled = true
allowed _ _ = false

pub record Entry : Type 0 where
  pub state : CallState
  pub at : ℕ
  pub reason : Text

-- Fields of CallStateMachine; the clock is an argument of what reads it.
pub record Machine : Type 0 where
  pub state : CallState
  pub history : List Entry

-- How an operation that may throw "Illegal call state transition" ends.
pub data Outcome : Type 0 where
  moved illegal : Outcome

abbrev pub is_illegal : Outcome → Bool
is_illegal moved = false
is_illegal illegal = true

abbrev pub start : CallState → Text → ℕ → Machine
start initial_state reason now = record {
  state = initial_state;
  history = record { state = initial_state; at = now; reason = reason } ∷ [];
}

-- `canTransition`.
abbrev pub can_transition : Machine → CallState → Bool
can_transition m next = same m.state next || allowed m.state next

abbrev enter : CallState → Text → ℕ → Machine → Machine
enter next reason now m = record {
  state = next;
  history = m.history ++ record { state = next; at = now; reason = reason } ∷ [];
}

-- `transition`: what it throws, and the machine after it.
unfoldable pub transition : CallState → Text → ℕ → Machine → Outcome × Machine
transition next reason now m =
    if can_transition m next
    then (moved, if same m.state next then m else enter next reason now m)
    else (illegal, m)

-- `isBeforeAnswer`.
abbrev pub is_before_answer : CallState → Bool
is_before_answer handshake = true
is_before_answer waiting_for_data_channel = true
is_before_answer connected = true
is_before_answer ringing = true
is_before_answer _ = false

-- `isTerminal`.
abbrev pub is_terminal_state : CallState → Bool
is_terminal_state post_call = true
is_terminal_state cancelled = true
is_terminal_state _ = false
