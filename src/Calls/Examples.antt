-- ===== src/Calls/Examples.antt =====
-- modules/calls: the theorems at one call between two participants.
use arnacon_webrtc_service.Shared.{
  ◌≡◌, refl, ℕ, none, some, List, [], ◌∷◌, text, false, true, arith,
}
use arnacon_webrtc_service.Calls.StateMachine.{
  handshake, connected, ringing, in_call, ending, start, transition, moved, illegal, can_transition,
}
use arnacon_webrtc_service.Calls.StateMachine.Histories.{
  Request, after_requests, IsRecorded, is_connecting, after_requests-IsRecorded,
  after_requests-connected,
}
use arnacon_webrtc_service.Calls.Call.{Call, Participant, Mark, answered, ends, mark, new_call}
use arnacon_webrtc_service.Calls.Call.Stamps.{
  mark-Moves, IsStamped, latest_first, after_marks, after_marks-IsStamped,
}
use arnacon_webrtc_service.Calls.Registry.{Registry, new_registry, add}

-- The last of the three is refused.
abbrev requests : List Request
requests = (connected, text "dc open", 1) ∷ (ringing, text "ring", 2) ∷ (ending, text "end", 3) ∷ []

requests_test : (after_requests requests (start handshake (text "initial") 0)).state ≡ ringing
unfolding after_requests transition
requests_test = refl

after_requests-IsRecorded_example :
    IsRecorded handshake (after_requests requests (start handshake (text "initial") 0))
after_requests-IsRecorded_example = after_requests-IsRecorded handshake (text "initial") 0 requests

after_requests-connected_example :
    is_connecting (after_requests requests (start connected (text "initial") 0)).state ≡ false
after_requests-connected_example =
    after_requests-connected requests (start connected (text "initial") 0) refl

abbrev alice : Participant
alice = record { id = text "alice"; role = text "caller"; session_id = some (text "s1") }

abbrev first_call : Call
first_call = new_call (text "c1") alice none [] connected 1

abbrev second_call : Call
second_call = new_call (text "c2") alice none [] connected 2

mark-Moves_example :
    ((mark answered 5 first_call).0 ≡ moved
      → ((mark answered 5 first_call).1.machine.state ≡ in_call)
        × (can_transition first_call.machine in_call ≡ true))
    × ((mark answered 5 first_call).0 ≡ illegal
        → ((mark answered 5 first_call).1.machine ≡ first_call.machine)
          × (can_transition first_call.machine in_call ≡ false))
mark-Moves_example = mark-Moves answered 5 first_call

abbrev answer_then_end : List (Mark × ℕ)
answer_then_end = (answered, 5) ∷ (ends (text "end"), 9) ∷ []

after_marks-IsStamped_example :
    IsStamped (latest_first answer_then_end []) (after_marks answer_then_end first_call)
unfolding new_call
after_marks-IsStamped_example =
    after_marks-IsStamped answer_then_end [] first_call
      (λ e. ground arith, λ e. ground arith, tt, tt)

abbrev two_calls : Registry
two_calls = add second_call (add first_call new_registry)
