-- ===== src/Calls/Call.antt =====
-- modules/calls/Call.js: a call, its participants, and the marks of its course.
pub mod Stamps
use arnacon_webrtc_service.Shared.{
  ℕ, zero, suc, Bool, true, false, Option, none, some, List, [], ◌∷◌, if◌then◌else◌, Text, text,
  text_eq, TextMap, lookup, insert,
}
use arnacon_webrtc_service.Calls.StateMachine.{
  CallState, in_call, cancelling, cancelled, ending, post_call, Machine, start, Outcome, transition,
}

-- What the registry and the call read of a participant.
pub record Participant : Type 0 where
  pub id : Text
  pub role : Text
  pub session_id : Option Text

pub record Cancellation : Type 0 where
  pub at : Option ℕ
  pub reason : Option Text

pub record Metadata : Type 0 where
  pub created_at : ℕ
  pub answered_at : Option ℕ
  pub ended_at : Option ℕ
  pub cancellation : Option Cancellation

-- Fields of Call; its features and its media graph are not read here.
pub record Call : Type 0 where
  pub id : Text
  pub caller : Participant
  pub target : Option Participant
  pub participants : TextMap Participant
  pub machine : Machine
  pub metadata : Metadata

-- `addParticipant`.
unfoldable pub add_participant : Participant → Call → Call
unfolding insert text_eq
add_participant p c = record c {
  participants = insert p.id p c.participants;
  caller = if text_eq p.role (text "caller") then p else c.caller;
  target = if text_eq p.role (text "target") then some p else c.target;
}

unfoldable pub add_participants : List Participant → Call → Call
unfolding add_participant
add_participants [] c = c
add_participants (p ∷ ps) c = add_participants ps (add_participant p c)

abbrev add_target : Option Participant → Call → Call
unfolding add_participant
add_target none c = c
add_target (some p) c = add_participant p c

-- The constructor, with no metadata of the caller's own.
unfoldable pub new_call :
    Text → Participant → Option Participant → List Participant → CallState → ℕ → Call
unfolding add_participant add_participants
new_call id caller target participants state now = add_participants participants (
    add_target target (
      add_participant caller (record {
        id = id;
        caller = caller;
        target = target;
        participants = [];
        machine = start state (text "initial") now;
        metadata = record {
          created_at = now;
          answered_at = none;
          ended_at = none;
          cancellation = none;
        };
      })))

-- `participant`.
unfoldable pub participant : Text → Call → Option Participant
unfolding lookup
participant id c = lookup id c.participants

abbrev with_machine : Call → Outcome × Machine → Outcome × Call
with_machine c (outcome, m) = (outcome, record c { machine = m })

-- `transition`.
unfoldable pub transition_call : CallState → Text → ℕ → Call → Outcome × Call
unfolding transition
transition_call next reason now c = with_machine c (transition next reason now c.machine)

-- `value || Date.now()` and `text || other`.
abbrev time_or : Option ℕ → ℕ → ℕ
time_or none now = now
time_or (some zero) now = now
time_or (some (suc t)) now = suc t

abbrev text_or : Option Text → Text → Text
text_or none other = other
text_or (some []) other = other
text_or (some (ch ∷ t)) other = ch ∷ t

-- `{ at: Date.now(), ...cancellation }`.
abbrev at_or : Option ℕ → ℕ → Option ℕ
at_or none now = some now
at_or (some t) now = some t

abbrev stamp : Cancellation → ℕ → Cancellation
stamp k now = record k { at = at_or k.at now }

abbrev reason_of : Option Cancellation → Option Text
reason_of none = none
reason_of (some k) = k.reason

-- The arguments of the marks: `markAnswered`, `markEnding`, `markPostCall`, `markCancelling` and
-- `markCancelled`.
pub data Mark : Type 0 where
  answered : Mark
  ends post : Text → Mark
  cancels : Cancellation → Mark
  cancelled_with : Option Cancellation → Mark

unfoldable pub mark_answered : ℕ → Call → Outcome × Call
unfolding transition_call
mark_answered now c =
    transition_call in_call (text "answered") now
      (record c { metadata = record c.metadata { answered_at = some now } })

unfoldable pub mark_ending : Text → ℕ → Call → Outcome × Call
unfolding transition_call
mark_ending reason now c =
    transition_call ending reason now
      (record c { metadata = record c.metadata { ended_at = some now } })

unfoldable pub mark_post_call : Text → ℕ → Call → Outcome × Call
unfolding transition_call
mark_post_call reason now c = transition_call post_call reason now (record c {
  metadata = record c.metadata { ended_at = some (time_or c.metadata.ended_at now) };
})

unfoldable pub mark_cancelling : Cancellation → ℕ → Call → Outcome × Call
unfolding transition_call
mark_cancelling k now c =
    transition_call cancelling (text_or k.reason (text "cancel")) now
      (record c { metadata = record c.metadata { cancellation = some (stamp k now) } })

abbrev replaced : Option Cancellation → Option Cancellation → ℕ → Option Cancellation
replaced none old now = old
replaced (some k) old now = some (stamp k now)

unfoldable pub mark_cancelled : Option Cancellation → ℕ → Call → Outcome × Call
unfolding transition_call
mark_cancelled k now c =
    transition_call cancelled
      (text_or (reason_of (replaced k c.metadata.cancellation now)) (text "cancelled")) now
      (record c {
        metadata = record c.metadata {
          cancellation = replaced k c.metadata.cancellation now;
          ended_at = some now;
        };
      })

unfoldable pub mark : Mark → ℕ → Call → Outcome × Call
unfolding mark_answered mark_ending mark_post_call mark_cancelling mark_cancelled
mark answered now c = mark_answered now c
mark (ends reason) now c = mark_ending reason now c
mark (post reason) now c = mark_post_call reason now c
mark (cancels k) now c = mark_cancelling k now c
mark (cancelled_with k) now c = mark_cancelled k now c

unfoldable pub marks : Unit {0}
unfolding mark mark_answered mark_ending mark_post_call mark_cancelling mark_cancelled
    transition_call transition
marks = tt
