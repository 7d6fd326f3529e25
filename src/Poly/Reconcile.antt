-- ===== src/Poly/Reconcile.antt =====
-- modules/calls/poly/ReconcileRules.js: from the states of both legs to the actions of one pass.
pub mod Legal
pub mod Issues
pub mod Teardown
pub mod Progress
use arnacon_webrtc_service.Shared.{
  Bool, true, false, ◌&&◌, ◌||◌, not, Option, none, some, List, [], ◌∷◌, ◌++◌, if◌then◌else◌,
}
use arnacon_webrtc_service.Poly.States.{
  LegState, disconnected, calling, ringing, in_call, end_requested, ending, same, is_teardown,
  needs_ending, can_be_rung, call_viable,
}
use arnacon_webrtc_service.Poly.Intents.{
  Intent, connect, ring, ack_connected, ack_ring, answer, ack_end, end_call,
}

-- The refs "a" and "b" of the two legs of a session.
pub data LegRef : Type 0 where
  leg_a leg_b : LegRef

abbrev pub other : LegRef → LegRef
other leg_a = leg_b
other leg_b = leg_a

pub data Kind : Type 0 where
  webrtc sip : Kind

-- Who acts: the leg itself ("self"), or the peer, by its ref.
pub data From : Type 0 where
  self : From
  peer : LegRef → From

pub data MediaOp : Type 0 where
  bridge unbridge : MediaOp

-- What `intent` and `media` build.
pub data Action : Type 0 where
  intent : LegRef → Intent → From → Action
  media : MediaOp → Action

pub record Side : Type 0 where
  pub state : LegState
  pub kind : Kind

pub record Snapshot : Type 0 where
  pub a : Side
  pub b : Side
  pub media_connected : Bool

-- The state of the change that triggered the pass, or none: all that the rules read of the event.
abbrev pub Trigger : Type 0
Trigger = Option LegState

abbrev pub triggered_by : LegState → Trigger → Bool
triggered_by s none = false
triggered_by s (some t) = same t s

abbrev pub is_caller : LegState → Bool
is_caller s = same s calling || same s ringing

abbrev pub is_soft_ending_vs_fresh_call : LegState → LegState → Bool
is_soft_ending_vs_fresh_call teardown_state other_state =
    same teardown_state ending && same other_state calling

-- `push` under a test.
abbrev pub when : Bool → Action → List Action
when true x = x ∷ []
when false x = []

-- `toEnd`, a set that keeps the order of insertion; each `add` stands under its test.
abbrev pub is_ref : LegRef → LegRef → Bool
is_ref leg_a leg_a = true
is_ref leg_b leg_b = true
is_ref _ _ = false

abbrev has : List LegRef → LegRef → Bool
has [] r = false
has (x ∷ xs) r = is_ref x r || has xs r

abbrev add_if : Bool → LegRef → List LegRef → List LegRef
add_if test r refs = if test && not (has refs r) then refs ++ r ∷ [] else refs

abbrev pub to_end : LegState → LegState → List LegRef
to_end a b = add_if (same b in_call && not (call_viable a)) leg_b (
    add_if (same a in_call && not (call_viable b)) leg_a (
      add_if (is_teardown b && needs_ending a && not (is_soft_ending_vs_fresh_call b a)) leg_a (
        add_if (is_teardown a && needs_ending b && not (is_soft_ending_vs_fresh_call a b)) leg_b
          [])))

abbrev ends : List LegRef → List Action
ends [] = []
ends (r ∷ refs) = intent r end_call (peer (other r)) ∷ ends refs

-- Section 1 of `reconcile`.
abbrev pub teardown : LegState → LegState → Bool → List Action
teardown a b media_connected =
    when (media_connected && not (same a in_call && same b in_call)) (media unbridge)
    ++ (when (same a end_requested) (intent leg_a ack_end self)
        ++ (when (same b end_requested) (intent leg_b ack_end self) ++ ends (to_end a b)))

abbrev pub ack_fresh_ring : LegState → LegState → Trigger → List Action
ack_fresh_ring a b event =
    if triggered_by calling event
    then when (same a calling) (intent leg_a ack_connected self)
      ++ when (same b calling) (intent leg_b ack_connected self)
    else []

abbrev pub tell_ringing : LegState → LegState → Trigger → List Action
tell_ringing a b event =
    if triggered_by ringing event
    then when (same a ringing && is_caller b) (intent leg_b ack_ring (peer leg_a))
      ++ when (same b ringing && is_caller a) (intent leg_a ack_ring (peer leg_b))
    else []

-- The last `if`s of section 2 and section 3: what follows the acks.
abbrev pub advance : LegState → LegState → Bool → List Action
advance a b media_connected =
    if same a calling && same b calling
    then intent leg_b ring (peer leg_a) ∷ []
    else if same a in_call && is_caller b
    then intent leg_b answer (peer leg_a) ∷ when (not media_connected) (media bridge)
    else if same b in_call && is_caller a
    then intent leg_a answer (peer leg_b) ∷ when (not media_connected) (media bridge)
    else if is_caller a && same b disconnected
    then intent leg_b connect (peer leg_a) ∷ []
    else if is_caller a && can_be_rung b
    then intent leg_b ring (peer leg_a) ∷ []
    else if is_caller b && same a disconnected
    then intent leg_a connect (peer leg_b) ∷ []
    else if is_caller b && can_be_rung a
    then intent leg_a ring (peer leg_b) ∷ []
    else if same a in_call && same b in_call
    then when (not media_connected) (media bridge)
    else []

abbrev pub progress : LegState → LegState → Bool → Trigger → List Action
progress a b media_connected event =
    ack_fresh_ring a b event ++ (tell_ringing a b event ++ advance a b media_connected)

-- A fresh caller waits for a peer that is still ending its last call.
abbrev pub soft_wait : LegState → LegState → Bool
soft_wait a b = (same a calling && same b ending) || (same b calling && same a ending)

abbrev or_else : List Action → List Action → List Action
or_else [] later = later
or_else (x ∷ xs) later = x ∷ xs

unfoldable pub rules : LegState → LegState → Bool → Trigger → List Action
rules a b media_connected event =
    or_else (teardown a b media_connected)
      (if soft_wait a b then ack_fresh_ring a b event else progress a b media_connected event)

-- The rules read the states and the media flag; the kinds of the legs they do not.
unfoldable pub reconcile : Snapshot → Trigger → List Action
unfolding rules
reconcile s event = rules s.a.state s.b.state s.media_connected event
