-- ===== src/Poly/Reconcile/Issues.antt =====
-- ReconcileRules.js: the rules seen through the actions that they issue.
use arnacon_webrtc_service.Shared.{
  Bool, true, false, ◌&&◌, ◌||◌, ◌≡◌, List, [], ◌∷◌, any, ℕ, ◌+◌, arith,
}
use arnacon_webrtc_service.Poly.States.{LegState}
use arnacon_webrtc_service.Poly.Intents.{
  Intent, connect, ring, ack_connected, ack_ring, answer, ack_end, end_call, cancel, reject,
}
use arnacon_webrtc_service.Poly.Table.{every_pass, every_pass_sound}
use arnacon_webrtc_service.Poly.Reconcile.{
  LegRef, leg_a, leg_b, Action, intent, media, MediaOp, bridge, unbridge, Snapshot, Trigger, is_ref,
}

abbrev pub is_intent : Intent → Intent → Bool
is_intent connect connect = true
is_intent ring ring = true
is_intent ack_connected ack_connected = true
is_intent ack_ring ack_ring = true
is_intent answer answer = true
is_intent ack_end ack_end = true
is_intent end_call end_call = true
is_intent cancel cancel = true
is_intent reject reject = true
is_intent _ _ = false

abbrev pub is_op : MediaOp → MediaOp → Bool
is_op bridge bridge = true
is_op unbridge unbridge = true
is_op _ _ = false

abbrev pub is_ask : LegRef → Intent → Action → Bool
is_ask r i (intent r' i' from) = is_ref r r' && is_intent i i'
is_ask r i (media op) = false

abbrev pub is_move : MediaOp → Action → Bool
is_move op (intent r i from) = false
is_move op (media op') = is_op op op'

-- Whether a pass asks leg `r` for `i`, and whether it moves the media.
abbrev pub asks : LegRef → Intent → List Action → Bool
asks r i = any (is_ask r i)

abbrev pub moves : MediaOp → List Action → Bool
moves op = any (is_move op)

-- `p → q` as a test.
infixl 28 ◌⇒◌
abbrev pub ◌⇒◌ : Bool → Bool → Bool
true ⇒ q = q
false ⇒ q = true

pub ⇒_elim : (p : Bool) {q : Bool} → (p ⇒ q) ≡ true → p ≡ true → q ≡ true
⇒_elim p h e = ground arith

-- A test of the states, the media flag and the trigger that holds of all of them.
pub at_snapshot :
    (p : LegState → LegState → Bool → Trigger → Bool)
    → every_pass p ≡ true
    → (s : Snapshot) (event : Trigger) → p s.a.state s.b.state s.media_connected event ≡ true
at_snapshot p h s event = every_pass_sound p h s.a.state s.b.state s.media_connected event

-- The same session with its legs the other way round.
abbrev pub mirror : Snapshot → Snapshot
mirror s = record { a = s.b; b = s.a; media_connected = s.media_connected }

abbrev pub either : (LegRef → Bool) → Bool
either p = p leg_a || p leg_b

-- The intents that take a call forward, as against those that end one.
abbrev pub advances : LegRef → List Action → Bool
advances r xs =
    asks r connect xs
    || asks r ring xs
    || asks r ack_connected xs
    || asks r ack_ring xs
    || asks r answer xs

abbrev pub retreats : LegRef → List Action → Bool
retreats r xs = asks r ack_end xs || asks r end_call xs

abbrev counts : Bool → ℕ
counts true = 1
counts false = 0

abbrev moves_leg : LegRef → Action → Bool
moves_leg r (intent r' ack_connected from) = false
moves_leg r (intent r' ack_ring from) = false
moves_leg r (intent r' i from) = is_ref r r'
moves_leg r (media op) = false

-- How many of the actions can change the state of leg `r`: all but the two acknowledgements.
abbrev pub count_moves : LegRef → List Action → ℕ
count_moves r [] = 0
count_moves r (x ∷ xs) = counts (moves_leg r x) + count_moves r xs
