-- ===== src/Poly/World.antt =====
-- modules/calls/poly: the state of a PolySession with its two legs, and what its code acts on.
-- An `await` hands the session to the environment: the reply of a negotiation port, a media
-- controller or a hook comes with the session as every other handler that ran meanwhile left it.
use arnacon_webrtc_service.Shared.{
  ℕ, Bool, true, Option, some, List, [], ◌∷◌, ◌++◌, if◌then◌else◌, suc, Text, text,
}
use arnacon_webrtc_service.Poly.States.{LegState, same}
use arnacon_webrtc_service.Poly.Intents.{Intent, is_intent_legal}
use arnacon_webrtc_service.Poly.Reconcile.{LegRef, leg_a, leg_b, Kind}

-- LEG_EVENTS of ports.js; `inherited` stands for the values that ACTION_TO_EVENT inherits from
-- Object.prototype, which no `switch` of a leg names.
pub data EventType : Type 0 where
  transport_open transport_close offer answer ice end end_renegotiation : EventType
  reject cancel dtmf hold remote_bye inherited : EventType

-- The fields of a payload that the session and its legs read.
pub record Payload : Type 0 where
  pub payload_type : Option Text
  pub from : Option Text
  pub call_id : Option Text

pub record LegEvent : Type 0 where
  pub type : EventType
  pub payload : Payload

-- Fields of SessionLeg. `from` is null, "self" or the endpoint that acted.
pub record Leg : Type 0 where
  pub id : Text
  pub kind : Kind
  pub endpoint : Text
  pub state : LegState
  pub from : Option Text
  pub pending_end_offer : Option Payload

-- What `_emit` tells the listener: `{ leg, kind, prevState, state, cause.from }`.
pub record Change : Type 0 where
  pub leg : LegRef
  pub prev_state : LegState
  pub state : LegState
  pub from : Option Text

-- The context that `_execute` passes with an intent, or the client's event.
pub record Ctx : Type 0 where
  pub from : Option Text
  pub call_id : Option ℕ

pub data Argument : Type 0 where
  of_session : Ctx → Argument
  of_client : LegEvent → Argument

pub data OfferMode : Type 0 where
  ice_restart ring_offer : OfferMode

-- The `mode` of an `endCall` on the port; `plain` where the code gives none.
pub data EndMode : Type 0 where
  plain remote cancelled declined : EndMode

-- The methods of CallNegotiationPort.
pub data NegOp : Type 0 where
  connect ring ack_connected ack_ring answer ack_end : NegOp
  apply_offer : OfferMode → NegOp
  apply_answer apply_session_answer : NegOp
  end_call : EndMode → NegOp
  handle_aux dispose : NegOp

-- What the session calls outside itself: the ports of ports.js, and the hooks it is given.
pub data Call : Type 0 where
  negotiate : LegRef → NegOp → Argument → Call
  media_connect media_disconnect call_started call_ended : Call
  teardown_hook : ℕ → Call

-- What a negotiation returns: nothing, `{ deferred: true }` or `{ state }`.
pub data Reply : Type 0 where
  nothing deferred : Reply
  settled : LegState → Reply

pub data Failure : Type 0 where
  illegal_intent : LegState → Intent → Failure
  no_open_dc sip_pc2_not_connected unknown_leg other_failure : Failure

pub record ActiveCall : Type 0 where
  pub from : Text
  pub call_id : ℕ

-- Fields of PolySession. `queued` counts the drains that `_chain` still has to run, and
-- `diverged` tells that a drain has logged "reconcile did not converge".
pub record Session : Type 0 where
  pub a : Leg
  pub b : Leg
  pub media : Bool
  pub last_event : Option Change
  pub dirty : Bool
  pub running : Bool
  pub queued : ℕ
  pub diverged : Bool
  pub subscribed : Bool
  pub call_active : Bool
  pub active_call : Option ActiveCall
  pub disposed : Bool
  pub teardown_ran : Bool
  pub teardown_hooks : List ℕ
  pub log : List Call

pub data Res {ℓ} (A : Type ℓ) : Type ℓ where
  ok : A → Res A
  thrown : Failure → Res A

-- An async function of the session: its result or its exception, and the session after it.
abbrev pub M : Type 0 → Type 0
M A = Session → Res A × Session

unfoldable pub then_do : {A B : Type 0} → Res A × Session → (A → M B) → Res B × Session
then_do (ok a, s) f = f a s
then_do (thrown e, s) f = (thrown e, s)

infixl 5 ◌>>=◌ ◌>>◌
unfoldable pub ◌>>=◌ : {A B : Type 0} → M A → (A → M B) → M B
◌>>=◌ m f s = then_do (m s) f

unfoldable pub ◌>>◌ : {A B : Type 0} → M A → M B → M B
m >> k = m >>= λ _. k

unfoldable pub done : M (Unit {0})
done s = (ok tt, s)

unfoldable pub caught : {A : Type 0} → Res A × Session → (Failure → M A) → Res A × Session
caught (ok a, s) handler = (ok a, s)
caught (thrown e, s) handler = handler e s

-- `try { … } catch (err) { … }`.
unfoldable pub catch : {A : Type 0} → M A → (Failure → M A) → M A
catch m handler s = caught (m s) handler

unfoldable pub modify : (Session → Session) → M (Unit {0})
modify f s = (ok tt, f s)

abbrev pub leg_at : LegRef → Session → Leg
leg_at leg_a s = s.a
leg_at leg_b s = s.b

abbrev pub put_leg : LegRef → Leg → Session → Session
put_leg leg_a leg s = record s { a = leg }
put_leg leg_b leg s = record s { b = leg }

unfoldable pub state_at : LegRef → M LegState
state_at r s = (ok (leg_at r s).state, s)

-- The environment: how each call outside ends, and what the session is afterwards.
abbrev pub Port : Type 0
Port = Call → M Reply

-- The calls that a drain waits for; a client's handler waits for a negotiation with its event.
abbrev pub IsOfDrain : Call → Type 0
IsOfDrain (negotiate r op (of_client event)) = ⊥
IsOfDrain _ = Unit

unfoldable pub call : Port → Call → M Reply
call port c s = port c (record s { log = s.log ++ c ∷ [] })

abbrev pub by_self : Option Text
by_self = some (text "self")

-- `_onLegChange`: a change while no drain runs queues one.
unfoldable pub on_leg_change : Change → Session → Session
on_leg_change change s = record s {
  last_event = some change;
  dirty = true;
  queued = if s.running then s.queued else suc s.queued;
}

-- `_emit`: the session listens until it is disposed.
unfoldable pub emit : Change → Session → Session
emit change s = if s.subscribed then on_leg_change change s else s

-- `setState`: the single writer of a leg's state.
unfoldable pub set_leg_state : LegRef → LegState → Option Text → Session → Session
set_leg_state r next from s =
    if same (leg_at r s).state next
    then put_leg r (record (leg_at r s) { from = from }) s
    else emit (record { leg = r; prev_state = (leg_at r s).state; state = next; from = from })
        (put_leg r (record (leg_at r s) { from = from; state = next }) s)

unfoldable pub set_state : LegRef → LegState → Option Text → M (Unit {0})
set_state r next from = modify (set_leg_state r next from)

unfoldable pub check_legal : LegState → Intent → M (Unit {0})
check_legal state i s =
    if is_intent_legal state i then (ok tt, s) else (thrown (illegal_intent state i), s)

-- `assertIntentLegal`.
unfoldable pub assert_legal : LegRef → Intent → M (Unit {0})
assert_legal r i s = check_legal (leg_at r s).state i s

-- Unfolds with what a part of the code is built from.
unfoldable pub steps : Unit {0}
unfolding then_do ◌>>=◌ ◌>>◌ done caught catch modify state_at call emit on_leg_change set_leg_state
    set_state check_legal assert_legal
steps = tt
