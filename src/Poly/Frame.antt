-- ===== src/Poly/Frame.antt =====
-- What every part of the leg code does to a session, from what its single steps do: a relation that
-- holds across a state change, a note on the leg and a call outside holds across the whole part.
pub mod LegCode
pub mod SessionCode
use arnacon_webrtc_service.Shared.{
  Bool, true, false, Option, if◌then◌else◌, if-cases, ◌+◌, ◌||◌, ◌&&◌, ◌⊎◌, Text, ℕ, zero, suc,
  none, some,
}
use arnacon_webrtc_service.Poly.States.{
  LegState, same, is_terminal, is_teardown, disconnected, connecting, connected, calling, ringing,
  answering, in_call, end_requested, ending, ended, canceling, canceled, rejecting, rejected,
  failed,
}
use arnacon_webrtc_service.Poly.Intents.{Intent, is_intent_legal}
use arnacon_webrtc_service.Poly.Reconcile.{LegRef, leg_a, leg_b, Kind, webrtc, sip}
use arnacon_webrtc_service.Poly.World.{
  of_session, of_client, Argument, Call, Ctx, EventType, LegEvent, NegOp, Payload, negotiate,
  Session, Reply, Failure, Res, ok, thrown, M, then_do, ◌>>=◌, ◌>>◌, done, caught, catch, modify,
  leg_at, put_leg, state_at, Port, call, set_leg_state, set_state, assert_legal, check_legal,
}
use arnacon_webrtc_service.Poly.SessionLeg
use arnacon_webrtc_service.Poly.SessionLeg.{set_pending, is_deferred}
use arnacon_webrtc_service.Poly.SessionLeg.Ingress
use arnacon_webrtc_service.Poly.SipLeg

-- The part `m` of the code takes every session to one that is related to it.
pub record Follows (R : Session → Session → Type 0) {A : Type 0} (m : M A) : Type 0 where
  pub at : (s : Session) → R s (m s).1

-- A relation across the single steps of the leg code under `port`, whose calls have the arguments that
-- `arg_of` makes: a session's, or a client's.
pub record Frame {X : Type 0} (arg_of : X → Argument) (port : Port) (R : Session → Session → Type 0)
    : Type 0 where
  pub stay : (s : Session) → R s s
  pub chain : (s t u : Session) → R s t → R t u → R s u
  pub state :
      (r : LegRef) (next : LegState) (from : Option Text) (s : Session)
      → R s (set_leg_state r next from s)
  pub note :
      (r : LegRef) (p : Option Payload) (s : Session)
      → R s (put_leg r (record (leg_at r s) { pending_end_offer = p }) s)
  pub wait :
      (r : LegRef) (op : NegOp) (x : X) (s : Session)
      → R s (call port (negotiate r op (arg_of x)) s).1

module _ (R : Session → Session → Type 0) (chain : (s t u : Session) → R s t → R t u → R s u) where
  then_do-Follows :
      {A B : Type 0} (r : Res A) (s t : Session) (f : A → M B)
      → R s t
      → ((a : A) → Follows R (f a))
      → R s (then_do (r, t) f).1
  unfolding then_do
  then_do-Follows (ok a) s t f h k = chain s t (f a t).1 h ((k a).at t)
  then_do-Follows (thrown e) s t f h k = h

  caught-Follows :
      {A : Type 0} (r : Res A) (s t : Session) (handler : Failure → M A)
      → R s t
      → ((e : Failure) → Follows R (handler e))
      → R s (caught (r, t) handler).1
  unfolding caught
  caught-Follows (ok a) s t handler h k = h
  caught-Follows (thrown e) s t handler h k = chain s t (handler e t).1 h ((k e).at t)

pub if-Follows :
    {R : Session → Session → Type 0} {A : Type 0} (b : Bool) {m n : M A}
    → Follows R m
    → Follows R n
    → Follows R (if b then m else n)
if-Follows true h k = h
if-Follows false h k = k

module _ {X : Type 0} {arg_of : X → Argument} {R : Session → Session → Type 0} {port : Port}
    (frame : Frame arg_of port R) where
  open frame use {stay, chain, state, note}

  pub bind-Follows :
      {A B : Type 0} {m : M A} {f : A → M B}
      → Follows R m
      → ((a : A) → Follows R (f a))
      → Follows R (m >>= f)
  unfolding ◌>>=◌
  bind-Follows {m = m} {f = f} h k = record {
    at = λ s. then_do-Follows R chain (m s).0 s (m s).1 f (h.at s) k;
  }

  pub then-Follows :
      {A B : Type 0} {m : M A} {n : M B} → Follows R m → Follows R n → Follows R (m >> n)
  unfolding ◌>>◌
  then-Follows h k = bind-Follows h (λ _. k)

  pub catch-Follows :
      {A : Type 0} {m : M A} {handler : Failure → M A}
      → Follows R m
      → ((e : Failure) → Follows R (handler e))
      → Follows R (catch m handler)
  unfolding catch
  catch-Follows {m = m} {handler = handler} h k = record {
    at = λ s. caught-Follows R chain (m s).0 s (m s).1 handler (h.at s) k;
  }

  pub done-Follows : Follows R done
  unfolding done
  done-Follows = record { at = stay }

  pub state_at-Follows : (r : LegRef) → Follows R (state_at r)
  unfolding state_at
  state_at-Follows r = record { at = stay }

  pub set_state-Follows :
      (r : LegRef) (next : LegState) (from : Option Text) → Follows R (set_state r next from)
  unfolding set_state modify
  set_state-Follows r next from = record { at = state r next from }

  pub set_pending-Follows : (p : Option Payload) (r : LegRef) → Follows R (set_pending p r)
  unfolding set_pending modify
  set_pending-Follows p r = record { at = note r p }

  pub assert_legal-Follows : (r : LegRef) (i : Intent) → Follows R (assert_legal r i)
  unfolding assert_legal check_legal
  assert_legal-Follows r i = record {
    at = λ s.
        if-cases (λ (t : Res (Unit {0}) × Session). R s t.1) (is_intent_legal (leg_at r s).state i)
          _ _ (λ _. stay s) (λ _. stay s);
  }

module _ {R : Session → Session → Type 0} {port : Port} where
  pub negotiate-Follows :
      (frame : Frame of_session port R) (r : LegRef) (op : NegOp) (ctx : Ctx)
      → Follows R (call port (negotiate r op (of_session ctx)))
  negotiate-Follows frame r op ctx = record { at = frame.wait r op ctx }

  pub serve-Follows :
      (frame : Frame of_client port R) (r : LegRef) (op : NegOp) (event : LegEvent)
      → Follows R (call port (negotiate r op (of_client event)))
  serve-Follows frame r op event = record { at = frame.wait r op event }

pub ruleset parts = (
  bind-Follows, then-Follows, catch-Follows, done-Follows, state_at-Follows, set_state-Follows,
  set_pending-Follows, negotiate-Follows, serve-Follows, assert_legal-Follows, if-Follows,
)
