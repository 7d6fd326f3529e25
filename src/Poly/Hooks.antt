-- ===== src/Poly/Hooks.antt =====
-- modules/calls/poly/PolySession.js, `_settleCallActivity`: the hooks that bracket a call, which
-- start and stop the count of its minutes.
pub mod Drains
use mathlib.Core.Path.{subst}
use mathlib.Core.Bool.{false≢true}
use arnacon_webrtc_service.Shared.{
  ℕ, zero, suc, Bool, true, false, not, ◌≡◌, refl, sym, ap, ◌∙◌, Option, none, some, List, [], ◌∷◌,
  ◌++◌, if-cases, Text, arith,
}
use arnacon_webrtc_service.Poly.States.{LegState, same}
use arnacon_webrtc_service.Poly.Reconcile.{
  LegRef, leg_a, leg_b, MediaOp, bridge, unbridge, Action, intent, media, reconcile,
}
use arnacon_webrtc_service.Poly.World.{
  of_session, of_client, Argument, NegOp, Call, negotiate, media_connect, media_disconnect,
  call_started, call_ended, teardown_hook, Change, Payload, LegEvent, EventType, Session, Res,
  Reply, ok, thrown, M, then_do, caught, ◌>>=◌, ◌>>◌, done, catch, modify, leg_at, put_leg, Port,
  call, emit, on_leg_change, set_leg_state,
}
use arnacon_webrtc_service.Poly.CallIdentity
use arnacon_webrtc_service.Poly.PolySession
use arnacon_webrtc_service.Poly.SipLeg
use arnacon_webrtc_service.Poly.Frame.{
  Frame, Follows, bind-Follows, then-Follows, catch-Follows, done-Follows, if-Follows,
}
use arnacon_webrtc_service.Poly.Frame.SessionCode.{
  execute-Follows, ingress-Follows, recover_failed_legs-Follows,
}

-- Whether a call is counted after one more call outside: a start opens a count that is closed and an
-- end closes one that is open; `none` is a start or an end out of turn.
abbrev pub count_step : Option Bool → Call → Option Bool
count_step (some false) call_started = some true
count_step (some true) call_ended = some false
count_step _ call_started = none
count_step _ call_ended = none
count_step o _ = o

unfoldable pub counting : Option Bool → List Call → Option Bool
counting o [] = o
counting o (c ∷ cs) = counting (count_step o c) cs

-- The hooks have run in turn, a start first, and the count is open exactly when the session holds a
-- call to be active.
abbrev pub IsBracketed : Session → Type 0
IsBracketed s = counting (some false) s.log ≡ some s.call_active

pub counting-append :
    (o : Option Bool) (cs : List Call) (c : Call)
    → counting o (cs ++ c ∷ []) ≡ count_step (counting o cs) c
unfolding counting
counting-append o [] c = refl
counting-append o (d ∷ cs) c = counting-append (count_step o d) cs c

abbrev pub Keeps : Session → Session → Type 0
Keeps s t = IsBracketed s → IsBracketed t

-- What runs while the code waits runs no hook of the session: only a drain does.
abbrev pub IsHookless : Port → Type 0
IsHookless port = (c : Call) (s : Session) → IsBracketed s → IsBracketed (port c s).1

emit-Keeps : (change : Change) (s t : Session) → Keeps s t → Keeps s (emit change t)
unfolding emit on_leg_change counting
emit-Keeps change s t h = if-cases (Keeps s) t.subscribed _ t (λ _. h) (λ _. h)

set_leg_state-Keeps :
    (r : LegRef) (next : LegState) (from : Option Text) (s : Session)
    → Keeps s (set_leg_state r next from s)
unfolding set_leg_state
set_leg_state-Keeps leg_a next from s =
    if-cases (Keeps s) (same s.a.state next) _ _ (λ _ h. h) (λ _. emit-Keeps _ s _ (λ h. h))
set_leg_state-Keeps leg_b next from s =
    if-cases (Keeps s) (same s.b.state next) _ _ (λ _ h. h) (λ _. emit-Keeps _ s _ (λ h. h))

put_pending-Keeps :
    (r : LegRef) (p : Option Payload) (s : Session)
    → Keeps s (put_leg r (record (leg_at r s) { pending_end_offer = p }) s)
put_pending-Keeps leg_a p s h = h
put_pending-Keeps leg_b p s h = h

module _ (port : Port) (hookless : IsHookless port) where
  -- A call outside that is no hook of the count.
  plain_call :
      (c : Call)
      → ((o : Option Bool) → count_step o c ≡ o)
      → (s : Session) → Keeps s (call port c s).1
  unfolding call counting
  plain_call c step s h = hookless c _ (counting-append (some false) s.log c ∙ step _ ∙ h)

  negotiate_step :
      (r : LegRef) (op : NegOp) (arg : Argument) (o : Option Bool)
      → count_step o (negotiate r op arg) ≡ o
  negotiate_step r op arg none = refl
  negotiate_step r op arg (some true) = refl
  negotiate_step r op arg (some false) = refl

  frame_of : {X : Type 0} (arg_of : X → Argument) → Frame arg_of port Keeps
  frame_of arg_of = record {
    stay = λ s h. h;
    chain = λ s t u h k b. k (h b);
    state = set_leg_state-Keeps;
    note = put_pending-Keeps;
    wait = λ r op x. plain_call (negotiate r op (arg_of x)) (negotiate_step r op (arg_of x));
  }

  pub Keeps-Frame : Frame of_session port Keeps
  Keeps-Frame = frame_of of_session

  pub Keeps-ClientFrame : Frame of_client port Keeps
  Keeps-ClientFrame = frame_of of_client

  connect_step : (o : Option Bool) → count_step o media_connect ≡ o
  connect_step none = refl
  connect_step (some true) = refl
  connect_step (some false) = refl

  disconnect_step : (o : Option Bool) → count_step o media_disconnect ≡ o
  disconnect_step none = refl
  disconnect_step (some true) = refl
  disconnect_step (some false) = refl

  pub modify-Keeps :
      (f : Session → Session) → ((s : Session) → Keeps s (f s)) → Follows Keeps (modify f)
  unfolding modify
  modify-Keeps f h = record { at = h }

  pub connect-Keeps : Follows Keeps (call port media_connect)
  connect-Keeps = record { at = plain_call media_connect connect_step }

  pub disconnect-Keeps : Follows Keeps (call port media_disconnect)
  disconnect-Keeps = record { at = plain_call media_disconnect disconnect_step }
