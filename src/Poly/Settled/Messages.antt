-- ===== src/Poly/Settled/Messages.antt =====
-- Histories of messages: a drain may run while the handler of a message waits, or be under way when the
-- handler goes on.

use arnacon_webrtc_service.Shared.{
  ℕ, zero, suc, true, ◌≡◌, sym, ◌∙◌, List, [], ◌∷◌, ◌++◌, if-cases, Option, none, some, Text,
}
use arnacon_webrtc_service.Poly.States.{LegState, same}
use arnacon_webrtc_service.Poly.World.{
  of_client, negotiate, NegOp, Change, Payload, LegEvent, EventType, leg_at, put_leg, emit,
  on_leg_change, set_leg_state, Session, Res, ok, thrown, M, then_do, ◌>>=◌, ◌>>◌, done, modify,
  Port, call,
}
use arnacon_webrtc_service.Poly.PolySession
use arnacon_webrtc_service.Poly.CallIdentity
use arnacon_webrtc_service.Poly.SipLeg
use arnacon_webrtc_service.Poly.Reconcile.{LegRef, leg_a, leg_b}
use arnacon_webrtc_service.Poly.Frame.{Frame}
use arnacon_webrtc_service.Poly.Frame.SessionCode.{ingress-Follows}
use arnacon_webrtc_service.Poly.Steady.{true≢false, Steady, IsObserved}
use arnacon_webrtc_service.Poly.Unbridged.{Unbridged, IsUnbridged}
use arnacon_webrtc_service.Poly.Settled.{IsCoherent, IsAtRest, IsSound}
use arnacon_webrtc_service.Poly.Settled.Passes.{pass-IsCoherent}
use arnacon_webrtc_service.Poly.Settled.Drains.{Steady-IsCoherent, drain-IsSound}

-- What may have run while the handler of a client's message waits, from the session `s` to `t`. Either
-- no drain ended meanwhile, and what ran wrote the states of the legs by `setState`, bridged no media
-- and cleared the flag of no change; or a drain is under way; or drains ended, the last of which made
-- its last pass from some session `u`, and what ran after that pass did as in the first case.
pub data Meanwhile (port : Port) (retries : ℕ) (s t : Session) : Type 0 where
  writes : s.running ≡ t.running → Steady s t → Unbridged s t → Meanwhile port retries s t
  drains_on : t.running ≡ true → Meanwhile port retries s t
  drained :
      (u : Session)
      → Steady (PolySession.pass port retries u).1 t
      → Unbridged (PolySession.pass port retries u).1 t
      → Meanwhile port retries s t

-- What runs while a handler waits for a negotiation is what may run then, drains included.
abbrev pub IsAttended : Port → ℕ → Type 0
IsAttended port retries =
    (r : LegRef) (op : NegOp) (event : LegEvent) (s : Session)
    → Meanwhile port retries s (port (negotiate r op (of_client event)) s).1

mark-IsSound :
    (from : Option Text) (call_id : Option ℕ) (s : Session)
    → IsSound s
    → IsSound (CallIdentity.mark from call_id s)
mark-IsSound (some from) (some call_id) s h = h
mark-IsSound none call_id s h = h
mark-IsSound (some from) none s h = h

own_call-IsSound :
    (type : EventType) (r : LegRef) (event : LegEvent) (s : Session)
    → IsSound s
    → IsSound (PolySession.own_call type r event s)
unfolding CallIdentity.mark_active_call
own_call-IsSound EventType.offer r event s h =
    own-IsSound (CallIdentity.normalize_call_id event.payload.call_id)
  where
    own-IsSound : (n : Option ℕ) → IsSound (PolySession.own n r event s)
    own-IsSound none = h
    own-IsSound (some n) = mark-IsSound _ _ s h
own_call-IsSound _ r event s h = h

emit-IsSound : (change : Change) (s : Session) → IsSound (emit change s)
unfolding emit on_leg_change
emit-IsSound change s =
    if-cases IsSound s.subscribed (on_leg_change change s) s (λ _ q. absurd (true≢false q.1.1))
      (λ off q. absurd (true≢false (sym q.1.0 ∙ off)))

set_leg_state-IsSound :
    (r : LegRef) (next : LegState) (from : Option Text) (s : Session)
    → IsSound s
    → IsSound (set_leg_state r next from s)
unfolding set_leg_state
set_leg_state-IsSound leg_a next from s h =
    if-cases IsSound (same s.a.state next) _ _ (λ _. h) (λ _. emit-IsSound _ _)
set_leg_state-IsSound leg_b next from s h =
    if-cases IsSound (same s.b.state next) _ _ (λ _. h) (λ _. emit-IsSound _ _)

put_pending-IsSound :
    (r : LegRef) (p : Option Payload) (s : Session)
    → IsSound s
    → IsSound (put_leg r (record (leg_at r s) { pending_end_offer = p }) s)
put_pending-IsSound leg_a p s h = h
put_pending-IsSound leg_b p s h = h

abbrev Kept : Session → Session → Type 0
Kept s t = IsSound s → IsSound t

module _ (port : Port) (retries : ℕ) (observed : IsObserved port) (unbridged : IsUnbridged port)
    (attended : IsAttended port retries) where
  Meanwhile-Kept : (s t : Session) → Meanwhile port retries s t → Kept s t
  Meanwhile-Kept s t (writes e steady down) h q =
      Steady-IsCoherent s t steady down q.1 (λ q'. h (e ∙ q.0, q'))
  Meanwhile-Kept s t (drains_on e) h q = absurd (true≢false (sym e ∙ q.0))
  Meanwhile-Kept s t (drained u steady down) h q =
      Steady-IsCoherent (PolySession.pass port retries u).1 t steady down q.1
        (pass-IsCoherent port observed unbridged retries u)

  Kept-Frame : Frame of_client port Kept
  unfolding call
  Kept-Frame = record {
    stay = λ s h. h;
    chain = λ s t u h k i. k (h i);
    state = set_leg_state-IsSound;
    note = put_pending-IsSound;
    wait = λ r op event s.
        Meanwhile-Kept (record s { log = s.log ++ negotiate r op (of_client event) ∷ [] }) _
          (attended r op event _);
  }

  then_do-IsSound :
      {A B : Type 0} (r : Res A) (t : Session) (f : A → M B)
      → IsSound t
      → ((a : A) → IsSound (f a t).1)
      → IsSound (then_do (r, t) f).1
  unfolding then_do
  then_do-IsSound (ok a) t f h k = k a
  then_do-IsSound (thrown e) t f h k = h

  drains-IsSound :
      (n : ℕ) (s : Session) → IsSound s → IsSound (PolySession.drains port retries n s).1
  unfolding PolySession.drains ◌>>◌ ◌>>=◌ done
  drains-IsSound zero s h = h
  drains-IsSound (suc n) s h =
      let t = (PolySession.drain port retries s).1 in
      let safe = drain-IsSound port observed unbridged retries s h in
      then_do-IsSound _ t _ safe (λ _. drains-IsSound n t safe)

  settle-IsSound : (s : Session) → IsSound s → IsSound (PolySession.settle port retries s).1
  unfolding PolySession.settle
  settle-IsSound s h = drains-IsSound _ (record s { queued = 0 }) h

  pub on_ingress-IsSound :
      (r : LegRef) (event : LegEvent) (s : Session)
      → IsSound s
      → IsSound (PolySession.on_ingress port retries r event s).1
  unfolding PolySession.on_ingress ◌>>◌ ◌>>=◌ modify
  on_ingress-IsSound r event s h =
      let s' = PolySession.own_call event.type r event s in
      let t = (SipLeg.handle_ingress port retries r event s').1 in
      let owned = own_call-IsSound event.type r event s h in
      let handled = (ingress-Follows Kept-Frame retries r event).at s' owned in
      then_do-IsSound _ s' _ owned
        λ _. then_do-IsSound _ t _ handled (λ _. settle-IsSound t handled)

  after_messages-IsSound :
      (messages : List (LegRef × LegEvent)) (s : Session)
      → IsSound s
      → IsSound (PolySession.after_messages port retries messages s)
  unfolding PolySession.after_messages
  after_messages-IsSound [] s h = h
  after_messages-IsSound ((r, event) ∷ rest) s h =
      after_messages-IsSound rest _ (on_ingress-IsSound r event s h)

  -- Whatever messages the two clients send, in whatever order, and whatever the ports reply or throw: if
  -- during the awaits of a drain nothing but `setState` writes a leg's state, and nothing bridges media
  -- or clears the dirty flag, and if during the awaits of a message's handler nothing else does so but
  -- drains, which may end then or still be under way, then a session that starts coherent, and that
  -- afterwards runs no drain, is still observed, is not dirty and has had no drain give up on its passes,
  -- has no leg in a call whose other leg is in no state of a call, and media up only if both legs are in
  -- the call.
  pub after_messages-IsCoherent :
      (messages : List (LegRef × LegEvent)) (s : Session)
      → IsCoherent s
      → IsAtRest (PolySession.after_messages port retries messages s)
      → IsCoherent (PolySession.after_messages port retries messages s)
  after_messages-IsCoherent messages s h = after_messages-IsSound messages s (λ _. h)
