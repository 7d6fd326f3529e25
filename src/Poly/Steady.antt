-- ===== src/Poly/Steady.antt =====
-- A session before and after a part of the code, seen through the flag that a state change sets.
pub mod Marks
pub mod Actions
use mathlib.Core.Bool.{false≢true}
use arnacon_webrtc_service.Shared.{Bool, true, false, ◌≡◌, refl, sym, ◌∙◌, Option, if-cases, Text}
use arnacon_webrtc_service.Poly.States.{LegState, same}
use arnacon_webrtc_service.Poly.Reconcile.{LegRef, leg_a, leg_b}
use arnacon_webrtc_service.Poly.World.{
  IsOfDrain, of_session, Call, Change, Payload, Session, leg_at, put_leg, Port, call, emit,
  on_leg_change, set_leg_state,
}
use arnacon_webrtc_service.Poly.Frame.{Frame}

pub true≢false : true ≡ false → ⊥
true≢false e = false≢true (sym e)

-- Still observed, not dirty, and with no drain that gave up.
abbrev pub IsQuiet : Session → Type 0
IsQuiet s = (s.subscribed ≡ true) × (s.dirty ≡ false) × (s.diverged ≡ false)

-- A session that is quiet was so before, with both legs as they are now.
abbrev pub Steady : Session → Session → Type 0
Steady s t = IsQuiet t → IsQuiet s × (s.a.state ≡ t.a.state) × (s.b.state ≡ t.b.state)

-- What runs while a drain waits writes the states of the legs by `setState` alone, and clears the
-- flag of no other change: only a drain clears it, and one drain runs at a time.
abbrev pub IsObserved : Port → Type 0
IsObserved port = (c : Call) (s : Session) → IsOfDrain c → Steady s (port c s).1

pub Steady-trans : (s t u : Session) → Steady s t → Steady t u → Steady s u
Steady-trans s t u h k q = let k' = k q in let h' = h k'.0 in (h'.0, h'.1 ∙ k'.1, h'.2 ∙ k'.2)

Steady-refl : (s : Session) → Steady s s
Steady-refl s q = (q, refl, refl)

emit-Steady : (change : Change) (s t : Session) → Steady s (emit change t)
unfolding emit on_leg_change
emit-Steady change s t =
    if-cases (Steady s) t.subscribed (on_leg_change change t) t (λ _ q. absurd (true≢false q.1))
      (λ off q. absurd (true≢false (sym q.0 ∙ off)))

set_leg_state-Steady :
    (r : LegRef) (next : LegState) (from : Option Text) (s : Session)
    → Steady s (set_leg_state r next from s)
unfolding set_leg_state
set_leg_state-Steady leg_a next from s =
    if-cases (Steady s) (same s.a.state next) _ _ (λ _ q. (q, refl, refl)) (λ _. emit-Steady _ s _)
set_leg_state-Steady leg_b next from s =
    if-cases (Steady s) (same s.b.state next) _ _ (λ _ q. (q, refl, refl)) (λ _. emit-Steady _ s _)

put_pending-Steady :
    (r : LegRef) (p : Option Payload) (s : Session)
    → Steady s (put_leg r (record (leg_at r s) { pending_end_offer = p }) s)
put_pending-Steady leg_a p s q = (q, refl, refl)
put_pending-Steady leg_b p s q = (q, refl, refl)

pub Steady-Frame : (port : Port) → IsObserved port → Frame of_session port Steady
unfolding call
Steady-Frame port h = record {
  stay = Steady-refl;
  chain = Steady-trans;
  state = set_leg_state-Steady;
  note = put_pending-Steady;
  wait = λ r op ctx s. h _ _ tt;
}
