-- ===== src/Poly/Steady/Marks.antt =====
-- Intents that cannot run without leaving the session dirty.
use arnacon_webrtc_service.Shared.{
  Bool, true, false, ◌≡◌, refl, sym, ◌∙◌, Option, if-cases, Text, ◌||◌, arith, if◌then◌else◌,
}
use arnacon_webrtc_service.Poly.States.{
  LegState, same, ending, answering, in_call, needs_ending, is_terminal,
}
use arnacon_webrtc_service.Poly.Intents.{Intent, is_intent_legal}
use arnacon_webrtc_service.Poly.Reconcile.{LegRef, leg_a, leg_b, is_caller}
use arnacon_webrtc_service.Poly.World.{
  Ctx, Session, Res, ok, thrown, M, then_do, ◌>>=◌, ◌>>◌, leg_at, Port, Change, emit, on_leg_change,
  set_leg_state, set_state, modify, state_at, assert_legal, check_legal,
}
use arnacon_webrtc_service.Poly.SessionLeg
use arnacon_webrtc_service.Poly.Frame.{Follows, parts}
use arnacon_webrtc_service.Poly.Steady.{IsQuiet, true≢false, Steady, IsObserved, Steady-Frame}

-- Dirty, no longer observed, or given up.
abbrev pub Marked : Session → Type 0
Marked s = IsQuiet s → ⊥

pub Marked-Steady : (s t : Session) → Marked s → Steady s t → Marked t
Marked-Steady s t h k q = h (k q).0

module _ {A B : Type 0} (m : M A) (f : A → M B) where
  -- The first part marks, and the rest keeps the mark.
  then_do-Marked :
      (r : Res A) (t : Session)
      → Marked t
      → ((a : A) → Follows Steady (f a))
      → Marked (then_do (r, t) f).1
  unfolding then_do
  then_do-Marked (ok a) t h k = Marked-Steady t (f a t).1 h ((k a).at t)
  then_do-Marked (thrown e) t h k = h

  first-Marked :
      (s : Session) → Marked (m s).1 → ((a : A) → Follows Steady (f a)) → Marked ((m >>= f) s).1
  unfolding ◌>>=◌
  first-Marked s h k = then_do-Marked (m s).0 (m s).1 h k

  -- The first part succeeds, and the rest marks.
  rest-Marked : (s : Session) (a : A) → m s ≡ (ok a, s) → Marked (f a s).1 → Marked ((m >>= f) s).1
  unfolding ◌>>=◌ then_do
  rest-Marked s a e h = rw e h

emit-Marked : (change : Change) (s : Session) → Marked (emit change s)
unfolding emit on_leg_change
emit-Marked change s =
    if-cases Marked s.subscribed _ s (λ _ q. true≢false q.1) (λ off q. true≢false (sym q.0 ∙ off))

set_state-Marked :
    (r : LegRef) (next : LegState) (from : Option Text) (s : Session)
    → same (leg_at r s).state next ≡ false
    → Marked (set_state r next from s).1
unfolding set_state modify set_leg_state
set_state-Marked leg_a next from s e = rw e (emit-Marked _ _)
set_state-Marked leg_b next from s e = rw e (emit-Marked _ _)

assert_legal_passes :
    (r : LegRef) (i : Intent) (s : Session)
    → is_intent_legal (leg_at r s).state i ≡ true
    → assert_legal r i s ≡ (ok tt, s)
unfolding assert_legal check_legal
assert_legal_passes r i s e = rw e

ends_legal : (st : LegState) → needs_ending st ≡ true → is_intent_legal st Intent.end_call ≡ true
ends_legal st h = ground arith

ends_fresh : (st : LegState) → needs_ending st ≡ true → same st ending ≡ false
ends_fresh st h = ground arith

ends_runs : (st : LegState) → needs_ending st ≡ true → (same st ending || is_terminal st) ≡ false
ends_runs st h = ground arith

answers_legal : (st : LegState) → is_caller st ≡ true → is_intent_legal st Intent.answer ≡ true
answers_legal st h = ground arith

answers_fresh : (st : LegState) → is_caller st ≡ true → same st answering ≡ false
answers_fresh st h = ground arith

answers_runs : (st : LegState) → is_caller st ≡ true → same st in_call ≡ false
answers_runs st h = ground arith

else-Marked :
    {A : Type 0} (b : Bool) (m n : M A) (s : Session)
    → b ≡ false
    → Marked (n s).1
    → Marked ((if b then m else n) s).1
else-Marked b m n s e h = rw e h

module _ (port : Port) (observed : IsObserved port) where
  pub end_call-Marked :
      (r : LegRef) (ctx : Ctx) (s : Session)
      → needs_ending (leg_at r s).state ≡ true
      → Marked (SessionLeg.end_call port r ctx s).1
  unfolding SessionLeg.end_call ◌>>◌ state_at
  end_call-Marked r ctx s h =
      let frame = Steady-Frame port observed in
      let st = (leg_at r s).state in
      rest-Marked _ _ s tt (assert_legal_passes r Intent.end_call s (ends_legal st h)) (
        rest-Marked (state_at r) _ s st refl (
          else-Marked _ _ _ s (ends_runs st h) (
            first-Marked _ _ s (set_state-Marked r ending ctx.from s (ends_fresh st h))
              (λ _. search parts depth 9))))

  pub answer-Marked :
      (r : LegRef) (ctx : Ctx) (s : Session)
      → is_caller (leg_at r s).state ≡ true
      → Marked (SessionLeg.answer port r ctx s).1
  unfolding SessionLeg.answer ◌>>◌ state_at
  answer-Marked r ctx s h =
      let frame = Steady-Frame port observed in
      let st = (leg_at r s).state in
      rest-Marked _ _ s tt (assert_legal_passes r Intent.answer s (answers_legal st h)) (
        rest-Marked (state_at r) _ s st refl (
          else-Marked _ _ _ s (answers_runs st h) (
            first-Marked _ _ s (set_state-Marked r answering ctx.from s (answers_fresh st h))
              (λ _. search parts depth 9))))
