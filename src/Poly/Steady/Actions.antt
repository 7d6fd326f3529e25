-- ===== src/Poly/Steady/Actions.antt =====
-- The actions of a pass: none throws, and those that end or answer a call leave the session dirty.
use arnacon_webrtc_service.Shared.{
  ℕ, Bool, true, false, ◌≡◌, refl, sym, ap, ◌∙◌, List, [], ◌∷◌, any, any-cons, if◌then◌else◌,
  Bool-cases, inl, inr,
}
use mathlib.Core.Path.{subst, subst₂}
use arnacon_webrtc_service.Poly.States.{LegState, same, needs_ending}
use arnacon_webrtc_service.Poly.Intents.{Intent}
use arnacon_webrtc_service.Poly.Reconcile.{
  LegRef, leg_a, leg_b, is_caller, From, bridge, unbridge, Action, intent, media,
}
use arnacon_webrtc_service.Poly.Reconcile.Legal.{at_ref}
use arnacon_webrtc_service.Poly.World.{
  IsOfDrain, Call, Ctx, Failure, no_open_dc, Session, Res, ok, thrown, M, then_do, ◌>>=◌, ◌>>◌,
  done, caught, catch, leg_at, Port, call, media_connect, media_disconnect, modify, set_state,
  state_at,
}
use arnacon_webrtc_service.Poly.PolySession
use arnacon_webrtc_service.Poly.Frame.{Follows, then-Follows, catch-Follows, done-Follows}
use arnacon_webrtc_service.Poly.Frame.SessionCode.{execute-Follows, on_intent_error-Follows}
use arnacon_webrtc_service.Poly.Steady.{IsQuiet, Steady, IsObserved, Steady-Frame}
use arnacon_webrtc_service.Poly.Steady.Marks.{Marked, Marked-Steady, end_call-Marked, answer-Marked}

abbrev pub marking : LegState → Intent → Bool
marking st Intent.end_call = needs_ending st
marking st Intent.answer = is_caller st
marking st _ = false

-- The action ends or answers the call of a leg that has one.
abbrev pub marks : LegState → LegState → Action → Bool
marks a b (intent r i from) = marking (at_ref r a b) i
marks a b (media op) = false

-- A part of the code that throws nothing.
abbrev pub Returns : M (Unit {0}) → Type 0
Returns m = (s : Session) → (m s).0 ≡ ok tt

caught-Returns :
    (r : Res (Unit {0})) (s : Session) (handler : Failure → M (Unit {0}))
    → ((e : Failure) → Returns (handler e))
    → (caught (r, s) handler).0 ≡ ok tt
unfolding caught
caught-Returns (ok a) s handler h = refl
caught-Returns (thrown e) s handler h = h e s

pub catch-Returns :
    (m : M (Unit {0})) (handler : Failure → M (Unit {0}))
    → ((e : Failure) → Returns (handler e))
    → Returns (catch m handler)
unfolding catch
catch-Returns m handler h s = caught-Returns (m s).0 (m s).1 handler h

pub done-Returns : Returns done
unfolding done
done-Returns s = refl

if-Returns : (b : Bool) (m n : M (Unit {0})) → Returns m → Returns n → Returns (if b then m else n)
if-Returns true m n h k = h
if-Returns false m n h k = k

set-Returns : (r : LegRef) (st next : LegState) → Returns (PolySession.leave r next st)
unfolding done set_state modify
set-Returns r st next = if-Returns (same st next) _ _ (λ s. refl) (λ s. refl)

on_intent_error-Returns :
    (r : LegRef) (i : Intent) (e : Failure) → Returns (PolySession.on_intent_error r i e)
unfolding ◌>>=◌ then_do state_at
on_intent_error-Returns r i no_open_dc s = set-Returns r (leg_at r s).state _ s
on_intent_error-Returns r i _ s =
    if-Returns (PolySession.fails_on_error i) _ done (set-Returns r (leg_at r s).state _)
      done-Returns s

module _ (port : Port) (retries : ℕ) where
  pub execute-Returns : (x : Action) → Returns (PolySession.execute port retries x)
  unfolding PolySession.execute PolySession.execute_media
  execute-Returns (intent r i from) s = catch-Returns _ _ (on_intent_error-Returns r i) s
  execute-Returns (media bridge) s = catch-Returns _ (λ e. done) (λ e. done-Returns) s
  execute-Returns (media unbridge) s = catch-Returns _ (λ e. done) (λ e. done-Returns) s

  then_returned :
      {A : Type 0} (r : Res (Unit {0})) (s : Session) (n : M A)
      → r ≡ ok tt
      → then_do (r, s) (λ _. n) ≡ n s
  unfolding then_do
  then_returned (ok a) s n e = refl
  then_returned (thrown f) s n e = cc

  -- The actions run one after another, whatever comes of each.
  pub execute_all-cons :
      (x : Action) (xs : List Action) (s : Session)
      → PolySession.execute_all port retries (x ∷ xs) s
        ≡ PolySession.execute_all port retries xs (PolySession.execute port retries x s).1
  unfolding PolySession.execute_all ◌>>◌ ◌>>=◌
  execute_all-cons x xs s =
      then_returned _ (PolySession.execute port retries x s).1 _ (execute-Returns x s)

caught-Marked :
    (r : Res (Unit {0})) (s : Session) (handler : Failure → M (Unit {0}))
    → Marked s
    → ((e : Failure) → Follows Steady (handler e))
    → Marked (caught (r, s) handler).1
unfolding caught
caught-Marked (ok a) s handler h k = h
caught-Marked (thrown e) s handler h k = Marked-Steady s (handler e s).1 h ((k e).at s)

module _ (port : Port) (observed : IsObserved port) (retries : ℕ) where
  run_intent-Marked :
      (r : LegRef) (i : Intent) (ctx : Ctx) (s : Session)
      → marking (leg_at r s).state i ≡ true
      → Marked (PolySession.run_intent port retries r i ctx s).1
  unfolding PolySession.run_intent
  run_intent-Marked r Intent.end_call ctx s h = end_call-Marked port observed r ctx s h
  run_intent-Marked r Intent.answer ctx s h = answer-Marked port observed r ctx s h
  run_intent-Marked r _ ctx s h = cc

  execute-Marked :
      (r : LegRef) (i : Intent) (from : From) (s : Session)
      → marking (leg_at r s).state i ≡ true
      → Marked (PolySession.execute port retries (intent r i from) s).1
  unfolding PolySession.execute catch
  execute-Marked r i from s h =
      let frame = Steady-Frame port observed in
      caught-Marked _ _ (PolySession.on_intent_error r i) (run_intent-Marked r i _ s h)
        (on_intent_error-Follows frame retries r i)

  media-Steady : (up : Bool) → Follows Steady (PolySession.set_media up)
  unfolding modify
  media-Steady up = record { at = λ s q. (q, refl, refl) }

  outside-Steady : (c : Call) → IsOfDrain c → Follows Steady (call port c)
  unfolding call
  outside-Steady c h = record { at = λ s. observed c _ h }

  bridge_media-Steady : (up : Bool) → Follows Steady (PolySession.bridge_media port retries up)
  bridge_media-Steady true = done-Follows (Steady-Frame port observed)
  bridge_media-Steady false =
      then-Follows (Steady-Frame port observed) (outside-Steady media_connect tt)
        (media-Steady true)

  unbridge_media-Steady : (up : Bool) → Follows Steady (PolySession.unbridge_media port retries up)
  unbridge_media-Steady false = done-Follows (Steady-Frame port observed)
  unbridge_media-Steady true =
      let frame = Steady-Frame port observed in
      then-Follows frame (media-Steady false)
        (then-Follows frame (outside-Steady media_disconnect tt) (done-Follows frame))

  pub execute-Steady : (x : Action) → Follows Steady (PolySession.execute port retries x)
  unfolding PolySession.execute PolySession.execute_media
  execute-Steady (intent r i from) = execute-Follows (Steady-Frame port observed) retries r i from
  execute-Steady (media bridge) =
      let frame = Steady-Frame port observed in
      record {
        at =
            λ s. (catch-Follows frame (bridge_media-Steady s.media) (λ e. done-Follows frame)).at s;
      }
  execute-Steady (media unbridge) =
      let frame = Steady-Frame port observed in
      record {
        at = λ s.
            (catch-Follows frame (unbridge_media-Steady s.media) (λ e. done-Follows frame)).at s;
      }

  pub execute_all-Steady :
      (xs : List Action) → Follows Steady (PolySession.execute_all port retries xs)
  unfolding PolySession.execute_all
  execute_all-Steady [] = done-Follows (Steady-Frame port observed)
  execute_all-Steady (x ∷ xs) =
      then-Follows (Steady-Frame port observed) (execute-Steady x) (execute_all-Steady xs)

  marking-Marked :
      (x : Action) (s : Session)
      → marks s.a.state s.b.state x ≡ true
      → Marked (PolySession.execute port retries x s).1
  marking-Marked (intent leg_a i from) s h = execute-Marked leg_a i from s h
  marking-Marked (intent leg_b i from) s h = execute-Marked leg_b i from s h
  marking-Marked (media op) s h = cc

  -- Where a list of actions leaves the session quiet, it ends and answers no call.
  pub execute_all-quiet :
      (xs : List Action) (s : Session)
      → IsQuiet (PolySession.execute_all port retries xs s).1
      → any (marks s.a.state s.b.state) xs ≡ false
  execute_all-quiet [] s q = refl
  execute_all-quiet (x ∷ xs) s q =
      let t = (PolySession.execute port retries x s).1 in
      let q' =
        subst (λ (p : Res (Unit {0}) × Session). IsQuiet p.1) (execute_all-cons port retries x xs s)
          q in
      let mid = ((execute_all-Steady xs).at t q').0 in
      let pre = (execute-Steady x).at s mid in
      let later = execute_all-quiet xs t q' in
      elim (Bool-cases (marks s.a.state s.b.state x)) [
        | inl m ↦ absurd (marking-Marked x s m mid)
        | inr m ↦
            any-cons (marks s.a.state s.b.state) x xs m
              (subst₂ (λ a b. any (marks a b) xs ≡ false) (sym pre.1) (sym pre.2) later)
      ]

  pub execute_all-Returns : (xs : List Action) → Returns (PolySession.execute_all port retries xs)
  execute_all-Returns [] s = unfold PolySession.execute_all in done-Returns s
  execute_all-Returns (x ∷ xs) s =
      ap (λ (p : Res (Unit {0}) × Session). p.0) (execute_all-cons port retries x xs s)
      ∙ execute_all-Returns xs (PolySession.execute port retries x s).1
