-- ===== src/Poly/Settled/Drains.antt =====
-- Drains.
use mathlib.Core.Path.{subst}
use arnacon_webrtc_service.Shared.{ℕ, Bool, false, zero, suc, true, ◌≡◌, sym, ◌∙◌, if-cases}
use arnacon_webrtc_service.Poly.States.{call_viable}
use arnacon_webrtc_service.Poly.World.{
  IsOfDrain, of_session, Call, Session, Res, ok, thrown, M, then_do, ◌>>=◌, ◌>>◌, done, catch,
  modify, Port, call,
}
use arnacon_webrtc_service.Poly.PolySession
use arnacon_webrtc_service.Poly.Frame.{Frame, Follows, catch-Follows, then-Follows, done-Follows}
use arnacon_webrtc_service.Poly.Steady.{IsQuiet, true≢false, Steady, IsObserved, Steady-Frame}
use arnacon_webrtc_service.Poly.Unbridged.{Unbridged, IsUnbridged, Unbridged-Frame}
use arnacon_webrtc_service.Poly.Settled.{IsCoherent, IsSafe, IsSound}
use arnacon_webrtc_service.Poly.Settled.Passes.{pass-IsCoherent}

pub Steady-IsCoherent :
    (s t : Session)
    → Steady s t
    → Unbridged s t
    → IsQuiet t
    → (IsQuiet s → IsCoherent s)
    → IsCoherent t
Steady-IsCoherent s t steady down q h =
    let k = steady q in
    let coherent = h k.0 in
    (
      λ e. subst (λ st. call_viable st ≡ true) k.2 (coherent.0 (k.1 ∙ e)),
      λ e. subst (λ st. call_viable st ≡ true) k.1 (coherent.1 (k.2 ∙ e)),
      λ up. let both = coherent.2 (down up) in (sym k.1 ∙ both.0, sym k.2 ∙ both.1),
    )

Steady-IsSafe : (s t : Session) → Steady s t → Unbridged s t → IsSafe s → IsSafe t
Steady-IsSafe s t steady down h q = Steady-IsCoherent s t steady down q h

module _ (port : Port) (observed : IsObserved port) (unbridged : IsUnbridged port)
    (retries : ℕ) where
  then_do-IsSafe :
      {A B : Type 0} (r : Res A) (t : Session) (f : A → M B)
      → IsSafe t
      → ((a : A) → IsSafe t → IsSafe (f a t).1)
      → IsSafe (then_do (r, t) f).1
  unfolding then_do
  then_do-IsSafe (ok a) t f h k = k a h
  then_do-IsSafe (thrown e) t f h k = h

  pub drain_loop-IsSafe :
      (left : ℕ) (s : Session) → IsSafe s → IsSafe (PolySession.drain_loop port retries left s).1
  unfolding PolySession.drain_loop
  drain_loop-IsSafe zero s h =
      if-cases (λ (p : Res (Unit {0}) × Session). IsSafe p.1) s.dirty _ _
        (λ _ q. absurd (true≢false q.2)) (λ _. h)
  drain_loop-IsSafe (suc left) s h =
      if-cases (λ (p : Res (Unit {0}) × Session). IsSafe p.1) s.dirty _ (ok tt, s)
        (λ _.
          then_do-IsSafe _ (PolySession.pass port retries s).1 _
            (pass-IsCoherent port observed unbridged retries s)
            (λ _. drain_loop-IsSafe left (PolySession.pass port retries s).1))
        (λ _. h)

  hook-IsOfDrain : (b : Bool) → IsOfDrain (PolySession.hook_for b)
  hook-IsOfDrain true = tt
  hook-IsOfDrain false = tt

  hook-Follows :
      (R : Session → Session → Type 0) (c : Call)
      → Frame of_session port R
      → ((s : Session) → R s (call port c s).1)
      → Follows R (catch (do call port c; done) (λ e. done))
  hook-Follows R c frame h =
      catch-Follows frame (then-Follows frame (record { at = h }) (done-Follows frame))
        (λ e. done-Follows frame)

  settle_call_activity-IsSafe :
      (s : Session) → IsSafe s → IsSafe (PolySession.settle_call_activity port retries s).1
  unfolding PolySession.settle_call_activity
  settle_call_activity-IsSafe s h =
      let in_calls = PolySession.both_in_call s in
      let s' = record s { call_active = in_calls } in
      let c = PolySession.hook_for in_calls in
      let u = (catch (do call port c; done) (λ e. done) s').1 in
      let steady =
        hook-Follows Steady c (Steady-Frame port observed)
          (λ t. unfold call in observed c _ (hook-IsOfDrain in_calls)) in
      let down =
        hook-Follows Unbridged c (Unbridged-Frame port unbridged)
          (λ t. unfold call in unbridged c _ (hook-IsOfDrain in_calls)) in
      if-cases (λ (p : Res (Unit {0}) × Session). IsSafe p.1)
        (PolySession.same_bool in_calls s.call_active) (ok tt, s) _ (λ _. h)
        (λ _. Steady-IsSafe s' u (steady.at s') (down.at s') h)

  -- Whatever runs while it waits, a drain that starts from a sound session ends in one: once it has
  -- come to rest, nobody is in a call alone and no media are up without a whole call.
  pub drain-IsSound : (s : Session) → IsSound s → IsSound (PolySession.drain port retries s).1
  unfolding PolySession.drain ◌>>◌ ◌>>=◌ modify
  drain-IsSound s h =
      let s' = record s { running = true } in
      let t = (PolySession.drain_loop port retries 50 s').1 in
      if-cases (λ (p : Res (Unit {0}) × Session). IsSound p.1) s.running (ok tt, s) _ (λ _. h)
        (λ off rest.
          then_do-IsSafe _ s' _ (λ q. h (off, q))
            (λ _ start. then_do-IsSafe _ t _ (drain_loop-IsSafe 50 s' start) (λ _ safe.
              then_do-IsSafe _ (PolySession.settle_call_activity port retries t).1 _
                (settle_call_activity-IsSafe t safe) (λ _ safe'. safe')))
            rest.1)
