-- ===== src/Poly/Settled/Passes.antt =====
-- One pass of `_drain` that leaves the session quiet.
use mathlib.Core.Path.{subst}
use arnacon_webrtc_service.Shared.{
  ℕ, true, false, ◌≡◌, refl, sym, ap, ◌∙◌, List, [], ◌∷◌, Bool-cases, inl, inr,
}
use arnacon_webrtc_service.Poly.States.{in_call, call_viable}
use arnacon_webrtc_service.Poly.Reconcile.{
  bridge, unbridge, Action, intent, media, rules, reconcile,
}
use arnacon_webrtc_service.Poly.Reconcile.Issues.{moves}
use arnacon_webrtc_service.Poly.World.{
  Session, Res, ok, thrown, M, then_do, ◌>>=◌, ◌>>◌, modify, Port,
}
use arnacon_webrtc_service.Poly.PolySession
use arnacon_webrtc_service.Poly.Frame.SessionCode.{recover_failed_legs-Follows}
use arnacon_webrtc_service.Poly.Steady.{IsQuiet, true≢false, IsObserved, Steady-Frame}
use arnacon_webrtc_service.Poly.Steady.Actions.{
  execute_all-Steady, execute_all-quiet, execute_all-Returns, execute_all-cons,
}
use arnacon_webrtc_service.Poly.Unbridged.{
  IsUnbridged, Unbridged-Frame, unbridge_lem, execute_all-Unbridged,
}
use arnacon_webrtc_service.Poly.Settled.{
  IsCoherent, both_in_call, begins_unbridge, coherent_pass, calm_a, calm_b, calm_bridge, calm_pass,
  begins, both→eq, not-true,
}

module _ (port : Port) (observed : IsObserved port) (unbridged : IsUnbridged port)
    (retries : ℕ) where
  abbrev pub actions : Session → List Action
  actions s = reconcile (PolySession.snapshot s) (PolySession.trigger s.last_event)

  abbrev pub after_actions : Session → Session
  after_actions s =
      (PolySession.execute_all port retries (actions s) (record s { dirty = false })).1

  then_ok :
      (r : Res (Unit {0})) (s : Session) (n : M (Unit {0}))
      → r ≡ ok tt
      → then_do (r, s) (λ _. n) ≡ n s
  unfolding then_do
  then_ok (ok a) s n e = refl
  then_ok (thrown f) s n e = cc

  pass_lem :
      (s : Session)
      → PolySession.pass port retries s
        ≡ PolySession.recover_failed_legs port retries (after_actions s)
  unfolding PolySession.pass ◌>>◌ ◌>>=◌ modify then_do
  pass_lem s =
      then_ok _ (after_actions s) _
        (execute_all-Returns port observed retries (actions s) (record s { dirty = false }))

  begins_unbridge-down :
      (xs : List Action) (s : Session)
      → begins_unbridge xs ≡ true
      → (PolySession.execute_all port retries xs s).1.media ≡ true
      → ⊥
  begins_unbridge-down (media unbridge ∷ xs) s h up = unbridge_lem port unbridged retries s (
      (execute_all-Unbridged port unbridged retries xs (not-true _ h)).at _ (
        subst (λ (p : Res (Unit {0}) × Session). p.1.media ≡ true)
          (execute_all-cons port retries (media unbridge) xs s) up))
  begins_unbridge-down (media bridge ∷ xs) s h up = absurd (true≢false (sym h))
  begins_unbridge-down (intent r i from ∷ xs) s h up = absurd (true≢false (sym h))
  begins_unbridge-down [] s h up = absurd (true≢false (sym h))

  actions_media :
      (s : Session)
      → coherent_pass s.a.state s.b.state s.media (actions s) ≡ true
      → (after_actions s).media ≡ true
      → (s.a.state ≡ in_call) × (s.b.state ≡ in_call)
  unfolding reconcile
  actions_media s h up =
      let xs = actions s in
      let s0 = record s { dirty = false } in
      elim (Bool-cases (moves bridge xs)) [
        | inl e ↦ calm_bridge s.a.state s.b.state s.media xs h e
        | inr e ↦ elim (Bool-cases (both_in_call s.a.state s.b.state)) [
          | inl whole ↦ both→eq s.a.state s.b.state whole
          | inr part ↦
              let was_up = (execute_all-Unbridged port unbridged retries xs e).at s0 up in
              absurd (
                begins_unbridge-down xs s0
                  (subst
                    (λ m.
                      begins_unbridge
                        (rules s.a.state s.b.state m (PolySession.trigger s.last_event))
                      ≡ true)
                    (sym was_up)
                    (begins s.a.state s.b.state (PolySession.trigger s.last_event) part))
                  up)
        ]
      ]

  -- A pass that leaves the session quiet leaves it coherent.
  pub pass-IsCoherent :
      (s : Session)
      → IsQuiet (PolySession.pass port retries s).1
      → IsCoherent (PolySession.pass port retries s).1
  unfolding reconcile
  pass-IsCoherent s q =
      let u = after_actions s in
      let e = ap (λ (p : Res (Unit {0}) × Session). p.1) (pass_lem s) in
      let q' = subst IsQuiet e q in
      let healed = recover_failed_legs-Follows (Steady-Frame port observed) retries in
      let mid = healed.at u q' in
      let pre =
        (execute_all-Steady port observed retries (actions s)).at (record s { dirty = false })
          mid.0 in
      let calm =
        calm_pass s.a.state s.b.state s.media (PolySession.trigger s.last_event) (
          execute_all-quiet port observed retries (actions s) (record s { dirty = false }) mid.0) in
      let ea = pre.1 ∙ mid.1 in
      let eb = pre.2 ∙ mid.2 in
      subst IsCoherent (sym e) (
        λ h.
            subst (λ st. call_viable st ≡ true) eb
              (calm_a s.a.state s.b.state s.media (actions s) calm (ea ∙ h)),
        λ h.
            subst (λ st. call_viable st ≡ true) ea
              (calm_b s.a.state s.b.state s.media (actions s) calm (eb ∙ h)),
        λ up.
            let both =
              actions_media s calm
                ((recover_failed_legs-Follows (Unbridged-Frame port unbridged) retries).at u up) in
            (sym ea ∙ both.0, sym eb ∙ both.1),
      )
