-- ===== src/Poly/Hooks/Drains.antt =====
-- modules/calls/poly/PolySession.js: the drains and the messages, and the hooks that bracket a call.
use mathlib.Core.Path.{subst}
use mathlib.Core.Bool.{false≢true}
use arnacon_webrtc_service.Shared.{
  ℕ, zero, suc, Bool, true, false, ◌≡◌, refl, sym, ap, ◌∙◌, Option, none, some, List, [], ◌∷◌, ◌++◌,
  if-cases, Text,
}
use arnacon_webrtc_service.Poly.Reconcile.{
  LegRef, bridge, unbridge, Action, intent, media, reconcile,
}
use arnacon_webrtc_service.Poly.World.{
  LegEvent, EventType, Session, Res, Reply, ok, thrown, then_do, caught, ◌>>=◌, ◌>>◌, done, catch,
  Port, call,
}
use arnacon_webrtc_service.Poly.CallIdentity
use arnacon_webrtc_service.Poly.PolySession
use arnacon_webrtc_service.Poly.Frame.{
  Follows, bind-Follows, then-Follows, catch-Follows, done-Follows,
}
use arnacon_webrtc_service.Poly.Frame.SessionCode.{
  execute-Follows, ingress-Follows, recover_failed_legs-Follows,
}
use arnacon_webrtc_service.Poly.Hooks.{
  count_step, counting-append, IsBracketed, IsHookless, Keeps, Keeps-Frame, Keeps-ClientFrame,
  modify-Keeps, connect-Keeps, disconnect-Keeps,
}

module _ (port : Port) (hookless : IsHookless port) (retries : ℕ) where
  bridge_media-Keeps : (up : Bool) → Follows Keeps (PolySession.bridge_media port retries up)
  bridge_media-Keeps true = done-Follows (Keeps-Frame port hookless)
  bridge_media-Keeps false =
      then-Follows (Keeps-Frame port hookless) (connect-Keeps port hookless)
        (modify-Keeps port hookless (λ s. record s { media = true }) (λ s h. h))

  unbridge_media-Keeps : (up : Bool) → Follows Keeps (PolySession.unbridge_media port retries up)
  unbridge_media-Keeps false = done-Follows (Keeps-Frame port hookless)
  unbridge_media-Keeps true =
      let frame = Keeps-Frame port hookless in
      then-Follows frame (modify-Keeps port hookless (λ s. record s { media = false }) (λ s h. h))
        (then-Follows frame (disconnect-Keeps port hookless) (done-Follows frame))

  execute-Keeps : (x : Action) → Follows Keeps (PolySession.execute port retries x)
  unfolding PolySession.execute PolySession.execute_media
  execute-Keeps (intent r i from) = execute-Follows (Keeps-Frame port hookless) retries r i from
  execute-Keeps (media bridge) = record {
    at = λ s.
        (catch-Follows (Keeps-Frame port hookless) (bridge_media-Keeps s.media)
            (λ e. done-Follows (Keeps-Frame port hookless))).at
          s;
  }
  execute-Keeps (media unbridge) = record {
    at = λ s.
        (catch-Follows (Keeps-Frame port hookless) (unbridge_media-Keeps s.media)
            (λ e. done-Follows (Keeps-Frame port hookless))).at
          s;
  }

  execute_all-Keeps : (xs : List Action) → Follows Keeps (PolySession.execute_all port retries xs)
  unfolding PolySession.execute_all
  execute_all-Keeps [] = done-Follows (Keeps-Frame port hookless)
  execute_all-Keeps (x ∷ xs) =
      then-Follows (Keeps-Frame port hookless) (execute-Keeps x) (execute_all-Keeps xs)

  pass-Keeps : Follows Keeps (PolySession.pass port retries)
  unfolding PolySession.pass
  pass-Keeps =
      let frame = Keeps-Frame port hookless in
      record {
        at = λ s.
            (then-Follows frame
                (modify-Keeps port hookless (λ t. record t { dirty = false }) (λ t h. h))
                (then-Follows frame
                  (execute_all-Keeps
                    (reconcile (PolySession.snapshot s) (PolySession.trigger s.last_event)))
                  (recover_failed_legs-Follows frame retries))).at
              s;
      }

  drain_loop-Keeps : (left : ℕ) → Follows Keeps (PolySession.drain_loop port retries left)
  unfolding PolySession.drain_loop ◌>>=◌
  drain_loop-Keeps zero = record {
    at = λ s.
        if-cases (λ (p : Res (Unit {0}) × Session). Keeps s p.1) s.dirty _ _ (λ _ h. h) (λ _ h. h);
  }
  drain_loop-Keeps (suc left) = record {
    at = λ s.
        if-cases (λ (p : Res (Unit {0}) × Session). Keeps s p.1) s.dirty _ (ok tt, s)
          (λ _.
            (bind-Follows (Keeps-Frame port hookless) pass-Keeps (λ _. drain_loop-Keeps left)).at s)
          (λ _ h. h);
  }

  after_hook :
      (r : Res Reply) (t : Session) → (caught (then_do (r, t) (λ _. done)) (λ e. done)).1 ≡ t
  unfolding caught then_do done
  after_hook (ok reply) t = refl
  after_hook (thrown e) t = refl

  edge :
      (now before : Bool)
      → PolySession.same_bool now before ≡ false
      → count_step (some before) (PolySession.hook_for now) ≡ some now
  edge true false h = refl
  edge false true h = refl
  edge true true h = absurd (false≢true (sym h))
  edge false false h = absurd (false≢true (sym h))

  settle_call_activity-Keeps : Follows Keeps (PolySession.settle_call_activity port retries)
  unfolding PolySession.settle_call_activity catch ◌>>=◌ ◌>>◌ call
  settle_call_activity-Keeps = record {
    at = λ s.
        let now = PolySession.both_in_call s in
        let c = PolySession.hook_for now in
        let s' = record s { call_active = now; log = s.log ++ c ∷ [] } in
        if-cases (λ (p : Res (Unit {0}) × Session). Keeps s p.1)
          (PolySession.same_bool now s.call_active) (ok tt, s) _ (λ _ h. h)
          (λ moves h. subst IsBracketed (sym (after_hook (port c s').0 (port c s').1)) (
            hookless c s' (
              counting-append (some false) s.log c
              ∙ ap (λ o. count_step o c) h
              ∙ edge now s.call_active moves)));
  }

  drain-Keeps : Follows Keeps (PolySession.drain port retries)
  unfolding PolySession.drain
  drain-Keeps =
      let frame = Keeps-Frame port hookless in
      record {
        at = λ s.
            if-cases (λ (p : Res (Unit {0}) × Session). Keeps s p.1) s.running (ok tt, s) _
              (λ _ h. h)
              (λ _.
                (then-Follows frame
                    (modify-Keeps port hookless (λ t. record t { running = true }) (λ t h. h))
                    (then-Follows frame (drain_loop-Keeps 50) (
                      then-Follows frame settle_call_activity-Keeps (
                        modify-Keeps port hookless (λ t. record t { running = false })
                          (λ t h. h))))).at
                  s);
      }

  drains-Keeps : (n : ℕ) → Follows Keeps (PolySession.drains port retries n)
  unfolding PolySession.drains
  drains-Keeps zero = done-Follows (Keeps-Frame port hookless)
  drains-Keeps (suc n) = then-Follows (Keeps-Frame port hookless) drain-Keeps (drains-Keeps n)

  settle-Keeps : Follows Keeps (PolySession.settle port retries)
  unfolding PolySession.settle
  settle-Keeps = record { at = λ s h. (drains-Keeps _).at (record s { queued = 0 }) h }

  mark-Keeps :
      (from : Option Text) (id : Option ℕ) (s : Session) → Keeps s (CallIdentity.mark from id s)
  mark-Keeps (some from) (some id) s h = h
  mark-Keeps none id s h = h
  mark-Keeps (some from) none s h = h

  own-Keeps :
      (r : LegRef) (event : LegEvent) (n : Option ℕ) (s : Session)
      → Keeps s (PolySession.own n r event s)
  unfolding CallIdentity.mark_active_call
  own-Keeps r event none s h = h
  own-Keeps r event (some n) s h = mark-Keeps _ _ s h

  own_call-Keeps :
      (type : EventType) (r : LegRef) (event : LegEvent) (s : Session)
      → Keeps s (PolySession.own_call type r event s)
  own_call-Keeps EventType.offer r event s h = own-Keeps r event _ s h
  own_call-Keeps _ r event s h = h

  on_ingress-Keeps :
      (r : LegRef) (event : LegEvent) → Follows Keeps (PolySession.on_ingress port retries r event)
  unfolding PolySession.on_ingress
  on_ingress-Keeps r event =
      let frame = Keeps-Frame port hookless in
      then-Follows frame
        (modify-Keeps port hookless (PolySession.own_call event.type r event)
          (own_call-Keeps event.type r event))
        (then-Follows frame (ingress-Follows (Keeps-ClientFrame port hookless) retries r event)
          settle-Keeps)

  -- Whatever messages the two clients send, and whatever the ports reply, throw or let run, so long as
  -- nothing but a drain runs the two hooks of a call: if they have run in turn up to now, they have
  -- run in turn after the messages, each start before its end, and the last was a start exactly when
  -- the session holds its call to be active.
  pub after_messages-IsBracketed :
      (messages : List (LegRef × LegEvent)) (s : Session)
      → IsBracketed s
      → IsBracketed (PolySession.after_messages port retries messages s)
  unfolding PolySession.after_messages
  after_messages-IsBracketed [] s h = h
  after_messages-IsBracketed ((r, event) ∷ rest) s h =
      after_messages-IsBracketed rest _ ((on_ingress-Keeps r event).at s h)
