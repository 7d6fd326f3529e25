-- ===== src/Poly/PolySession.antt =====
-- modules/calls/poly/PolySession.js: the mediator of two legs.
use arnacon_webrtc_service.Shared.{
  ℕ, zero, suc, Bool, true, false, ◌&&◌, ◌||◌, not, Option, none, some, List, [], ◌∷◌,
  if◌then◌else◌, Text,
}
use arnacon_webrtc_service.Poly.States.{
  LegState, disconnected, in_call, failed, same, is_active_call, is_terminal,
}
use arnacon_webrtc_service.Poly.Intents.{Intent}
use arnacon_webrtc_service.Poly.Reconcile.{
  LegRef, leg_a, leg_b, other, From, self, peer, MediaOp, bridge, unbridge, Action, intent, media,
  Snapshot, Trigger, reconcile,
}
use arnacon_webrtc_service.Poly.World.{
  LegEvent, Change, Ctx, of_session, NegOp, Call, negotiate, media_connect, media_disconnect,
  call_started, call_ended, teardown_hook, Failure, no_open_dc, ActiveCall, Session, ok, M, then_do,
  ◌>>=◌, ◌>>◌, done, catch, modify, leg_at, state_at, Port, call, by_self, set_state, EventType,
  steps,
}
use arnacon_webrtc_service.Poly.CallIdentity.{normalize_call_id, mark_active_call}
use arnacon_webrtc_service.Poly.SessionLeg
use arnacon_webrtc_service.Poly.SessionLeg.Ingress
use arnacon_webrtc_service.Poly.SipLeg

abbrev pub max_reconcile_passes : ℕ
max_reconcile_passes = 50

-- FAIL_ON_ERROR_INTENTS.
abbrev pub fails_on_error : Intent → Bool
fails_on_error Intent.ring = true
fails_on_error Intent.connect = true
fails_on_error Intent.answer = true
fails_on_error Intent.ack_connected = true
fails_on_error Intent.ack_ring = true
fails_on_error _ = false

abbrev pub snapshot : Session → Snapshot
snapshot s = record {
  a = record { state = s.a.state; kind = s.a.kind };
  b = record { state = s.b.state; kind = s.b.kind };
  media_connected = s.media;
}

abbrev pub trigger : Option Change → Trigger
trigger none = none
trigger (some change) = some change.state

abbrev endpoint_of : From → Session → Option Text
endpoint_of self s = none
endpoint_of (peer r) s = some (leg_at r s).endpoint

abbrev active_call_id : Option ActiveCall → Option ℕ
active_call_id none = none
active_call_id (some active) = some active.call_id

abbrev pub ctx_for : From → Session → Ctx
ctx_for from s = record { from = endpoint_of from s; call_id = active_call_id s.active_call }

-- The `catch` of `_execute`: transport loss sends the leg back to disconnected, a failed attempt to
-- reach the peer fails the leg.
abbrev pub leave : LegRef → LegState → LegState → M (Unit {0})
leave r next state = if same state next then done else set_state r next by_self

abbrev pub on_intent_error : LegRef → Intent → Failure → M (Unit {0})
on_intent_error r i no_open_dc = do state ← state_at r; leave r disconnected state
on_intent_error r i _ = do
  state ← state_at r
  if fails_on_error i then leave r failed state else done

abbrev pub is_stuck : LegRef → Session → Bool
is_stuck r s = same (leg_at r s).state failed && not (is_active_call (leg_at (other r) s).state)

abbrev pub set_media : Bool → M (Unit {0})
set_media up = modify λ s. record s { media = up }

abbrev pub both_in_call : Session → Bool
both_in_call s = same s.a.state in_call && same s.b.state in_call

abbrev pub same_bool : Bool → Bool → Bool
same_bool true b = b
same_bool false b = not b

abbrev pub hook_for : Bool → Call
hook_for true = call_started
hook_for false = call_ended

abbrev pub or_text : Option Text → Text → Option Text
or_text none t = some t
or_text (some []) t = some t
or_text (some (c ∷ u)) t = some (c ∷ u)

abbrev pub own : Option ℕ → LegRef → LegEvent → Session → Session
own (some n) r event s =
    mark_active_call (or_text event.payload.from (leg_at r s).endpoint) event.payload.call_id s
own none r event s = record s { active_call = none }

abbrev pub own_call : EventType → LegRef → LegEvent → Session → Session
own_call EventType.offer r event s = own (normalize_call_id event.payload.call_id) r event s
own_call _ r event s = s

abbrev pub no_ctx : Ctx
no_ctx = record { from = none; call_id = none }

module _ (port : Port) (retries : ℕ) where
  -- The `switch` of `_execute`.
  unfoldable pub run_intent : LegRef → Intent → Ctx → M (Unit {0})
  run_intent r Intent.ring ctx = SipLeg.ring port retries r ctx
  run_intent r Intent.ack_connected ctx = SessionLeg.ack_connected port r ctx
  run_intent r Intent.ack_ring ctx = SessionLeg.ack_ring port r ctx
  run_intent r Intent.answer ctx = SessionLeg.answer port r ctx
  run_intent r Intent.ack_end ctx = SessionLeg.ack_end port r ctx
  run_intent r Intent.end_call ctx = SessionLeg.end_call port r ctx
  run_intent r Intent.cancel ctx = SessionLeg.cancel port r ctx
  run_intent r Intent.reject ctx = SessionLeg.reject port r ctx
  run_intent r Intent.connect ctx = SipLeg.connect port retries r ctx

  abbrev pub bridge_media : Bool → M (Unit {0})
  bridge_media true = done
  bridge_media false = do call port media_connect; set_media true

  abbrev pub unbridge_media : Bool → M (Unit {0})
  unbridge_media true = do set_media false; call port media_disconnect; done
  unbridge_media false = done

  -- `_executeMedia`, its errors caught and logged.
  unfoldable pub execute_media : MediaOp → M (Unit {0})
  execute_media bridge s = catch (bridge_media s.media) (λ e. done) s
  execute_media unbridge s = catch (unbridge_media s.media) (λ e. done) s

  -- `_execute`.
  unfoldable pub execute : Action → M (Unit {0})
  execute (intent r i from) s = catch (run_intent r i (ctx_for from s)) (on_intent_error r i) s
  execute (media op) s = execute_media op s

  unfoldable pub execute_all : List Action → M (Unit {0})
  execute_all [] = done
  execute_all (x ∷ xs) = do execute x; execute_all xs

  abbrev pub recover : LegRef → M (Unit {0})
  recover r s = (if is_stuck r s then set_state r disconnected by_self else done) s

  -- `_recoverFailedLegs`.
  unfoldable pub recover_failed_legs : M (Unit {0})
  recover_failed_legs = do recover leg_a; recover leg_b

  -- The body of the loop of `_drain`.
  unfoldable pub pass : M (Unit {0})
  pass s =
      (do
        modify (λ t. record t { dirty = false })
        execute_all (reconcile (snapshot s) (trigger s.last_event))
        recover_failed_legs)
        s

  -- The loop, with `left` passes before "reconcile did not converge".
  unfoldable pub drain_loop : ℕ → M (Unit {0})
  drain_loop zero s =
      if s.dirty then (ok tt, record s { dirty = false; diverged = true }) else (ok tt, s)
  drain_loop (suc left) s =
      let next = then_do (pass s) (λ _. drain_loop left) in if s.dirty then next else (ok tt, s)

  -- `_settleCallActivity`; a hook that is not set is one that does nothing.
  unfoldable pub settle_call_activity : M (Unit {0})
  settle_call_activity s =
      if same_bool (both_in_call s) s.call_active
      then (ok tt, s)
      else catch (do call port (hook_for (both_in_call s)); done) (λ e. done)
          (record s { call_active = both_in_call s })

  -- `_drain`.
  unfoldable pub drain : M (Unit {0})
  drain s =
      if s.running
      then (ok tt, s)
      else (do
        modify (λ t. record t { running = true })
        drain_loop max_reconcile_passes
        settle_call_activity
        modify (λ t. record t { running = false }))
          s

  unfoldable pub drains : ℕ → M (Unit {0})
  drains zero = done
  drains (suc n) = do drain; drains n

  -- `_settle`: the drains that the chain still holds, and one more for a session left dirty.
  unfoldable pub settle : M (Unit {0})
  settle s =
      drains (if s.dirty && not s.running then suc s.queued else s.queued) (record s { queued = 0 })

  -- `onIngress`, for a leg of the session.
  unfoldable pub on_ingress : LegRef → LegEvent → M (Unit {0})
  on_ingress r event = do
    modify (own_call event.type r event)
    SipLeg.handle_ingress port retries r event
    settle

  abbrev teardown_hooks : List ℕ → M (Unit {0})
  teardown_hooks [] = done
  teardown_hooks (hook ∷ hooks) = do
    catch (do call port (teardown_hook hook); done) (λ e. done)
    teardown_hooks hooks

  -- `_runTeardownHooks`.
  unfoldable pub run_teardown_hooks : M (Unit {0})
  run_teardown_hooks s =
      if s.teardown_ran
      then (ok tt, s)
      else teardown_hooks s.teardown_hooks (record s { teardown_ran = true; teardown_hooks = [] })

  abbrev dispose_leg : LegRef → M (Unit {0})
  dispose_leg r =
      catch (do call port (negotiate r NegOp.dispose (of_session no_ctx)); done) (λ e. done)

  abbrev drop_media : Bool → M (Unit {0})
  drop_media false = done
  drop_media true = do catch (do call port media_disconnect; done) (λ e. done); set_media false

  -- `dispose`.
  unfoldable pub dispose : M (Unit {0})
  dispose s =
      if s.disposed
      then (ok tt, s)
      else (do
        modify (λ t. record t { disposed = true; subscribed = false })
        drop_media s.media
        run_teardown_hooks
        dispose_leg leg_a
        dispose_leg leg_b)
          s

  -- `endCallSafely` of `rotate`.
  abbrev end_call_safely : LegRef → M (Unit {0})
  end_call_safely r = do
    state ← state_at r
    if same state disconnected || is_terminal state
        then done
        else catch (SessionLeg.end_call port r no_ctx) (λ e. done)

  -- `rotate`.
  unfoldable pub rotate : M (Unit {0})
  rotate s =
      if s.disposed
      then (ok tt, s)
      else (do
        end_call_safely leg_a
        end_call_safely leg_b
        catch settle (λ e. done)
        modify (λ t. record t { active_call = none })
        dispose)
          s

  -- The session after the clients' messages, one `onIngress` after another; what one throws goes to
  -- its caller, and the next is handled all the same.
  unfoldable pub after_messages : List (LegRef × LegEvent) → Session → Session
  after_messages [] s = s
  after_messages ((r, event) ∷ rest) s = after_messages rest (on_ingress r event s).1

-- Unfolds with all that a message runs.
unfoldable pub runs : Unit {0}
unfolding SessionLeg.connect SessionLeg.ring SessionLeg.ack_connected SessionLeg.ack_ring
    SessionLeg.answer SessionLeg.ack_end SessionLeg.end_call SessionLeg.cancel SessionLeg.reject
    SessionLeg.set_pending Ingress.on_transport_open Ingress.on_transport_close Ingress.on_offer
    Ingress.on_answer Ingress.on_end Ingress.on_remote_bye Ingress.on_cancel Ingress.on_reject
    Ingress.handle_ingress SipLeg.attempts SipLeg.invite SipLeg.sip_connect SipLeg.sip_ring
    SipLeg.connect SipLeg.ring SipLeg.handle_ingress run_intent execute_media execute execute_all
    recover_failed_legs pass drain_loop settle_call_activity drain drains settle on_ingress
    after_messages mark_active_call reconcile steps
runs = tt
