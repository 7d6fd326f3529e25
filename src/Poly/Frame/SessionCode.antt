-- ===== src/Poly/Frame/SessionCode.antt =====
-- The legs of both classes, and the intents as a session runs them, for every relation that their
-- steps keep.
use arnacon_webrtc_service.Shared.{ℕ, zero, suc, Bool, if◌then◌else◌}
use arnacon_webrtc_service.Poly.Intents.{Intent}
use arnacon_webrtc_service.Poly.Reconcile.{LegRef, Kind, webrtc, sip, From, intent}
use arnacon_webrtc_service.Poly.World.{
  of_session, of_client, Ctx, EventType, LegEvent, Failure, no_open_dc, Session, Port, leg_at,
  set_state, done, by_self,
}
use arnacon_webrtc_service.Poly.States.{disconnected}
use arnacon_webrtc_service.Poly.SipLeg
use arnacon_webrtc_service.Poly.PolySession
use arnacon_webrtc_service.Poly.Frame.{
  Frame, Follows, parts, catch-Follows, then-Follows, if-Follows,
}
use arnacon_webrtc_service.Poly.Frame.LegCode
use arnacon_webrtc_service.Poly.Frame.LegCode.{handle_ingress-Follows}

module _ {R : Session → Session → Type 0} {port : Port} (frame : Frame of_client port R)
    (retries : ℕ) where
  sip_dispatch-Follows :
      (type : EventType) (r : LegRef) (event : LegEvent)
      → Follows R (SipLeg.sip_dispatch port retries type r event)
  sip_dispatch-Follows EventType.hold r event = search parts
  sip_dispatch-Follows EventType.dtmf r event = search parts
  sip_dispatch-Follows EventType.transport_open r event = search parts
  sip_dispatch-Follows _ r event = handle_ingress-Follows frame r event

  ingress_of-Follows :
      (k : Kind) (r : LegRef) (event : LegEvent)
      → Follows R (SipLeg.ingress_of port retries k r event)
  ingress_of-Follows webrtc r event = handle_ingress-Follows frame r event
  ingress_of-Follows sip r event = sip_dispatch-Follows event.type r event

  pub ingress-Follows :
      (r : LegRef) (event : LegEvent) → Follows R (SipLeg.handle_ingress port retries r event)
  unfolding SipLeg.handle_ingress
  ingress-Follows r event = record { at = λ s. (ingress_of-Follows (leg_at r s).kind r event).at s }

module _ {R : Session → Session → Type 0} {port : Port} (frame : Frame of_session port R)
    (retries : ℕ) where
  attempts-Follows :
      (left : ℕ) (r : LegRef) (ctx : Ctx) → Follows R (SipLeg.attempts port retries left r ctx)
  unfolding SipLeg.attempts
  attempts-Follows zero r ctx = search parts depth 9
  attempts-Follows (suc left) r ctx =
      let again = attempts-Follows left r ctx in
      catch-Follows frame (search parts depth 9) λ e.
        if-Follows (SipLeg.is_pc2_failure e) (then-Follows frame (search parts depth 9) again)
          (search parts depth 9)

  invite-Follows : (r : LegRef) (ctx : Ctx) → Follows R (SipLeg.invite port retries r ctx)
  unfolding SipLeg.invite
  invite-Follows r ctx = search (parts, attempts-Follows) depth 9

  sip_connect-Follows : (r : LegRef) (ctx : Ctx) → Follows R (SipLeg.sip_connect port retries r ctx)
  unfolding SipLeg.sip_connect
  sip_connect-Follows r ctx = search (parts, invite-Follows)

  sip_ring-Follows : (r : LegRef) (ctx : Ctx) → Follows R (SipLeg.sip_ring port retries r ctx)
  unfolding SipLeg.sip_ring
  sip_ring-Follows r ctx = search (parts, invite-Follows)

  connect_of-Follows :
      (k : Kind) (r : LegRef) (ctx : Ctx) → Follows R (SipLeg.connect_of port retries k r ctx)
  connect_of-Follows webrtc r ctx = LegCode.connect-Follows frame r ctx
  connect_of-Follows sip r ctx = sip_connect-Follows r ctx

  ring_of-Follows :
      (k : Kind) (r : LegRef) (ctx : Ctx) → Follows R (SipLeg.ring_of port retries k r ctx)
  ring_of-Follows webrtc r ctx = LegCode.ring-Follows frame r ctx
  ring_of-Follows sip r ctx = sip_ring-Follows r ctx

  pub connect-Follows : (r : LegRef) (ctx : Ctx) → Follows R (SipLeg.connect port retries r ctx)
  unfolding SipLeg.connect
  connect-Follows r ctx = record { at = λ s. (connect_of-Follows (leg_at r s).kind r ctx).at s }

  pub ring-Follows : (r : LegRef) (ctx : Ctx) → Follows R (SipLeg.ring port retries r ctx)
  unfolding SipLeg.ring
  ring-Follows r ctx = record { at = λ s. (ring_of-Follows (leg_at r s).kind r ctx).at s }

  run_intent-Follows :
      (r : LegRef) (i : Intent) (ctx : Ctx)
      → Follows R (PolySession.run_intent port retries r i ctx)
  unfolding PolySession.run_intent
  run_intent-Follows r Intent.connect ctx = connect-Follows r ctx
  run_intent-Follows r Intent.ring ctx = ring-Follows r ctx
  run_intent-Follows r Intent.ack_connected ctx = LegCode.ack_connected-Follows frame r ctx
  run_intent-Follows r Intent.ack_ring ctx = LegCode.ack_ring-Follows frame r ctx
  run_intent-Follows r Intent.answer ctx = LegCode.answer-Follows frame r ctx
  run_intent-Follows r Intent.ack_end ctx = LegCode.ack_end-Follows frame r ctx
  run_intent-Follows r Intent.end_call ctx = LegCode.end_call-Follows frame r ctx
  run_intent-Follows r Intent.cancel ctx = LegCode.cancel-Follows frame r ctx
  run_intent-Follows r Intent.reject ctx = LegCode.reject-Follows frame r ctx

  pub on_intent_error-Follows :
      (r : LegRef) (i : Intent) (e : Failure) → Follows R (PolySession.on_intent_error r i e)
  on_intent_error-Follows r i no_open_dc = search parts depth 7
  on_intent_error-Follows r i _ = search parts depth 7

  pub execute-Follows :
      (r : LegRef) (i : Intent) (from : From)
      → Follows R (PolySession.execute port retries (intent r i from))
  unfolding PolySession.execute
  execute-Follows r i from = record {
    at = λ s.
        (catch-Follows frame (run_intent-Follows r i (PolySession.ctx_for from s))
            (on_intent_error-Follows r i)).at
          s;
  }

  recover_if-Follows :
      (b : Bool) (r : LegRef) → Follows R (if b then set_state r disconnected by_self else done)
  recover_if-Follows b r = search parts

  recover-Follows : (r : LegRef) → Follows R (PolySession.recover port retries r)
  recover-Follows r = record { at = λ s. (recover_if-Follows (PolySession.is_stuck r s) r).at s }

  pub recover_failed_legs-Follows : Follows R (PolySession.recover_failed_legs port retries)
  unfolding PolySession.recover_failed_legs
  recover_failed_legs-Follows = search (parts, recover-Follows)
