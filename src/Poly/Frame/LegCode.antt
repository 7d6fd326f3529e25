-- ===== src/Poly/Frame/LegCode.antt =====
-- The intents of a leg and its client's messages, for every relation that their steps keep.

use arnacon_webrtc_service.Poly.Reconcile.{LegRef}
use arnacon_webrtc_service.Poly.World.{
  of_session, of_client, Ctx, EventType, LegEvent, Session, Port,
}
use arnacon_webrtc_service.Poly.SessionLeg
use arnacon_webrtc_service.Poly.SessionLeg.Ingress
use arnacon_webrtc_service.Poly.Frame.{Frame, Follows, parts}

module _ {R : Session → Session → Type 0} {port : Port} (frame : Frame of_session port R) where
  pub connect-Follows : (r : LegRef) (ctx : Ctx) → Follows R (SessionLeg.connect port r ctx)
  unfolding SessionLeg.connect
  connect-Follows r ctx = search parts depth 9

  pub ring-Follows : (r : LegRef) (ctx : Ctx) → Follows R (SessionLeg.ring port r ctx)
  unfolding SessionLeg.ring
  ring-Follows r ctx = search parts depth 9

  pub ack_connected-Follows :
      (r : LegRef) (ctx : Ctx) → Follows R (SessionLeg.ack_connected port r ctx)
  unfolding SessionLeg.ack_connected
  ack_connected-Follows r ctx = search parts depth 9

  pub ack_ring-Follows : (r : LegRef) (ctx : Ctx) → Follows R (SessionLeg.ack_ring port r ctx)
  unfolding SessionLeg.ack_ring
  ack_ring-Follows r ctx = search parts depth 9

  pub answer-Follows : (r : LegRef) (ctx : Ctx) → Follows R (SessionLeg.answer port r ctx)
  unfolding SessionLeg.answer
  answer-Follows r ctx = search parts depth 9

  pub ack_end-Follows : (r : LegRef) (ctx : Ctx) → Follows R (SessionLeg.ack_end port r ctx)
  unfolding SessionLeg.ack_end
  ack_end-Follows r ctx = search parts depth 9

  pub end_call-Follows : (r : LegRef) (ctx : Ctx) → Follows R (SessionLeg.end_call port r ctx)
  unfolding SessionLeg.end_call
  end_call-Follows r ctx = search parts depth 9

  pub cancel-Follows : (r : LegRef) (ctx : Ctx) → Follows R (SessionLeg.cancel port r ctx)
  unfolding SessionLeg.cancel
  cancel-Follows r ctx = search parts depth 9

  pub reject-Follows : (r : LegRef) (ctx : Ctx) → Follows R (SessionLeg.reject port r ctx)
  unfolding SessionLeg.reject
  reject-Follows r ctx = search parts depth 9

module _ {R : Session → Session → Type 0} {port : Port} (frame : Frame of_client port R) where
  on_transport_open-Follows : (r : LegRef) → Follows R (Ingress.on_transport_open port r)
  unfolding Ingress.on_transport_open
  on_transport_open-Follows r = search parts depth 9

  on_transport_close-Follows : (r : LegRef) → Follows R (Ingress.on_transport_close port r)
  unfolding Ingress.on_transport_close
  on_transport_close-Follows r = search parts depth 9

  on_offer-Follows : (r : LegRef) (event : LegEvent) → Follows R (Ingress.on_offer port r event)
  unfolding Ingress.on_offer
  on_offer-Follows r event = search parts depth 11

  on_answer-Follows : (r : LegRef) (event : LegEvent) → Follows R (Ingress.on_answer port r event)
  unfolding Ingress.on_answer
  on_answer-Follows r event = search parts depth 11

  on_end-Follows : (r : LegRef) (event : LegEvent) → Follows R (Ingress.on_end port r event)
  unfolding Ingress.on_end
  on_end-Follows r event = search parts depth 11

  on_remote_bye-Follows :
      (r : LegRef) (event : LegEvent) → Follows R (Ingress.on_remote_bye port r event)
  unfolding Ingress.on_remote_bye
  on_remote_bye-Follows r event = search parts depth 11

  on_cancel-Follows : (r : LegRef) (event : LegEvent) → Follows R (Ingress.on_cancel port r event)
  unfolding Ingress.on_cancel
  on_cancel-Follows r event = search parts depth 11

  on_reject-Follows : (r : LegRef) (event : LegEvent) → Follows R (Ingress.on_reject port r event)
  unfolding Ingress.on_reject
  on_reject-Follows r event = search parts depth 11

  ruleset handlers = (
    on_transport_open-Follows, on_transport_close-Follows, on_offer-Follows, on_answer-Follows,
    on_end-Follows, on_remote_bye-Follows, on_cancel-Follows, on_reject-Follows,
  )

  dispatch-Follows :
      (type : EventType) (r : LegRef) (event : LegEvent)
      → Follows R (Ingress.dispatch port type r event)
  dispatch-Follows EventType.transport_open r event = on_transport_open-Follows r
  dispatch-Follows EventType.transport_close r event = on_transport_close-Follows r
  dispatch-Follows EventType.offer r event = on_offer-Follows r event
  dispatch-Follows EventType.answer r event = on_answer-Follows r event
  dispatch-Follows EventType.end r event = on_end-Follows r event
  dispatch-Follows EventType.end_renegotiation r event = on_end-Follows r event
  dispatch-Follows EventType.remote_bye r event = on_remote_bye-Follows r event
  dispatch-Follows EventType.cancel r event = on_cancel-Follows r event
  dispatch-Follows EventType.reject r event = on_reject-Follows r event
  dispatch-Follows _ r event = search parts

  pub handle_ingress-Follows :
      (r : LegRef) (event : LegEvent) → Follows R (Ingress.handle_ingress port r event)
  unfolding Ingress.handle_ingress
  handle_ingress-Follows r event = dispatch-Follows event.type r event
