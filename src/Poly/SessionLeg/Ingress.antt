-- ===== src/Poly/SessionLeg/Ingress.antt =====
-- modules/calls/poly/SessionLeg.js, `handleIngress`: what a leg does with its own client's messages.
use arnacon_webrtc_service.Shared.{
  Bool, false, ◌&&◌, ◌||◌, Option, none, some, if◌then◌else◌, Text, text, text_eq,
}
use arnacon_webrtc_service.Poly.States.{
  disconnected, connecting, connected, calling, ringing, answering, in_call, end_requested, ending,
  ended, canceling, canceled, rejecting, rejected, failed, same, is_teardown, is_terminal,
}
use arnacon_webrtc_service.Poly.Reconcile.{LegRef}
use arnacon_webrtc_service.Poly.World.{
  EventType, LegEvent, of_client, ice_restart, ring_offer, remote, cancelled, declined, NegOp,
  negotiate, M, ◌>>=◌, ◌>>◌, done, state_at, Port, call, by_self, set_state,
}
use arnacon_webrtc_service.Poly.SessionLeg.{set_pending}

-- `event.payload?.type === "answer"`.
abbrev pub is_answer_type : Option Text → Bool
is_answer_type none = false
is_answer_type (some t) = text_eq t (text "answer")

module _ (port : Port) where
  -- One transport operation on behalf of the client's event, its result unused.
  abbrev pub serve : LegRef → NegOp → LegEvent → M (Unit {0})
  serve r op event = do call port (negotiate r op (of_client event)); done

  unfoldable pub on_transport_open : LegRef → M (Unit {0})
  on_transport_open r = do
    state ← state_at r
    if same state disconnected || same state connecting then set_state r connected by_self else done

  unfoldable pub on_transport_close : LegRef → M (Unit {0})
  on_transport_close r = do
    state ← state_at r
    if is_teardown state || (same state ended || (same state canceled || same state rejected))
        then done
        else set_state r failed by_self

  unfoldable pub on_offer : LegRef → LegEvent → M (Unit {0})
  on_offer r event = do
    state ← state_at r
    if same state in_call
        then serve r (NegOp.apply_offer ice_restart) event
        else if same state ringing
        then serve r (NegOp.apply_offer ring_offer) event
        else do serve r (NegOp.apply_offer ring_offer) event; set_state r calling by_self

  abbrev pub end_complete : LegRef → LegEvent → M (Unit {0})
  end_complete r event = do serve r (NegOp.end_call remote) event; set_state r connected by_self

  abbrev pub accept : LegRef → LegEvent → M (Unit {0})
  accept r event = do serve r NegOp.apply_answer event; set_state r in_call by_self

  unfoldable pub on_answer : LegRef → LegEvent → M (Unit {0})
  on_answer r event = do
    state ← state_at r
    if same state connecting
        then serve r NegOp.apply_session_answer event
        else if same state ending
        then end_complete r event
        else if same state connected
            || (same state calling || (same state ringing || same state answering))
        then accept r event
        else done

  unfoldable pub on_end : LegRef → LegEvent → M (Unit {0})
  on_end r event = do
    let answers = is_answer_type event.payload.payload_type
    state ← state_at r
    if same state ending && answers
        then end_complete r event
        else if answers && (same state calling || (same state ringing || same state answering))
        then serve r (NegOp.end_call remote) event
        else if is_terminal state
            || (same state ending
                || (same state end_requested || (same state connected || same state disconnected)))
        then serve r (NegOp.end_call remote) event
        else do set_pending (some event.payload) r; set_state r end_requested by_self

  unfoldable pub on_remote_bye : LegRef → LegEvent → M (Unit {0})
  on_remote_bye r event = do
    state ← state_at r
    if is_terminal state || same state disconnected
        then serve r (NegOp.end_call remote) event
        else do serve r (NegOp.end_call remote) event; set_state r disconnected by_self

  unfoldable pub on_cancel : LegRef → LegEvent → M (Unit {0})
  on_cancel r event = do
    state ← state_at r
    if is_terminal state || same state canceling
        then serve r (NegOp.end_call cancelled) event
        else do
          set_state r canceling by_self
          serve r (NegOp.end_call cancelled) event
          set_state r canceled by_self

  unfoldable pub on_reject : LegRef → LegEvent → M (Unit {0})
  on_reject r event = do
    state ← state_at r
    if is_terminal state || same state rejecting
        then serve r (NegOp.end_call declined) event
        else do
          set_state r rejecting by_self
          serve r (NegOp.end_call declined) event
          set_state r rejected by_self

  -- The `switch` of `handleIngress`; the last clause is its `default`.
  abbrev pub dispatch : EventType → LegRef → LegEvent → M (Unit {0})
  dispatch EventType.transport_open r event = on_transport_open r
  dispatch EventType.transport_close r event = on_transport_close r
  dispatch EventType.offer r event = on_offer r event
  dispatch EventType.answer r event = on_answer r event
  dispatch EventType.end r event = on_end r event
  dispatch EventType.end_renegotiation r event = on_end r event
  dispatch EventType.remote_bye r event = on_remote_bye r event
  dispatch EventType.cancel r event = on_cancel r event
  dispatch EventType.reject r event = on_reject r event
  dispatch _ r event = serve r NegOp.handle_aux event

  unfoldable pub handle_ingress : LegRef → LegEvent → M (Unit {0})
  handle_ingress r event = dispatch event.type r event
