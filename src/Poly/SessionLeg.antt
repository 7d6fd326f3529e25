-- ===== src/Poly/SessionLeg.antt =====
-- modules/calls/poly/SessionLeg.js: the intents that a session issues to a leg. The port's replies
-- and what runs during an await come from the environment `port`; `_tx`, which makes the transport
-- work of a leg wait for its turn, is a part of it.
pub mod Ingress
use arnacon_webrtc_service.Shared.{
  Bool, true, false, not, ◌&&◌, ◌||◌, Option, none, some, if◌then◌else◌, Text, text, text_eq,
}
use arnacon_webrtc_service.Poly.States.{
  LegState, disconnected, connecting, connected, calling, ringing, answering, in_call,
  end_requested, ending, ended, canceling, canceled, rejecting, rejected, failed, same, is_teardown,
  is_terminal,
}
use arnacon_webrtc_service.Poly.Intents.{Intent}
use arnacon_webrtc_service.Poly.Reconcile.{LegRef}
use arnacon_webrtc_service.Poly.World.{
  EventType, LegEvent, Payload, Ctx, Argument, of_session, of_client, OfferMode, ice_restart,
  ring_offer, EndMode, plain, remote, cancelled, declined, NegOp, Call, negotiate, Reply, nothing,
  deferred, settled, Session, Res, M, ◌>>=◌, ◌>>◌, done, modify, leg_at, put_leg, state_at, Port,
  call, by_self, set_state, assert_legal, then_do, ok, thrown,
}

-- `result?.state || s`.
abbrev pub state_or : Reply → LegState → LegState
state_or (settled s) fallback = s
state_or _ fallback = fallback

abbrev pub is_deferred : Reply → Bool
is_deferred deferred = true
is_deferred _ = false

-- `from ?? "self"`.
abbrev or_self : Option Text → Option Text
or_self none = by_self
or_self (some t) = some t

unfoldable pub set_pending : Option Payload → LegRef → M (Unit {0})
set_pending p r = modify λ s. put_leg r (record (leg_at r s) { pending_end_offer = p }) s

module _ (port : Port) where
  -- The intents, on the context that the session passes.
  unfoldable pub connect : LegRef → Ctx → M (Unit {0})
  connect r ctx = do
    assert_legal r Intent.connect
    state ← state_at r
    if same state connected then done else do
      set_state r connecting by_self
      result ← call port (negotiate r NegOp.connect (of_session ctx))
      if is_deferred result then done else set_state r connected by_self

  unfoldable pub ring : LegRef → Ctx → M (Unit {0})
  ring r ctx = do
    assert_legal r Intent.ring
    state ← state_at r
    if same state ringing then done else do
      set_state r ringing ctx.from
      call port (negotiate r NegOp.ring (of_session ctx))
      done

  unfoldable pub ack_connected : LegRef → Ctx → M (Unit {0})
  ack_connected r ctx = do
    assert_legal r Intent.ack_connected
    call port (negotiate r NegOp.ack_connected (of_session ctx))
    done

  unfoldable pub ack_ring : LegRef → Ctx → M (Unit {0})
  ack_ring r ctx = do
    assert_legal r Intent.ack_ring
    call port (negotiate r NegOp.ack_ring (of_session ctx))
    done

  unfoldable pub answer : LegRef → Ctx → M (Unit {0})
  answer r ctx = do
    assert_legal r Intent.answer
    state ← state_at r
    if same state in_call then done else do
      set_state r answering ctx.from
      call port (negotiate r NegOp.answer (of_session ctx))
      set_state r in_call ctx.from

  unfoldable pub ack_end : LegRef → Ctx → M (Unit {0})
  ack_end r ctx = do
    assert_legal r Intent.ack_end
    result ← call port (negotiate r NegOp.ack_end (of_session ctx))
    set_pending none r
    set_state r (state_or result connected) (or_self ctx.from)

  unfoldable pub end_call : LegRef → Ctx → M (Unit {0})
  end_call r ctx = do
    assert_legal r Intent.end_call
    state ← state_at r
    if same state ending || is_terminal state then done else do
      set_state r ending ctx.from
      result ← call port (negotiate r (NegOp.end_call plain) (of_session ctx))
      if is_deferred result then done else set_state r (state_or result disconnected) ctx.from

  unfoldable pub cancel : LegRef → Ctx → M (Unit {0})
  cancel r ctx = do
    assert_legal r Intent.cancel
    state ← state_at r
    if same state canceled then done else do
      set_state r canceling ctx.from
      call port (negotiate r (NegOp.end_call cancelled) (of_session ctx))
      set_state r canceled ctx.from

  unfoldable pub reject : LegRef → Ctx → M (Unit {0})
  reject r ctx = do
    assert_legal r Intent.reject
    state ← state_at r
    if same state rejected then done else do
      set_state r rejecting ctx.from
      call port (negotiate r (NegOp.end_call declined) (of_session ctx))
      set_state r rejected ctx.from
