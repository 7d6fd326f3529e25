-- ===== src/Poly/SipLeg.antt =====
-- modules/calls/poly/legs/SipLeg.js: the leg that is an INVITE, and the choice of a leg's class.
use arnacon_webrtc_service.Shared.{ℕ, zero, suc, Bool, true, false, ◌||◌, if◌then◌else◌}
use arnacon_webrtc_service.Poly.States.{disconnected, ringing, in_call, same}
use arnacon_webrtc_service.Poly.Intents.{Intent}
use arnacon_webrtc_service.Poly.Reconcile.{LegRef, Kind, webrtc, sip}
use arnacon_webrtc_service.Poly.World.{
  EventType, LegEvent, Ctx, of_session, of_client, NegOp, negotiate, Failure, sip_pc2_not_connected,
  thrown, M, ◌>>=◌, ◌>>◌, done, catch, leg_at, state_at, Port, call, set_state, assert_legal,
}
use arnacon_webrtc_service.Poly.SessionLeg
use arnacon_webrtc_service.Poly.SessionLeg.Ingress

abbrev pub fail : Failure → M (Unit {0})
fail e s = (thrown e, s)

abbrev pub is_pc2_failure : Failure → Bool
is_pc2_failure sip_pc2_not_connected = true
is_pc2_failure _ = false

-- `if (this.state === RINGING) this.setState(next)`.
abbrev pub from_ringing : LegRef → M (Unit {0}) → M (Unit {0})
from_ringing r m = do state ← state_at r; if same state ringing then m else done

-- SIP_FULL_RETRY_ATTEMPTS: how many times the INVITE is sent again.
module _ (port : Port) (retries : ℕ) where
  -- The state after an INVITE that brings no dialog, and the failure that is thrown.
  abbrev pub give_up : LegRef → Ctx → Failure → M (Unit {0})
  give_up r ctx e = do from_ringing r (set_state r disconnected ctx.from); fail e

  abbrev pub reset_for_retry : LegRef → Ctx → M (Unit {0})
  reset_for_retry r ctx =
      from_ringing r do set_state r disconnected ctx.from; set_state r ringing ctx.from

  -- The loop over the attempts, with `left` attempts after this one.
  abbrev pub attempt : LegRef → Ctx → M (Unit {0})
  attempt r ctx = do
    call port (negotiate r NegOp.ring (of_session ctx))
    from_ringing r (set_state r in_call ctx.from)

  unfoldable pub attempts : ℕ → LegRef → Ctx → M (Unit {0})
  attempts zero r ctx = catch (attempt r ctx) λ e. give_up r ctx e
  attempts (suc left) r ctx =
      let again = attempts left r ctx in
      catch (attempt r ctx)
        λ e. if is_pc2_failure e then (do reset_for_retry r ctx; again) else give_up r ctx e

  unfoldable pub invite : LegRef → Ctx → M (Unit {0})
  invite r ctx = do
    state ← state_at r
    if same state ringing || same state in_call
        then done
        else do set_state r ringing ctx.from; attempts retries r ctx

  -- The overrides of `connect` and `ring`.
  unfoldable pub sip_connect : LegRef → Ctx → M (Unit {0})
  sip_connect r ctx = do assert_legal r Intent.connect; invite r ctx

  unfoldable pub sip_ring : LegRef → Ctx → M (Unit {0})
  sip_ring r ctx = do assert_legal r Intent.ring; invite r ctx

  -- The override of `handleIngress`.
  abbrev pub sip_dispatch : EventType → LegRef → LegEvent → M (Unit {0})
  sip_dispatch EventType.hold r event = do
    call port (negotiate r NegOp.handle_aux (of_client event))
    done
  sip_dispatch EventType.dtmf r event = do
    call port (negotiate r NegOp.handle_aux (of_client event))
    done
  sip_dispatch EventType.transport_open r event = done
  sip_dispatch _ r event = Ingress.handle_ingress port r event

  -- The method of the leg's class.
  abbrev pub connect_of : Kind → LegRef → Ctx → M (Unit {0})
  connect_of webrtc r ctx = SessionLeg.connect port r ctx
  connect_of sip r ctx = sip_connect r ctx

  abbrev pub ring_of : Kind → LegRef → Ctx → M (Unit {0})
  ring_of webrtc r ctx = SessionLeg.ring port r ctx
  ring_of sip r ctx = sip_ring r ctx

  abbrev pub ingress_of : Kind → LegRef → LegEvent → M (Unit {0})
  ingress_of webrtc r event = Ingress.handle_ingress port r event
  ingress_of sip r event = sip_dispatch event.type r event

  unfoldable pub connect : LegRef → Ctx → M (Unit {0})
  connect r ctx s = connect_of (leg_at r s).kind r ctx s

  unfoldable pub ring : LegRef → Ctx → M (Unit {0})
  ring r ctx s = ring_of (leg_at r s).kind r ctx s

  unfoldable pub handle_ingress : LegRef → LegEvent → M (Unit {0})
  handle_ingress r event s = ingress_of (leg_at r s).kind r event s
