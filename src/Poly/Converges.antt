-- ===== src/Poly/Converges.antt =====
-- modules/calls/poly/PolySession.js, `_drain`: the loop comes to rest within its passes, by
-- evaluation from every pair of states, where each leg either serves every call or fails them all.
pub mod Drain
pub mod Lost
use arnacon_webrtc_service.Shared.{
  ℕ, ◌≡◌, refl, sym, true, false, none, some, ◌&&◌, not, Bool, Option, Text, List, ◌⊎◌, inl, inr,
  if◌then◌else◌, arith, ap, &&_left, &&_right,
}
use arnacon_webrtc_service.Poly.States.{
  LegState, disconnected, connecting, connected, calling, ringing, answering, in_call,
  end_requested, ending, ended, canceling, canceled, rejecting, rejected, failed, same, call_viable,
}
use arnacon_webrtc_service.Poly.Table.{every, every_sound, both, both_sound}
use arnacon_webrtc_service.Poly.Reconcile.{
  Kind, webrtc, sip, leg_a, leg_b, Trigger, Action, rules, reconcile,
}
use arnacon_webrtc_service.Poly.World.{
  Session, Port, Call, negotiate, Failure, other_failure, NegOp, Reply, nothing, ok, thrown,
  then_do, M, ◌>>=◌, ◌>>◌, modify,
}
use arnacon_webrtc_service.Poly.PolySession
use arnacon_webrtc_service.Poly.Quiet.{op_reply}

-- Nothing else runs meanwhile; a leg is reachable, and its port replies as its kind does, or each
-- call of its port fails. The media controller serves every call.
abbrev reaches : Bool → Bool → Call → Bool
reaches ra rb (negotiate leg_a op arg) = ra
reaches ra rb (negotiate leg_b op arg) = rb
reaches ra rb _ = true

-- The reply of a leg of a kind; a client that is in the role of the caller, `true`, serves `connect` at
-- once.
abbrev role_reply : Kind → Bool → NegOp → Reply
role_reply webrtc true NegOp.connect = nothing
role_reply k c op = op_reply k op

abbrev reply_in : Kind → Kind → Bool → Bool → Call → Reply
reply_in ka kb ca cb (negotiate leg_a op arg) = role_reply ka ca op
reply_in ka kb ca cb (negotiate leg_b op arg) = role_reply kb cb op
reply_in ka kb ca cb _ = nothing

abbrev pub answers : Kind → Kind → Bool → Bool → Bool → Bool → Port
answers ka kb ca cb ra rb c s =
    (if reaches ra rb c then ok (reply_in ka kb ca cb c) else thrown other_failure, s)

-- The session with what a drain reads of it.
abbrev pub at_states : Session → Kind → Kind → LegState → LegState → Bool → Session
at_states s ka kb a b m = record s {
  a = record s.a { state = a; kind = ka };
  b = record s.b { state = b; kind = kb };
  media = m;
  dirty = true;
  diverged = false;
  subscribed = true;
}

-- The rest of a drain whose first pass runs the actions `xs`.
abbrev pub from_actions : Port → List Action → M (Unit {0})
from_actions port xs s =
    then_do
      ((do
        modify (λ t. record t { dirty = false })
        PolySession.execute_all port 0 xs
        PolySession.recover_failed_legs port 0)
        s)
      (λ _. PolySession.drain_loop port 0 49)

abbrev pub rests : Session → Bool
rests t = t.subscribed && not t.dirty && not t.diverged

abbrev settles :
    Session → Kind → Kind → Bool → Bool → Bool → Bool → Trigger → LegState → LegState → Bool → Bool
unfolding rules
settles s ka kb ca cb ra rb e a b m =
    rests (from_actions (answers ka kb ca cb ra rb) (rules a b m e) (at_states s ka kb a b m)).1

-- At the triggers that the rules tell from one another.
abbrev settles_each :
    Session → Kind → Kind → Bool → Bool → LegState → LegState → Bool → Bool → Bool → Bool
settles_each s ka kb ca cb a b m ra rb =
    settles s ka kb ca cb ra rb none a b m
    && settles s ka kb ca cb ra rb (some calling) a b m
    && settles s ka kb ca cb ra rb (some ringing) a b m

abbrev settles_from : Session → Kind → Kind → Bool → Bool → LegState → LegState → Bool
settles_from s ka kb ca cb a b =
    both λ m. both λ ra. both λ rb. settles_each s ka kb ca cb a b m ra rb

callers_table :
    (s : Session) (a : LegState) → every (settles_from s webrtc webrtc true true a) ≡ true
unfolding PolySession.runs every rules
callers_table s in_call = refl
callers_table s _ = refl

caller_table :
    (s : Session) (a : LegState) → every (settles_from s webrtc webrtc true false a) ≡ true
unfolding PolySession.runs every rules
caller_table s in_call = refl
caller_table s _ = refl

callee_table :
    (s : Session) (a : LegState) → every (settles_from s webrtc webrtc false true a) ≡ true
unfolding PolySession.runs every rules
callee_table s in_call = refl
callee_table s _ = refl

callees_table :
    (s : Session) (a : LegState) → every (settles_from s webrtc webrtc false false a) ≡ true
unfolding PolySession.runs every rules
callees_table s in_call = refl
callees_table s _ = refl

caller_trunk_table :
    (s : Session) (cb : Bool) (a : LegState) → every (settles_from s webrtc sip true cb a) ≡ true
unfolding PolySession.runs every rules
caller_trunk_table s cb in_call = refl
caller_trunk_table s cb _ = refl

callee_trunk_table :
    (s : Session) (cb : Bool) (a : LegState) → every (settles_from s webrtc sip false cb a) ≡ true
unfolding PolySession.runs every rules
callee_trunk_table s cb in_call = refl
callee_trunk_table s cb _ = refl

trunk_caller_table :
    (s : Session) (ca : Bool) (a : LegState) → every (settles_from s sip webrtc ca true a) ≡ true
unfolding PolySession.runs every rules
trunk_caller_table s ca in_call = refl
trunk_caller_table s ca _ = refl

trunk_callee_table :
    (s : Session) (ca : Bool) (a : LegState) → every (settles_from s sip webrtc ca false a) ≡ true
unfolding PolySession.runs every rules
trunk_callee_table s ca in_call = refl
trunk_callee_table s ca _ = refl

trunks_table :
    (s : Session) (ca cb : Bool) (a : LegState) → every (settles_from s sip sip ca cb a) ≡ true
unfolding PolySession.runs every rules
trunks_table s ca cb in_call = refl
trunks_table s ca cb _ = refl

settles_table :
    (s : Session) (ka kb : Kind) (ca cb : Bool) (a : LegState)
    → every (settles_from s ka kb ca cb a) ≡ true
settles_table s webrtc webrtc true true a = callers_table s a
settles_table s webrtc webrtc true false a = caller_table s a
settles_table s webrtc webrtc false true a = callee_table s a
settles_table s webrtc webrtc false false a = callees_table s a
settles_table s webrtc sip true cb a = caller_trunk_table s cb a
settles_table s webrtc sip false cb a = callee_trunk_table s cb a
settles_table s sip webrtc ca true a = trunk_caller_table s ca a
settles_table s sip webrtc ca false a = trunk_callee_table s ca a
settles_table s sip sip ca cb a = trunks_table s ca cb a

three : (p q r : Bool) → (p && q && r) ≡ true → (p ≡ true) × (q ≡ true) × (r ≡ true)
three p q r h = ground arith

module _ (s : Session) (ka kb : Kind) (ca cb ra rb : Bool) (a b : LegState) (m : Bool) where
  settles_three :
      (settles s ka kb ca cb ra rb none a b m ≡ true)
      × (settles s ka kb ca cb ra rb (some calling) a b m ≡ true)
      × (settles s ka kb ca cb ra rb (some ringing) a b m ≡ true)
  settles_three =
      three (settles s ka kb ca cb ra rb none a b m)
        (settles s ka kb ca cb ra rb (some calling) a b m)
        (settles s ka kb ca cb ra rb (some ringing) a b m)
        (both_sound (settles_each s ka kb ca cb a b m ra)
          (both_sound (λ ra'. both (settles_each s ka kb ca cb a b m ra'))
            (both_sound (λ m'. both λ ra'. both (settles_each s ka kb ca cb a b m' ra'))
              (every_sound (settles_from s ka kb ca cb a) (settles_table s ka kb ca cb a) b) m)
            ra)
          rb)

  -- The rules tell a change to `calling` and one to `ringing` from the other changes, no more.
  settles_always : (e : Trigger) → settles s ka kb ca cb ra rb e a b m ≡ true
  unfolding rules
  settles_always none = settles_three.0
  settles_always (some calling) = settles_three.1
  settles_always (some ringing) = settles_three.2
  settles_always (some _) = settles_three.0

  pub rests_at :
      rests (PolySession.drain_loop (answers ka kb ca cb ra rb) 0 50 (at_states s ka kb a b m)).1
      ≡ true
  unfolding PolySession.drain_loop PolySession.pass reconcile
  rests_at = settles_always (PolySession.trigger s.last_event)
