-- ===== src/Poly/Reconcile/Legal.antt =====
-- Every intent that the rules issue is one that its leg allows.
use arnacon_webrtc_service.Shared.{Bool, true, ◌≡◌, refl, all, All, all_sound}
use arnacon_webrtc_service.Poly.States.{LegState}
use arnacon_webrtc_service.Poly.Intents.{is_intent_legal}
use arnacon_webrtc_service.Poly.Table.{every_pass, every_pass_sound}
use arnacon_webrtc_service.Poly.Reconcile.{
  LegRef, leg_a, leg_b, Action, intent, media, Snapshot, Trigger, rules, reconcile,
}

abbrev pub at_ref : LegRef → LegState → LegState → LegState
at_ref leg_a a b = a
at_ref leg_b a b = b

-- The leg that the action names allows the intent; an action on the media needs no leave.
abbrev pub allowed : LegState → LegState → Action → Bool
allowed a b (intent r i from) = is_intent_legal (at_ref r a b) i
allowed a b (media op) = true

allowed_table : every_pass (λ a b m event. all (allowed a b) (rules a b m event)) ≡ true
unfolding every_pass rules
allowed_table = refl

-- Every intent that a pass issues is one that the state of its leg allows, so that a leg whose state
-- has not changed since the pass looked at it never refuses it.
pub reconcile-allowed :
    (s : Snapshot) (event : Trigger)
    → All (λ x. allowed s.a.state s.b.state x ≡ true) (reconcile s event)
unfolding reconcile
reconcile-allowed s event = all_sound (allowed s.a.state s.b.state) (reconcile s event) (
    every_pass_sound (λ a b m e. all (allowed a b) (rules a b m e)) allowed_table s.a.state
      s.b.state s.media_connected event)
