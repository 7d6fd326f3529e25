-- ===== src/Poly/Reconcile/Teardown.antt =====
-- ReconcileRules.js, section 1: what ends a call, and that nothing else runs beside it.
use arnacon_webrtc_service.Shared.{
  Bool, true, false, ◌&&◌, ◌||◌, not, ◌≡◌, refl, arith, leb, leb→le, ◌≤◌,
}
use arnacon_webrtc_service.Poly.States.{
  LegState, calling, in_call, ending, same, call_viable, is_teardown, needs_ending,
}
use arnacon_webrtc_service.Poly.Intents.{end_call}
use arnacon_webrtc_service.Poly.Table.{every_pass}
use arnacon_webrtc_service.Poly.Reconcile.{
  LegRef, leg_a, leg_b, other, bridge, unbridge, Snapshot, Trigger, rules, reconcile,
}
use arnacon_webrtc_service.Poly.Reconcile.Legal.{at_ref}
use arnacon_webrtc_service.Poly.Reconcile.Issues.{
  asks, moves, ◌⇒◌, ⇒_elim, at_snapshot, either, advances, retreats, count_moves,
}

-- The leg `own` holds a call that its peer has left, or is leaving.
abbrev pub must_end : LegState → LegState → Bool
must_end own peer =
    (is_teardown peer && needs_ending own && not (same peer ending && same own calling))
    || (same own in_call && not (call_viable peer))

end_table :
    (r : LegRef)
    → every_pass (λ a b m e.
      asks r end_call (rules a b m e) ⇒ must_end (at_ref r a b) (at_ref (other r) a b))
      ≡ true
unfolding every_pass rules
end_table leg_a = refl
end_table leg_b = refl

must_table :
    (r : LegRef)
    → every_pass (λ a b m e.
      must_end (at_ref r a b) (at_ref (other r) a b) ⇒ asks r end_call (rules a b m e))
      ≡ true
unfolding every_pass rules
must_table leg_a = refl
must_table leg_b = refl

iff_true : (p q : Bool) → (p ⇒ q) ≡ true → (q ⇒ p) ≡ true → p ≡ q
iff_true p q h k = ground arith

-- A pass asks a leg to end its call exactly when the leg holds a live call that its peer tears down,
-- save for a fresh caller whose peer is still ending the call before, or when the leg is in a call
-- and its peer is in no state that a call can be in. The media and the trigger do not matter.
pub end_call-reconcile :
    (r : LegRef) (s : Snapshot) (event : Trigger)
    → asks r end_call (reconcile s event)
      ≡ must_end (at_ref r s.a.state s.b.state) (at_ref (other r) s.a.state s.b.state)
unfolding reconcile
end_call-reconcile r s event =
    iff_true _ _
      (at_snapshot (λ a b m e. asks r end_call (rules a b m e) ⇒ _) (end_table r) s event)
      (at_snapshot (λ a b m e. _ ⇒ asks r end_call (rules a b m e)) (must_table r) s event)

exclusive_table :
    every_pass (λ a b m e.
      moves unbridge (rules a b m e) || either (λ r. retreats r (rules a b m e))
      ⇒ not (moves bridge (rules a b m e)) && not (either (λ r. advances r (rules a b m e))))
    ≡ true
unfolding every_pass rules
exclusive_table = refl

both_false : (p q : Bool) → (not p && not q) ≡ true → (p ≡ false) × (q ≡ false)
both_false p q h = ground arith

-- A pass that takes the media down or asks a leg to end or to acknowledge an end neither bridges
-- the media nor asks a leg to connect, ring, answer or acknowledge a call.
pub reconcile-exclusive :
    (s : Snapshot) (event : Trigger)
    → (moves unbridge (reconcile s event) || either (λ r. retreats r (reconcile s event))) ≡ true
    → (moves bridge (reconcile s event) ≡ false)
      × (either (λ r. advances r (reconcile s event)) ≡ false)
unfolding reconcile
reconcile-exclusive s event h = both_false _ _ (
    ⇒_elim _
      (at_snapshot
        (λ a b m e.
          moves unbridge (rules a b m e) || either (λ r. retreats r (rules a b m e))
          ⇒ not (moves bridge (rules a b m e)) && not (either (λ r. advances r (rules a b m e))))
        exclusive_table s event)
      h)

single_table : (r : LegRef) → every_pass (λ a b m e. leb (count_moves r (rules a b m e)) 1) ≡ true
unfolding every_pass rules
single_table leg_a = refl
single_table leg_b = refl

-- In one pass a leg gets at most one intent that can change its state.
pub count_moves-reconcile :
    (r : LegRef) (s : Snapshot) (event : Trigger) → count_moves r (reconcile s event) ≤ 1
unfolding reconcile
count_moves-reconcile r s event =
    leb→le _ 1
      (at_snapshot (λ a b m e. leb (count_moves r (rules a b m e)) 1) (single_table r) s event)
