-- ===== src/Poly/Reconcile/Progress.antt =====
-- ReconcileRules.js, sections 2 and 3: when the media go up, when a leg is acknowledged, and that the
-- rules know no first and second leg.
use arnacon_webrtc_service.Shared.{
  List, Bool, true, false, ◌&&◌, ◌||◌, not, ◌≡◌, refl, arith, sym, ◌∙◌,
}
use arnacon_webrtc_service.Poly.States.{LegState, calling, ringing, in_call, same}
use arnacon_webrtc_service.Poly.Intents.{
  Intent, connect, ring, ack_connected, ack_ring, answer, ack_end, end_call, cancel, reject,
}
use arnacon_webrtc_service.Poly.Table.{every_pass}
use arnacon_webrtc_service.Poly.Reconcile.{
  LegRef, leg_a, leg_b, other, Action, MediaOp, bridge, unbridge, Snapshot, Trigger, triggered_by,
  is_caller, rules, reconcile,
}
use arnacon_webrtc_service.Poly.Reconcile.Legal.{at_ref}
use arnacon_webrtc_service.Poly.Reconcile.Issues.{asks, moves, ◌⇒◌, ⇒_elim, at_snapshot, mirror}

-- The leg is in the call, or the same pass asks it to answer.
abbrev pub joins : LegRef → Snapshot → Trigger → Bool
unfolding reconcile
joins r s event = same (at_ref r s.a.state s.b.state) in_call || asks r answer (reconcile s event)

bridge_table :
    every_pass (λ a b m e.
      moves bridge (rules a b m e)
      ⇒ not m
        && (same a in_call || asks leg_a answer (rules a b m e))
        && (same b in_call || asks leg_b answer (rules a b m e)))
    ≡ true
unfolding every_pass rules
bridge_table = refl

parts : (m p q : Bool) → (not m && p && q) ≡ true → (m ≡ false) × (p ≡ true) × (q ≡ true)
parts m p q h = ground arith

-- The media are bridged only while they are down, and only when each leg is in the call or is asked
-- to answer in the same pass.
pub bridge-reconcile :
    (s : Snapshot) (event : Trigger)
    → moves bridge (reconcile s event) ≡ true
    → (s.media_connected ≡ false) × (joins leg_a s event ≡ true) × (joins leg_b s event ≡ true)
unfolding reconcile
bridge-reconcile s event h = parts _ _ _ (
    ⇒_elim _
      (at_snapshot
        (λ a b m e.
          moves bridge (rules a b m e)
          ⇒ not m
            && (same a in_call || asks leg_a answer (rules a b m e))
            && (same b in_call || asks leg_b answer (rules a b m e)))
        bridge_table s event)
      h)

-- The media are taken down, or some leg is asked to end a call or to acknowledge the end of one.
abbrev pub tears : List Action → Bool
tears xs =
    moves unbridge xs
    || (asks leg_a end_call xs
        || asks leg_b end_call xs
        || (asks leg_a ack_end xs || asks leg_b ack_end xs))

abbrev acks_right : LegRef → LegState → LegState → Bool → Trigger → Bool
unfolding rules
acks_right r a b m e =
    ((asks r ack_ring (rules a b m e)
        ⇒ triggered_by ringing e && same (at_ref (other r) a b) ringing && is_caller (at_ref r a b))
      && (asks r ack_connected (rules a b m e)
          ⇒ triggered_by calling e && same (at_ref r a b) calling))
    && ((triggered_by ringing e
            && same (at_ref (other r) a b) ringing
            && is_caller (at_ref r a b)
            && not (tears (rules a b m e))
          ⇒ asks r ack_ring (rules a b m e))
        && (triggered_by calling e && same (at_ref r a b) calling && not (tears (rules a b m e))
            ⇒ asks r ack_connected (rules a b m e)))

ack_table : (r : LegRef) → every_pass (acks_right r) ≡ true
unfolding every_pass rules
ack_table leg_a = refl
ack_table leg_b = refl

ack_parts :
    (p q x y z u v t : Bool)
    → (((p ⇒ x && y && z) && (q ⇒ u && v)) && ((x && y && z && not t ⇒ p) && (u && v && not t ⇒ q)))
      ≡ true
    → (p ≡ true → (x ≡ true) × (y ≡ true) × (z ≡ true))
      × (q ≡ true → (u ≡ true) × (v ≡ true))
      × (x ≡ true → y ≡ true → z ≡ true → t ≡ false → p ≡ true)
      × (u ≡ true → v ≡ true → t ≡ false → q ≡ true)
ack_parts p q x y z u v t h = ground arith

-- A pass tells a leg that its peer rings only where the last change of a leg was to `ringing`, the peer
-- rings and the leg is a caller; and it tells a leg that its call has been heard only where the last
-- change, of this leg or the other, was to `calling` and the leg calls. It does so there, unless it takes
-- the media down or asks some leg to end a call or to acknowledge an end.
pub ack-reconcile :
    (r : LegRef) (s : Snapshot) (event : Trigger)
    → (asks r ack_ring (reconcile s event) ≡ true
        → (triggered_by ringing event ≡ true)
          × (same (at_ref (other r) s.a.state s.b.state) ringing ≡ true)
          × (is_caller (at_ref r s.a.state s.b.state) ≡ true))
      × (asks r ack_connected (reconcile s event) ≡ true
          → (triggered_by calling event ≡ true)
            × (same (at_ref r s.a.state s.b.state) calling ≡ true))
      × (triggered_by ringing event ≡ true
          → same (at_ref (other r) s.a.state s.b.state) ringing ≡ true
          → is_caller (at_ref r s.a.state s.b.state) ≡ true
          → tears (reconcile s event) ≡ false
          → asks r ack_ring (reconcile s event) ≡ true)
      × (triggered_by calling event ≡ true
          → same (at_ref r s.a.state s.b.state) calling ≡ true
          → tears (reconcile s event) ≡ false
          → asks r ack_connected (reconcile s event) ≡ true)
unfolding reconcile
ack-reconcile r s event =
    ack_parts _ _ _ _ _ _ _ _ (at_snapshot (acks_right r) (ack_table r) s event)

abbrev eq : Bool → Bool → Bool
eq true q = q
eq false q = not q

eq_sound : (p q : Bool) → eq p q ≡ true → p ≡ q
eq_sound p q h = ground arith

abbrev moves_mirrored : MediaOp → LegState → LegState → Bool → Trigger → Bool
unfolding rules
moves_mirrored op a b m e =
    same a calling && same b calling || eq (moves op (rules b a m e)) (moves op (rules a b m e))

moves_table : (op : MediaOp) → every_pass (moves_mirrored op) ≡ true
unfolding every_pass rules
moves_table bridge = refl
moves_table unbridge = refl

abbrev is_mirrored : Intent → LegState → LegState → Bool → Trigger → Bool
unfolding rules
is_mirrored i a b m e =
    same a calling && same b calling
    || eq (asks leg_b i (rules b a m e)) (asks leg_a i (rules a b m e))

mirror_table : (i : Intent) → every_pass (is_mirrored i) ≡ true
unfolding every_pass rules
mirror_table connect = refl
mirror_table ring = refl
mirror_table ack_connected = refl
mirror_table ack_ring = refl
mirror_table answer = refl
mirror_table ack_end = refl
mirror_table end_call = refl
mirror_table cancel = refl
mirror_table reject = refl

mirrored : (c p q : Bool) → (c || eq p q) ≡ true → c ≡ false → p ≡ q
mirrored c p q h e = ground arith

and_comm : (p q : Bool) → (p && q) ≡ (q && p)
and_comm p q = ground arith

asks-mirror :
    (i : Intent) (s : Snapshot) (event : Trigger)
    → (same s.a.state calling && same s.b.state calling) ≡ false
    → asks leg_b i (reconcile (mirror s) event) ≡ asks leg_a i (reconcile s event)
unfolding reconcile rules
asks-mirror i s event h = mirrored _ _ _ (at_snapshot (is_mirrored i) (mirror_table i) s event) h

either_way :
    (r : LegRef) (i : Intent) (s : Snapshot) (event : Trigger)
    → (same s.a.state calling && same s.b.state calling) ≡ false
    → asks (other r) i (reconcile (mirror s) event) ≡ asks r i (reconcile s event)
either_way leg_a i s event h = asks-mirror i s event h
either_way leg_b i s event h = sym (
    asks-mirror i (mirror s) event (and_comm (same s.b.state calling) (same s.a.state calling) ∙ h))

-- The rules do not tell the legs apart, unless both are calling at once: for the session with its
-- legs the other way round, a pass asks a leg for what it asks of the other leg in this one, and
-- moves the media as in this one.
pub reconcile-mirror :
    (r : LegRef) (i : Intent) (op : MediaOp) (s : Snapshot) (event : Trigger)
    → (same s.a.state calling && same s.b.state calling) ≡ false
    → (asks (other r) i (reconcile (mirror s) event) ≡ asks r i (reconcile s event))
      × (moves op (reconcile (mirror s) event) ≡ moves op (reconcile s event))
unfolding reconcile
reconcile-mirror r i op s event h = (
  either_way r i s event h,
  mirrored _ _ _ (at_snapshot (moves_mirrored op) (moves_table op) s event) h,
)
