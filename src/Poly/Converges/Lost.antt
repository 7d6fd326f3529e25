-- ===== src/Poly/Converges/Lost.antt =====
-- modules/calls/poly/PolySession.js, `_drain` and the NO_OPEN_DC branch of `_execute`: a leg whose
-- `connect` settles at once though its data channel is gone.
use mathlib.Core.Path.{subst}
use arnacon_webrtc_service.Shared.{◌≡◌, refl, sym, true, false, none, some}
use arnacon_webrtc_service.Poly.States.{calling, connected}
use arnacon_webrtc_service.Poly.Reconcile.{webrtc, leg_b, Trigger, rules, reconcile}
use arnacon_webrtc_service.Poly.World.{
  Session, Port, NegOp, negotiate, nothing, no_open_dc, ok, thrown,
}
use arnacon_webrtc_service.Poly.PolySession
use arnacon_webrtc_service.Poly.Converges.{at_states, from_actions}

-- What WebRtcNegotiation.js does for a leg in the role of the caller: `connect` finds its peer
-- connection and returns, and `ring` throws NO_OPEN_DC on its closed channel. All else succeeds.
abbrev pub lost_channel : Port
lost_channel (negotiate leg_b NegOp.ring arg) s = (thrown no_open_dc, s)
lost_channel _ s = (ok nothing, s)

diverges_at :
    (s : Session) (e : Trigger)
    → let t =
        (from_actions lost_channel
          (rules calling connected false e)
          (at_states s webrtc webrtc calling connected false)).1 in
      (t.diverged ≡ true) × (t.a.state ≡ calling)
unfolding PolySession.runs rules
diverges_at s none = (refl, refl)
diverges_at s (some calling) = (refl, refl)
diverges_at s (some _) = (refl, refl)

diverges :
    (s : Session)
    → let t =
        (PolySession.drain_loop lost_channel 0 50
          (at_states s webrtc webrtc calling connected false)).1 in
      (t.diverged ≡ true) × (t.a.state ≡ calling)
unfolding PolySession.drain_loop PolySession.pass reconcile
diverges s = diverges_at s (PolySession.trigger s.last_event)

-- The two clients of a session that listens, one calling and the other at hand, as its legs see it.
abbrev pub IsRingDue : Session → Type 0
IsRingDue s =
    (s.subscribed ≡ true)
    × (s.dirty ≡ true)
    × (s.diverged ≡ false)
    × (s.media ≡ false)
    × (s.a.kind ≡ webrtc)
    × (s.b.kind ≡ webrtc)
    × (s.a.state ≡ calling)
    × (s.b.state ≡ connected)

as_ring_due : (s : Session) → IsRingDue s → at_states s webrtc webrtc calling connected false ≡ s
as_ring_due s (on, dirty, fresh, down, ka, kb, a, b) i = record s {
  subscribed = sym on i;
  dirty = sym dirty i;
  diverged = sym fresh i;
  media = sym down i;
  a = record s.a { kind = sym ka i; state = sym a i };
  b = record s.b { kind = sym kb i; state = sym b i };
}

-- When a dirty session that listens to its legs, with no media up and no drain given up, has one
-- client calling while the leg of the other looks connected, and each `connect` of that leg
-- succeeds and each `ring` fails with NO_OPEN_DC, then the drain runs out of its 50 passes, and the
-- calling leg is left calling.
pub drain_loop-diverges :
    (s : Session)
    → IsRingDue s
    → ((PolySession.drain_loop lost_channel 0 50 s).1.diverged ≡ true)
      × ((PolySession.drain_loop lost_channel 0 50 s).1.a.state ≡ calling)
drain_loop-diverges s h =
    subst
      (λ u.
        ((PolySession.drain_loop lost_channel 0 50 u).1.diverged ≡ true)
        × ((PolySession.drain_loop lost_channel 0 50 u).1.a.state ≡ calling))
      (as_ring_due s h) (diverges s)
