-- ===== src/Poly/Converges/Drain.antt =====
-- modules/calls/poly/PolySession.js, `_drain`: the loop of any dirty session.
use mathlib.Core.Path.{subst}
use arnacon_webrtc_service.Shared.{◌≡◌, refl, sym, ◌∙◌, true, false, ◌&&◌, not, Bool, arith}
use arnacon_webrtc_service.Poly.Reconcile.{Kind}
use arnacon_webrtc_service.Poly.World.{Session}
use arnacon_webrtc_service.Poly.PolySession
use arnacon_webrtc_service.Poly.Steady.{IsObserved, IsQuiet, true≢false}
use arnacon_webrtc_service.Poly.Unbridged.{IsUnbridged}
use arnacon_webrtc_service.Poly.Settled.{IsCoherent}
use arnacon_webrtc_service.Poly.Settled.Drains.{drain_loop-IsSafe}
use arnacon_webrtc_service.Poly.Converges.{answers, at_states, rests, rests_at}

answers-IsObserved : (ka kb : Kind) (ca cb ra rb : Bool) → IsObserved (answers ka kb ca cb ra rb)
answers-IsObserved ka kb ca cb ra rb c s i q = (q, refl, refl)

answers-IsUnbridged : (ka kb : Kind) (ca cb ra rb : Bool) → IsUnbridged (answers ka kb ca cb ra rb)
answers-IsUnbridged ka kb ca cb ra rb c s i up = up

rests→IsQuiet : (t : Session) → rests t ≡ true → IsQuiet t
rests→IsQuiet t h = parts t.subscribed t.dirty t.diverged h
  where
    parts : (p q r : Bool) → (p && not q && not r) ≡ true → (p ≡ true) × (q ≡ false) × (r ≡ false)
    parts p q r h = ground arith

-- What a drain of a session that listens, is dirty and has never given up reads of it.
as_states :
    (s : Session)
    → s.subscribed ≡ true
    → s.dirty ≡ true
    → s.diverged ≡ false
    → at_states s s.a.kind s.b.kind s.a.state s.b.state s.media ≡ s
as_states s h k l i = record s { subscribed = sym h i; dirty = sym k i; diverged = sym l i }

-- For a dirty session that listens to its legs and has not given up before, from whatever states of
-- the legs, media and last change, where each leg is of either kind, a client in either role, and its
-- port either replies as that kind and role does or fails every call with an error other than the one
-- of a lost data channel, and where nothing else runs meanwhile and the INVITE is tried once: the loop
-- of a drain comes to rest within its 50 passes, and then neither leg is in a call whose other leg is
-- in no state of a call, and the media are up only if both legs are in the call.
pub drain_loop-settles :
    (ca cb ra rb : Bool) (s : Session)
    → s.subscribed ≡ true
    → s.dirty ≡ true
    → s.diverged ≡ false
    → IsQuiet (PolySession.drain_loop (answers s.a.kind s.b.kind ca cb ra rb) 0 50 s).1
      × IsCoherent (PolySession.drain_loop (answers s.a.kind s.b.kind ca cb ra rb) 0 50 s).1
drain_loop-settles ca cb ra rb s h k l =
    let port = answers s.a.kind s.b.kind ca cb ra rb in
    let t = (PolySession.drain_loop port 0 50 s).1 in
    let quiet = rests→IsQuiet t (
      subst (λ u. rests (PolySession.drain_loop port 0 50 u).1 ≡ true) (as_states s h k l)
        (rests_at s s.a.kind s.b.kind ca cb ra rb s.a.state s.b.state s.media)) in
    (
      quiet,
      drain_loop-IsSafe port (answers-IsObserved s.a.kind s.b.kind ca cb ra rb)
          (answers-IsUnbridged s.a.kind s.b.kind ca cb ra rb) 0 50 s
          (λ q. absurd (true≢false (sym k ∙ q.1))) quiet,
    )
