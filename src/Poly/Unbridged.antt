-- ===== src/Poly/Unbridged.antt =====
-- The media of a session across the parts of the code that do not bridge it.
use mathlib.Core.Bool.{false≢true}
use arnacon_webrtc_service.Shared.{
  ||_left, ||_right, ℕ, Bool, true, false, ◌≡◌, refl, sym, ◌∙◌, Option, List, [], ◌∷◌, if-cases,
  Text,
}
use arnacon_webrtc_service.Poly.States.{LegState, same}
use arnacon_webrtc_service.Poly.Reconcile.{
  LegRef, leg_a, leg_b, bridge, unbridge, Action, intent, media,
}
use arnacon_webrtc_service.Poly.World.{
  IsOfDrain, of_session, Call, Change, Payload, Session, leg_at, put_leg, Port, call, catch, caught,
  ◌>>◌, ◌>>=◌, then_do, modify, emit, on_leg_change, set_leg_state, media_disconnect, done,
}
use arnacon_webrtc_service.Poly.PolySession
use arnacon_webrtc_service.Poly.Frame.{Frame, Follows, then-Follows, catch-Follows, done-Follows}
use arnacon_webrtc_service.Poly.Frame.SessionCode.{execute-Follows}
use arnacon_webrtc_service.Poly.Reconcile.Issues.{is_move, moves}

-- Media that are up after were up before.
abbrev pub Unbridged : Session → Session → Type 0
Unbridged s t = t.media ≡ true → s.media ≡ true

-- What runs while a drain waits bridges no media: only a drain does, and one runs at a time.
abbrev pub IsUnbridged : Port → Type 0
IsUnbridged port = (c : Call) (s : Session) → IsOfDrain c → Unbridged s (port c s).1

emit-Unbridged : (change : Change) (s : Session) → Unbridged s (emit change s)
unfolding emit on_leg_change
emit-Unbridged change s = if-cases (Unbridged s) s.subscribed _ s (λ _ up. up) (λ _ up. up)

set_leg_state-Unbridged :
    (r : LegRef) (next : LegState) (from : Option Text) (s : Session)
    → Unbridged s (set_leg_state r next from s)
unfolding set_leg_state
set_leg_state-Unbridged leg_a next from s =
    if-cases (Unbridged s) (same s.a.state next) _ _ (λ _ up. up) (λ _. emit-Unbridged _ _)
set_leg_state-Unbridged leg_b next from s =
    if-cases (Unbridged s) (same s.b.state next) _ _ (λ _ up. up) (λ _. emit-Unbridged _ _)

put_pending-Unbridged :
    (r : LegRef) (p : Option Payload) (s : Session)
    → Unbridged s (put_leg r (record (leg_at r s) { pending_end_offer = p }) s)
put_pending-Unbridged leg_a p s up = up
put_pending-Unbridged leg_b p s up = up

pub Unbridged-Frame : (port : Port) → IsUnbridged port → Frame of_session port Unbridged
unfolding call
Unbridged-Frame port h = record {
  stay = λ s up. up;
  chain = λ s t u h k up. h (k up);
  state = set_leg_state-Unbridged;
  note = put_pending-Unbridged;
  wait = λ r op ctx s. h _ _ tt;
}

module _ (port : Port) (unbridged : IsUnbridged port) (retries : ℕ) where
  drop-Unbridged : Follows Unbridged (catch (do call port media_disconnect; done) (λ e. done))
  unfolding call
  drop-Unbridged =
      let frame = Unbridged-Frame port unbridged in
      catch-Follows frame (then-Follows frame outside (done-Follows frame))
        (λ e. done-Follows frame)
    where
      outside : Follows Unbridged (call port media_disconnect)
      outside = record { at = λ s. unbridged media_disconnect _ tt }

  unbridge_media_lem :
      (up : Bool) (s : Session)
      → s.media ≡ up
      → (catch (PolySession.unbridge_media port retries up) (λ e. done) s).1.media ≡ true
      → ⊥
  unfolding catch ◌>>◌ ◌>>=◌ then_do modify done caught
  unbridge_media_lem true s e up = false≢true (drop-Unbridged.at (record s { media = false }) up)
  unbridge_media_lem false s e up = false≢true (sym e ∙ up)

  -- The media are down after `unbridge`.
  pub unbridge_lem :
      (s : Session) → (PolySession.execute port retries (media unbridge) s).1.media ≡ true → ⊥
  unfolding PolySession.execute PolySession.execute_media
  unbridge_lem s up = unbridge_media_lem s.media s refl up

  execute-Unbridged :
      (x : Action)
      → is_move bridge x ≡ false
      → Follows Unbridged (PolySession.execute port retries x)
  unfolding PolySession.execute PolySession.execute_media
  execute-Unbridged (intent r i from) h =
      execute-Follows (Unbridged-Frame port unbridged) retries r i from
  execute-Unbridged (media bridge) h = cc
  execute-Unbridged (media unbridge) h = record { at = λ s up. absurd (unbridge_lem s up) }

  pub execute_all-Unbridged :
      (xs : List Action)
      → moves bridge xs ≡ false
      → Follows Unbridged (PolySession.execute_all port retries xs)
  unfolding PolySession.execute_all
  execute_all-Unbridged [] h = done-Follows (Unbridged-Frame port unbridged)
  execute_all-Unbridged (x ∷ xs) h =
      then-Follows (Unbridged-Frame port unbridged)
        (execute-Unbridged x (||_left (is_move bridge x) (moves bridge xs) h))
        (execute_all-Unbridged xs (||_right (is_move bridge x) (moves bridge xs) h))
