-- ===== src/Poly/Settled.antt =====
-- What a drain that comes to rest leaves behind (PolySession.js, `_drain`), in terms of the rules.
pub mod Passes
pub mod Drains
pub mod Messages
use mathlib.Core.Path.{subst}
use arnacon_webrtc_service.Shared.{
  ℕ, zero, suc, Bool, true, false, not, ◌&&◌, ◌≡◌, refl, sym, ap, ◌∙◌, List, [], ◌∷◌, any, &&_left,
  &&_right, if-cases, if◌then◌else◌, Bool-cases, inl, inr, arith, ◌||◌,
}
use arnacon_webrtc_service.Poly.States.{LegState, in_call, same, call_viable}
use arnacon_webrtc_service.Poly.Reconcile.{
  MediaOp, bridge, unbridge, Action, intent, media, Trigger, rules, reconcile,
}
use arnacon_webrtc_service.Poly.Reconcile.Issues.{moves, ◌⇒◌}
use arnacon_webrtc_service.Poly.Table.{every_pass, every_pass_sound}
use arnacon_webrtc_service.Poly.World.{
  Call, Session, Res, ok, thrown, M, then_do, ◌>>=◌, ◌>>◌, done, catch, caught, modify, Port, call,
}
use arnacon_webrtc_service.Poly.PolySession
use arnacon_webrtc_service.Poly.Frame.{Frame, Follows, catch-Follows, then-Follows, done-Follows}
use arnacon_webrtc_service.Poly.Frame.SessionCode.{recover_failed_legs-Follows}
use arnacon_webrtc_service.Poly.Steady.{IsQuiet, true≢false, Steady, IsObserved, Steady-Frame}
use arnacon_webrtc_service.Poly.Steady.Actions.{
  marks, execute_all-Steady, execute_all-quiet, execute_all-Returns, execute_all-cons,
}
use arnacon_webrtc_service.Poly.Unbridged.{
  Unbridged, IsUnbridged, Unbridged-Frame, unbridge_lem, execute_all-Unbridged,
}

abbrev pub both_in_call : LegState → LegState → Bool
both_in_call a b = same a in_call && same b in_call

-- Nobody is in a call alone, and the media are up for a whole call only.
abbrev pub IsCoherent : Session → Type 0
IsCoherent s =
    (s.a.state ≡ in_call → call_viable s.b.state ≡ true)
    × (s.b.state ≡ in_call → call_viable s.a.state ≡ true)
    × (s.media ≡ true → (s.a.state ≡ in_call) × (s.b.state ≡ in_call))

abbrev pub begins_unbridge : List Action → Bool
begins_unbridge (media unbridge ∷ xs) = not (moves bridge xs)
begins_unbridge _ = false

abbrev pub coherent_pass : LegState → LegState → Bool → List Action → Bool
coherent_pass a b m xs =
    (same a in_call ⇒ call_viable b)
    && ((same b in_call ⇒ call_viable a) && (moves bridge xs ⇒ both_in_call a b))

-- A pass that ends and answers no call sees a coherent pair, and bridges a whole call only.
calm_table :
    every_pass
      (λ a b m e. not (any (marks a b) (rules a b m e)) ⇒ coherent_pass a b m (rules a b m e))
    ≡ true
unfolding every_pass rules
calm_table = refl

-- Media without a whole call go down first.
unbridge_table :
    every_pass (λ a b m e. m && not (both_in_call a b) ⇒ begins_unbridge (rules a b m e)) ≡ true
unfolding every_pass rules
unbridge_table = refl

same→eq : (st : LegState) → same st in_call ≡ true → st ≡ in_call
same→eq st h = ground arith

eq→same : (st : LegState) → st ≡ in_call → same st in_call ≡ true
eq→same st h = ground arith

pub both→eq : (a b : LegState) → both_in_call a b ≡ true → (a ≡ in_call) × (b ≡ in_call)
both→eq a b h = (same→eq a (&&_left _ _ h), same→eq b (&&_right (same a in_call) _ h))

⇒_apply : (p q : Bool) → (p ⇒ q) ≡ true → p ≡ true → q ≡ true
⇒_apply p q h k = ground arith

pub calm_pass :
    (a b : LegState) (m : Bool) (event : Trigger)
    → any (marks a b) (rules a b m event) ≡ false
    → coherent_pass a b m (rules a b m event) ≡ true
calm_pass a b m event h =
    ⇒_apply (not (any (marks a b) (rules a b m event))) _
      (every_pass_sound
        (λ a b m e. not (any (marks a b) (rules a b m e)) ⇒ coherent_pass a b m (rules a b m e))
        calm_table a b m event)
      (ap not h)

pub calm_a :
    (a b : LegState) (m : Bool) (xs : List Action)
    → coherent_pass a b m xs ≡ true
    → a ≡ in_call
    → call_viable b ≡ true
calm_a a b m xs h e =
    ⇒_apply (same a in_call) (call_viable b) (&&_left (same a in_call ⇒ call_viable b) _ h)
      (eq→same a e)

calm_rest :
    (a b : LegState) (m : Bool) (xs : List Action)
    → coherent_pass a b m xs ≡ true
    → ((same b in_call ⇒ call_viable a) && (moves bridge xs ⇒ both_in_call a b)) ≡ true
calm_rest a b m xs h = &&_right (same a in_call ⇒ call_viable b) _ h

pub calm_b :
    (a b : LegState) (m : Bool) (xs : List Action)
    → coherent_pass a b m xs ≡ true
    → b ≡ in_call
    → call_viable a ≡ true
calm_b a b m xs h e =
    ⇒_apply (same b in_call) (call_viable a)
      (&&_left (same b in_call ⇒ call_viable a) _ (calm_rest a b m xs h)) (eq→same b e)

pub calm_bridge :
    (a b : LegState) (m : Bool) (xs : List Action)
    → coherent_pass a b m xs ≡ true
    → moves bridge xs ≡ true
    → (a ≡ in_call) × (b ≡ in_call)
calm_bridge a b m xs h e = both→eq a b (
    ⇒_apply (moves bridge xs) _ (&&_right (same b in_call ⇒ call_viable a) _ (calm_rest a b m xs h))
      e)

pub begins :
    (a b : LegState) (event : Trigger)
    → both_in_call a b ≡ false
    → begins_unbridge (rules a b true event) ≡ true
begins a b event h =
    ⇒_apply (true && not (both_in_call a b)) _
      (every_pass_sound (λ a b m e. m && not (both_in_call a b) ⇒ begins_unbridge (rules a b m e))
        unbridge_table a b true event)
      (ap not h)

pub not-true : (b : Bool) → not b ≡ true → b ≡ false
not-true b h = ground arith

-- Quiet sessions are coherent.
abbrev pub IsSafe : Session → Type 0
IsSafe s = IsQuiet s → IsCoherent s

-- No drain is under way, and the session is quiet.
abbrev pub IsAtRest : Session → Type 0
IsAtRest s = (s.running ≡ false) × IsQuiet s

abbrev pub IsSound : Session → Type 0
IsSound s = IsAtRest s → IsCoherent s
