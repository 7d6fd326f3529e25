-- ===== src/Poly/Table.antt =====
-- Laws of the states and of the rule table, by evaluation at every state.
use arnacon_webrtc_service.Shared.{
  Bool, true, false, ◌&&◌, ◌≡◌, Option, none, some, arith, &&_left, &&_right,
}
use arnacon_webrtc_service.Poly.States.{
  LegState, disconnected, connecting, connected, calling, ringing, answering, in_call,
  end_requested, ending, ended, canceling, canceled, rejecting, rejected, failed,
}

unfoldable pub every : (LegState → Bool) → Bool
every p =
    p disconnected
    && p connecting
    && p connected
    && p calling
    && p ringing
    && p answering
    && p in_call
    && p end_requested
    && p ending
    && p ended
    && p canceling
    && p canceled
    && p rejecting
    && p rejected
    && p failed

pub every_sound : (p : LegState → Bool) → every p ≡ true → (s : LegState) → p s ≡ true
unfolding every
every_sound p h disconnected = ground arith
every_sound p h _ = ground arith

abbrev pub both : (Bool → Bool) → Bool
both p = p true && p false

pub both_sound : (p : Bool → Bool) → both p ≡ true → (b : Bool) → p b ≡ true
both_sound p h true = &&_left (p true) (p false) h
both_sound p h false = &&_right (p true) (p false) h

abbrev triggers : (Option LegState → Bool) → Bool
triggers p = p none && every (λ t. p (some t))

triggers_sound :
    (p : Option LegState → Bool) → triggers p ≡ true → (event : Option LegState) → p event ≡ true
triggers_sound p h none = &&_left (p none) (every λ t. p (some t)) h
triggers_sound p h (some t) =
    every_sound (λ t'. p (some t')) (&&_right (p none) (every λ t'. p (some t')) h) t

-- Every state of the two legs, with the media up or down, and every trigger.
unfoldable pub every_pass : (LegState → LegState → Bool → Option LegState → Bool) → Bool
unfolding every
every_pass p = every λ a. every λ b. both λ m. triggers λ event. p a b m event

pub every_pass_sound :
    (p : LegState → LegState → Bool → Option LegState → Bool)
    → every_pass p ≡ true
    → (a b : LegState) (m : Bool) (event : Option LegState) → p a b m event ≡ true
unfolding every_pass
every_pass_sound p h a b m event =
    triggers_sound (p a b m)
      (both_sound (λ m'. triggers (p a b m'))
        (every_sound (λ b'. both λ m'. triggers (p a b' m'))
          (every_sound (λ a'. every λ b'. both λ m'. triggers (p a' b' m')) h a) b)
        m)
      event
