-- ===== src/Calls/StateMachine/Histories.antt =====
-- modules/calls/CallStateMachine.js: what the history of a machine records.
use mathlib.Core.Path.{subst}
use arnacon_webrtc_service.Shared.{
  ℕ, Bool, true, false, ◌||◌, List, [], ◌∷◌, ◌++◌, if-cases, ◌≡◌, refl, sym, Text, arith,
}
use arnacon_webrtc_service.Calls.StateMachine.{
  CallState, handshake, waiting_for_data_channel, same, allowed, Entry, Machine, Outcome,
  transition, start,
}

-- The entries lead from a state to another, each step one that the table allows.
abbrev pub Leads : CallState → List Entry → CallState → Type 0
Leads s [] t = s ≡ t
Leads s (e ∷ es) t = (allowed s e.state ≡ true) × Leads e.state es t

abbrev LeadsFrom : CallState → List Entry → CallState → Type 0
LeadsFrom s [] t = ⊥
LeadsFrom s (e ∷ es) t = (e.state ≡ s) × Leads e.state es t

-- The history begins with the state `initial_state` and ends in the state of the machine.
abbrev pub IsRecorded : CallState → Machine → Type 0
IsRecorded initial_state m = LeadsFrom initial_state m.history m.state

Leads-append :
    (s : CallState) (es : List Entry) (t : CallState) (e : Entry)
    → Leads s es t
    → allowed t e.state ≡ true
    → Leads s (es ++ e ∷ []) e.state
Leads-append s [] t e h k = (subst (λ u. allowed u e.state ≡ true) (sym h) k, refl)
Leads-append s (d ∷ es) t e h k = (h.0, Leads-append d.state es t e h.1 k)

LeadsFrom-append :
    (s : CallState) (es : List Entry) (t : CallState) (e : Entry)
    → LeadsFrom s es t
    → allowed t e.state ≡ true
    → LeadsFrom s (es ++ e ∷ []) e.state
LeadsFrom-append s [] t e h k = absurd h
LeadsFrom-append s (d ∷ es) t e h k = (h.0, Leads-append d.state es t e h.1 k)

only_or : (p q : Bool) → (p || q) ≡ true → p ≡ false → q ≡ true
only_or p q h k = ground arith

transition-IsRecorded :
    (first next : CallState) (reason : Text) (now : ℕ) (m : Machine)
    → IsRecorded first m
    → IsRecorded first (transition next reason now m).1
unfolding transition
transition-IsRecorded first next reason now m h =
    if-cases (λ (r : Outcome × Machine). IsRecorded first r.1)
      (same m.state next || allowed m.state next) _ _
      (λ can.
        if-cases (IsRecorded first) (same m.state next) m _ (λ _. h)
          (λ differ.
            LeadsFrom-append first m.history m.state _ h
              (only_or (same m.state next) (allowed m.state next) can differ)))
      (λ _. h)

-- What a caller asks of a machine: the next state, the reason and the time.
abbrev pub Request : Type 0
Request = CallState × Text × ℕ

-- The machine after the requests, in order; one that throws leaves it as it is.
unfoldable pub after_requests : List Request → Machine → Machine
after_requests [] m = m
after_requests ((next, reason, now) ∷ rest) m = after_requests rest (transition next reason now m).1

after_requests-keeps :
    (first : CallState) (rest : List Request) (m : Machine)
    → IsRecorded first m
    → IsRecorded first (after_requests rest m)
unfolding after_requests
after_requests-keeps first [] m h = h
after_requests-keeps first ((next, reason, now) ∷ rest) m h =
    after_requests-keeps first rest _ (transition-IsRecorded first next reason now m h)

-- Whatever transitions are asked of a new machine, legal or not, its history begins with the initial
-- state, takes only steps that the table allows, and ends in the machine's state.
pub after_requests-IsRecorded :
    (initial_state : CallState) (reason : Text) (now : ℕ) (requests : List Request)
    → IsRecorded initial_state (after_requests requests (start initial_state reason now))
after_requests-IsRecorded initial_state reason now requests =
    after_requests-keeps initial_state requests (start initial_state reason now) (refl, refl)

-- Its two parties are not yet joined by a data channel.
abbrev pub is_connecting : CallState → Bool
is_connecting handshake = true
is_connecting waiting_for_data_channel = true
is_connecting _ = false

allowed_connected :
    (s t : CallState) → allowed s t ≡ true → is_connecting s ≡ false → is_connecting t ≡ false
allowed_connected handshake _ h k = ground arith
allowed_connected waiting_for_data_channel _ h k = ground arith
allowed_connected _ _ h k = ground arith

transition-connected :
    (next : CallState) (reason : Text) (now : ℕ) (m : Machine)
    → is_connecting m.state ≡ false
    → is_connecting (transition next reason now m).1.state ≡ false
unfolding transition
transition-connected next reason now m h =
    if-cases (λ (r : Outcome × Machine). is_connecting r.1.state ≡ false)
      (same m.state next || allowed m.state next) _ _
      (λ can.
        if-cases (λ (n : Machine). is_connecting n.state ≡ false) (same m.state next) m _ (λ _. h)
          (λ differ.
            allowed_connected m.state next
              (only_or (same m.state next) (allowed m.state next) can differ) h))
      (λ _. h)

-- A machine that has left its two connecting states never returns to one of them.
pub after_requests-connected :
    (requests : List Request) (m : Machine)
    → is_connecting m.state ≡ false
    → is_connecting (after_requests requests m).state ≡ false
unfolding after_requests
after_requests-connected [] m h = h
after_requests-connected ((next, reason, now) ∷ rest) m h =
    after_requests-connected rest _ (transition-connected next reason now m h)
