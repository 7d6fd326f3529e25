-- ===== src/Calls/Call/Stamps.antt =====
-- modules/calls/Call.js: the marks, their states and their times.
use arnacon_webrtc_service.Shared.{
  ℕ, zero, suc, Bool, true, false, ◌&&◌, ◌||◌, ◌==◌, any, Option, none, some, List, [], ◌∷◌,
  if-cases, ◌≡◌, refl, Text, arith,
}
use arnacon_webrtc_service.Calls.StateMachine.{
  CallState, in_call, cancelling, cancelled, ending, post_call, same, Machine, Outcome, moved,
  illegal, transition, can_transition,
}
use arnacon_webrtc_service.Calls.Call.{
  Call, Metadata, Mark, answered, ends, post, cancels, cancelled_with, mark, marks, time_or,
}

-- The state that a mark is for.
abbrev pub state_of : Mark → CallState
state_of answered = in_call
state_of (ends reason) = ending
state_of (post reason) = post_call
state_of (cancels k) = cancelling
state_of (cancelled_with k) = cancelled

same_sound : (s t : CallState) → same s t ≡ true → s ≡ t
same_sound _ _ h = ground arith

abbrev Moves : CallState → Machine → Outcome × Machine → Type 0
Moves next m r =
    (r.0 ≡ moved → (r.1.state ≡ next) × (can_transition m next ≡ true))
    × (r.0 ≡ illegal → (r.1 ≡ m) × (can_transition m next ≡ false))

transition-Moves :
    (next : CallState) (reason : Text) (now : ℕ) (m : Machine)
    → Moves next m (transition next reason now m)
unfolding transition
transition-Moves next reason now m =
    if-cases (Moves next m) (can_transition m next) _ _
      (λ can. (
        λ _. (
          if-cases (λ n. n.state ≡ next) (same m.state next) m _ (same_sound m.state next)
              (λ _. refl),
          can,
        ),
        λ e. ground arith,
      ))
      (λ cannot. (λ e. ground arith, λ _. (refl, cannot)))

-- A mark that is allowed from the call's state brings the call to the mark's state. A mark that is not
-- allowed throws, and leaves the state and its history as they were.
pub mark-Moves :
    (k : Mark) (now : ℕ) (c : Call)
    → ((mark k now c).0 ≡ moved
        → ((mark k now c).1.machine.state ≡ state_of k)
          × (can_transition c.machine (state_of k) ≡ true))
      × ((mark k now c).0 ≡ illegal
          → ((mark k now c).1.machine ≡ c.machine)
            × (can_transition c.machine (state_of k) ≡ false))
unfolding marks
mark-Moves answered now c = transition-Moves in_call _ now c.machine
mark-Moves (ends reason) now c = transition-Moves ending _ now c.machine
mark-Moves (post reason) now c = transition-Moves post_call _ now c.machine
mark-Moves (cancels k) now c = transition-Moves cancelling _ now c.machine
mark-Moves (cancelled_with k) now c = transition-Moves cancelled _ now c.machine

abbrev pub is_over : CallState → Bool
is_over ending = true
is_over post_call = true
is_over cancelled = true
is_over _ = false

-- The marks that write the time of the end, and the one that writes the time of the answer.
abbrev pub is_end : Mark → Bool
is_end answered = false
is_end (cancels k) = false
is_end _ = true

abbrev pub is_answer : Mark → Bool
is_answer answered = true
is_answer _ = false

-- One of the marks that were made is of the sort, and was made at the time.
abbrev pub made : (Mark → Bool) → ℕ → List (Mark × ℕ) → Bool
made sort t ms = any (λ (m : Mark × ℕ). sort m.0 && m.1 == t) ms

abbrev pub TimeOf : (Mark → Bool) → List (Mark × ℕ) → Option ℕ → Type 0
TimeOf sort ms none = Unit
TimeOf sort ms (some t) = made sort t ms ≡ true

abbrev has_time : Option ℕ → Bool
has_time none = false
has_time (some t) = true

abbrev Stamped : List (Mark × ℕ) → CallState → Metadata → Type 0
Stamped ms s d =
    (is_over s ≡ true → has_time d.ended_at ≡ true)
    × (same s in_call ≡ true → has_time d.answered_at ≡ true)
    × TimeOf is_end ms d.ended_at
    × TimeOf is_answer ms d.answered_at

-- After the marks `ms`, the latest first: a call that is ending or over has a time of its end and one in
-- progress a time of its answer, and each such time is that of a mark that writes it.
abbrev pub IsStamped : List (Mark × ℕ) → Call → Type 0
IsStamped ms c = Stamped ms c.machine.state c.metadata

transition-Stamped :
    (ms : List (Mark × ℕ)) (next : CallState) (reason : Text) (now : ℕ) (m : Machine) (d : Metadata)
    → Stamped ms m.state d
    → Stamped ms next d
    → Stamped ms (transition next reason now m).1.state d
unfolding transition
transition-Stamped ms next reason now m d h k =
    if-cases (λ (r : Outcome × Machine). Stamped ms r.1.state d) (can_transition m next) _ _
      (λ _.
        if-cases (λ (n : Machine). Stamped ms n.state d) (same m.state next) m _ (λ _. h) (λ _. k))
      (λ _. h)

TimeOf-older :
    (sort : Mark → Bool) (m : Mark × ℕ) (ms : List (Mark × ℕ)) (o : Option ℕ)
    → TimeOf sort ms o
    → TimeOf sort (m ∷ ms) o
TimeOf-older sort m ms none h = tt
TimeOf-older sort m ms (some t) h = or_right (sort m.0 && m.1 == t) (made sort t ms) h
  where
    or_right : (p q : Bool) → q ≡ true → (p || q) ≡ true
    or_right p q h = ground arith

TimeOf-now :
    (sort : Mark → Bool) (k : Mark) (now : ℕ) (ms : List (Mark × ℕ))
    → sort k ≡ true
    → TimeOf sort ((k, now) ∷ ms) (some now)
TimeOf-now sort k now ms h = yes (sort k) (made sort now ms) h
  where
    yes : (p q : Bool) → p ≡ true → ((p && now == now) || q) ≡ true
    yes p q h = ground arith

TimeOf-kept :
    (reason : Text) (now : ℕ) (ms : List (Mark × ℕ)) (o : Option ℕ)
    → TimeOf is_end ms o
    → TimeOf is_end ((post reason, now) ∷ ms) (some (time_or o now))
TimeOf-kept reason now ms none h = TimeOf-now is_end (post reason) now ms refl
TimeOf-kept reason now ms (some zero) h = TimeOf-now is_end (post reason) now ms refl
TimeOf-kept reason now ms (some (suc t)) h =
    TimeOf-older is_end (post reason, now) ms (some (suc t)) h

-- Every mark, whether it throws or not, keeps a call stamped.
mark-IsStamped :
    (k : Mark) (now : ℕ) (ms : List (Mark × ℕ)) (c : Call)
    → IsStamped ms c
    → IsStamped ((k, now) ∷ ms) (mark k now c).1
unfolding marks
mark-IsStamped answered now ms c h =
    let e = TimeOf-older is_end (answered, now) ms c.metadata.ended_at h.2 in
    let n = TimeOf-now is_answer answered now ms refl in
    transition-Stamped ((answered, now) ∷ ms) in_call _ now c.machine
      (mark answered now c).1.metadata (h.0, λ _. refl, e, n) (λ e. ground arith, λ _. refl, e, n)
mark-IsStamped (ends reason) now ms c h =
    let a = TimeOf-older is_answer (ends reason, now) ms c.metadata.answered_at h.3 in
    let n = TimeOf-now is_end (ends reason) now ms refl in
    transition-Stamped ((ends reason, now) ∷ ms) ending _ now c.machine
      (mark (ends reason) now c).1.metadata (λ _. refl, h.1, n, a)
      (λ _. refl, λ e. ground arith, n, a)
mark-IsStamped (post reason) now ms c h =
    let a = TimeOf-older is_answer (post reason, now) ms c.metadata.answered_at h.3 in
    let n = TimeOf-kept reason now ms c.metadata.ended_at h.2 in
    transition-Stamped ((post reason, now) ∷ ms) post_call _ now c.machine
      (mark (post reason) now c).1.metadata (λ _. refl, h.1, n, a)
      (λ _. refl, λ e. ground arith, n, a)
mark-IsStamped (cancels k) now ms c h =
    let e = TimeOf-older is_end (cancels k, now) ms c.metadata.ended_at h.2 in
    let a = TimeOf-older is_answer (cancels k, now) ms c.metadata.answered_at h.3 in
    transition-Stamped ((cancels k, now) ∷ ms) cancelling _ now c.machine
      (mark (cancels k) now c).1.metadata (h.0, h.1, e, a)
      (λ e. ground arith, λ e. ground arith, e, a)
mark-IsStamped (cancelled_with k) now ms c h =
    let a = TimeOf-older is_answer (cancelled_with k, now) ms c.metadata.answered_at h.3 in
    let n = TimeOf-now is_end (cancelled_with k) now ms refl in
    transition-Stamped ((cancelled_with k, now) ∷ ms) cancelled _ now c.machine
      (mark (cancelled_with k) now c).1.metadata (λ _. refl, h.1, n, a)
      (λ _. refl, λ e. ground arith, n, a)

-- The call after marks made in order, each at its time.
unfoldable pub after_marks : List (Mark × ℕ) → Call → Call
after_marks [] c = c
after_marks ((k, now) ∷ rest) c = after_marks rest (mark k now c).1

-- The marks made, the latest first.
abbrev pub latest_first : List (Mark × ℕ) → List (Mark × ℕ) → List (Mark × ℕ)
latest_first [] ms = ms
latest_first (m ∷ rest) ms = latest_first rest (m ∷ ms)

-- Whatever marks are made of a call whose times are those of the marks `ms` made before, in whatever
-- order and whether they throw or not: a call that is then ending, over or cancelled has a time of its
-- end, one that is in progress has a time of its answer, a time of its end is one at which a mark was
-- made that ends, closes or cancels it, and a time of its answer is one at which it was marked answered.
pub after_marks-IsStamped :
    (rest ms : List (Mark × ℕ)) (c : Call)
    → IsStamped ms c
    → IsStamped (latest_first rest ms) (after_marks rest c)
unfolding after_marks
after_marks-IsStamped [] ms c h = h
after_marks-IsStamped ((k, now) ∷ rest) ms c h =
    after_marks-IsStamped rest ((k, now) ∷ ms) _ (mark-IsStamped k now ms c h)
