-- ===== src/Calls/Multiring/Keeps.antt =====
-- modules/calls/webrtc/MultiringCoordinator.js: who won a group, whether it ended, and what
-- a step keeps of both.
use arnacon_webrtc_service.Shared.{
  ℕ, suc, ◌≤◌, ◌≡◌, refl, ap, ◌∙◌, Bool, true, false, Option, none, some, List, [], ◌∷◌,
  if◌then◌else◌, ◌==◌,
}
use arnacon_webrtc_service.Calls.Multiring.Candidates.{
  get_at, Candidate, Group, Coordinator, is_winner, candidate_at, group_at,
}

-- The winner of a group, and whether it has ended.
abbrev pub core_of : Option Group → Option (Option ℕ × Bool)
core_of none = none
core_of (some gr) = some (gr.winner_of_group, gr.finished)

abbrev pub winner_in : Option (Option ℕ × Bool) → Option ℕ
winner_in none = none
winner_in (some c) = c.0

abbrev pub is_over : Option (Option ℕ × Bool) → Bool
is_over none = false
is_over (some c) = c.1

-- The group that a candidate has won.
abbrev pub won_by : Option Candidate → Option ℕ
won_by none = none
won_by (some c) = if is_winner c.status then some c.group else none

unfoldable pub core_at : ℕ → Coordinator → Option (Option ℕ × Bool)
unfolding get_at
core_at g k = core_of (group_at g k)

unfoldable pub won_at : ℕ → Coordinator → Option ℕ
unfolding get_at
won_at r k = won_by (candidate_at r k)

abbrev pub is_made : Option (Option ℕ × Bool) → Bool
is_made none = false
is_made (some c) = true

abbrev pub group_of : Option Candidate → Option ℕ
group_of none = none
group_of (some c) = some c.group

abbrev pub count : ℕ → List ℕ → ℕ
count g [] = 0
count g (h ∷ hs) = if h == g then suc (count g hs) else count g hs

-- A candidate that won is the winner of its group.
unfoldable pub IsLocked : Coordinator → Type 0
unfolding won_at core_at
IsLocked k = (r g : ℕ) → won_at r k ≡ some g → winner_in (core_at g k) ≡ some r

-- The group of a candidate is one that was made.
unfoldable pub IsGrouped : Coordinator → Type 0
unfolding core_at get_at
IsGrouped k = (r g : ℕ) → group_of (candidate_at r k) ≡ some g → is_made (core_at g k) ≡ true

-- The host session of a group was destroyed at most once, and then the group has ended.
unfoldable pub IsSpent : ℕ → Coordinator → Type 0
unfolding core_at
IsSpent g k = count g k.destroyed ≤ (if is_over (core_at g k) then 1 else 0)

pub record Keeps (k after : Coordinator) : Type 0 where
  pub grouped : IsGrouped k → IsGrouped after
  pub locked : IsLocked k → IsLocked after
  pub winners : (g r : ℕ) → winner_in (core_at g k) ≡ some r → winner_in (core_at g after) ≡ some r
  pub spent : (g : ℕ) → IsSpent g k → IsSpent g after

pub Keeps-refl : (k : Coordinator) → Keeps k k
Keeps-refl k = record { grouped = λ h. h; locked = λ h. h; winners = λ g r h. h; spent = λ g h. h }

pub Keeps-trans : (k l n : Coordinator) → Keeps k l → Keeps l n → Keeps k n
Keeps-trans k l n h j = record {
  grouped = λ x. j.grouped (h.grouped x);
  locked = λ x. j.locked (h.locked x);
  winners = λ g r x. j.winners g r (h.winners g r x);
  spent = λ g x. j.spent g (h.spent g x);
}

-- Nothing is won, no group ends, and none is destroyed.
pub record Quiet (k after : Coordinator) : Type 0 where
  pub made : IsGrouped k → IsGrouped after
  pub won : (r g : ℕ) → won_at r after ≡ some g → won_at r k ≡ some g
  pub cores : (g : ℕ) → core_at g after ≡ core_at g k
  pub ended : after.destroyed ≡ k.destroyed

pub Quiet-refl : (k : Coordinator) → Quiet k k
Quiet-refl k = record { made = λ h. h; won = λ r g h. h; cores = λ g. refl; ended = refl }

pub Quiet-trans : (k l n : Coordinator) → Quiet k l → Quiet l n → Quiet k n
Quiet-trans k l n h j = record {
  made = λ x. j.made (h.made x);
  won = λ r g x. h.won r g (j.won r g x);
  cores = λ g. j.cores g ∙ h.cores g;
  ended = j.ended ∙ h.ended;
}

pub Keeps-Quiet : (k l : Coordinator) → Quiet k l → Keeps k l
unfolding IsLocked IsSpent
Keeps-Quiet k l q = record {
  grouped = q.made;
  locked = λ h r g x. ap winner_in (q.cores g) ∙ h r g (q.won r g x);
  winners = λ g r x. ap winner_in (q.cores g) ∙ x;
  spent = λ g x. rw (q.cores g, q.ended) x;
}
