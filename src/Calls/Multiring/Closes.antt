-- ===== src/Calls/Multiring/Closes.antt =====
-- modules/calls/webrtc/MultiringCoordinator.js: what tracking, closing and ending leave of the winners,
-- and of the groups that have ended.
use arnacon_webrtc_service.Shared.{
  ℕ, suc, ◌≤◌, ◌≡◌, refl, sym, ap, ◌∙◌, Bool, true, false, Option, none, some, List, [], ◌∷◌,
  if◌then◌else◌, ◌==◌, if-cases, ==_iff, Text, arith, Option-cases, inl, inr,
}
use arnacon_webrtc_service.Calls.Multiring.Candidates.{
  Candidate, Group, Coordinator, is_closed, candidate_at, group_at, set_group, refs,
}
use arnacon_webrtc_service.Calls.Multiring.Groups.{
  untrack_candidate, close_open, close_in, close_found, close_candidate, close_all, untrack_in,
  untrack_all, forget_group, finish_group, destroy_session, end_group, as_closed, as_finished,
  without_leg,
}
use mathlib.Core.Bool.{true≢false}
use mathlib.Core.Path.{subst}
use mathlib.Core.Option.{none-ne-some}
use arnacon_webrtc_service.Calls.Multiring.Objects.{at-update_at, get_at-update_at}
use arnacon_webrtc_service.Calls.Multiring.Keeps.{
  core_of, is_made, group_of, IsGrouped, winner_in, is_over, won_by, core_at, won_at, count,
  IsLocked, IsSpent, Keeps, Keeps-refl, Keeps-trans, Quiet, Quiet-refl, Quiet-trans, Keeps-Quiet,
}

module _ (stable_key : Text → Text → Text) where
  close_open-Quiet :
      (r : ℕ) (reason : Text) (c : Candidate) (gr : Group) (k : Coordinator)
      → Quiet k (close_open stable_key r reason c gr k)
  unfolding close_open untrack_candidate won_at core_at without_leg IsGrouped
  close_open-Quiet r reason c gr k = record {
    made = λ h q g x.
        at-update_at (λ o p. is_made (core_of o) ≡ true → is_made (core_of p) ≡ true)
          (without_leg c.wallet_key c.leg_session.id) (λ o y. y) (λ y z. refl) c.group g
          k.all_groups
          (h q g (
            at-update_at (λ o p. group_of p ≡ some g → group_of o ≡ some g) (as_closed reason)
              (λ o y. y) (λ y z. z) r q k.all_candidates x));
    won = λ q g.
        at-update_at (λ o p. won_by p ≡ some g → won_by o ≡ some g) (as_closed reason) (λ o h. h)
          (λ x h. ground arith) r q k.all_candidates;
    cores = λ g.
        at-update_at (λ o p. core_of p ≡ core_of o) (without_leg c.wallet_key c.leg_session.id)
          (λ o. refl) (λ x. refl) c.group g k.all_groups;
    ended = refl;
  }

  pub close_candidate-Quiet :
      (r : ℕ) (reason : Text) (k : Coordinator) → Quiet k (close_candidate stable_key r reason k)
  unfolding close_candidate close_found close_in
  close_candidate-Quiet r reason k = of_candidate (candidate_at r k)
    where
      of_group : (c : Candidate) (o : Option Group) → Quiet k (close_in stable_key r reason c o k)
      of_group c none = Quiet-refl k
      of_group c (some gr) =
          if-cases (Quiet k) (is_closed c.status) _ _ (λ _. Quiet-refl k)
            (λ _. close_open-Quiet r reason c gr k)

      of_candidate : (o : Option Candidate) → Quiet k (close_found stable_key r reason o k)
      of_candidate none = Quiet-refl k
      of_candidate (some c) = of_group c (group_at c.group k)

  pub close_all-Quiet :
      (rs : List ℕ) (reason : Text) (k : Coordinator) → Quiet k (close_all stable_key rs reason k)
  unfolding close_all
  close_all-Quiet [] reason k = Quiet-refl k
  close_all-Quiet (r ∷ rs) reason k =
      Quiet-trans k (close_candidate stable_key r reason k) _ (close_candidate-Quiet r reason k)
        (close_all-Quiet rs reason (close_candidate stable_key r reason k))

  untrack_in-Quiet :
      (preserve : Bool) (r : ℕ) (o : Option Candidate) (gr : Group) (k : Coordinator)
      → Quiet k (untrack_in stable_key preserve r o gr k)
  unfolding untrack_in untrack_candidate won_at core_at IsGrouped
  untrack_in-Quiet preserve r none gr k = Quiet-refl k
  untrack_in-Quiet preserve r (some c) gr k = record {
    made = λ h. h;
    won = λ q g h. h;
    cores = λ g. refl;
    ended = refl;
  }

  pub untrack_all-Quiet :
      (preserve : Bool) (rs : List ℕ) (gr : Group) (k : Coordinator)
      → Quiet k (untrack_all stable_key preserve rs gr k)
  unfolding untrack_all
  untrack_all-Quiet preserve [] gr k = Quiet-refl k
  untrack_all-Quiet preserve (r ∷ rs) gr k =
      Quiet-trans k _ _ (untrack_in-Quiet _ r (candidate_at r k) gr k)
        (untrack_all-Quiet preserve rs gr _)

  spent_mono :
      (a b : Bool) (n : ℕ)
      → (a ≡ true → b ≡ true)
      → n ≤ (if a then 1 else 0)
      → n ≤ (if b then 1 else 0)
  spent_mono true true n h x = x
  spent_mono true false n h x = absurd (true≢false (sym (h refl)))
  spent_mono false b n h x = ground arith

  -- A group that ends, and nothing else.
  set_finished-Keeps : (g : ℕ) (k : Coordinator) → Keeps k (set_group g as_finished k)
  unfolding IsLocked IsSpent IsGrouped won_at core_at
  set_finished-Keeps g k = record {
    grouped = λ h q p x.
        at-update_at (λ o p. is_made (core_of o) ≡ true → is_made (core_of p) ≡ true) as_finished
          (λ o y. y) (λ y z. refl) g p k.all_groups (h q p x);
    locked = λ h r q x. same_winner q ∙ h r q x;
    winners = λ q r x. same_winner q ∙ x;
    spent = λ q.
        spent_mono (is_over (core_at q k)) (is_over (core_at q (set_group g as_finished k)))
          (count q k.destroyed)
          (at-update_at (λ o p. is_over (core_of o) ≡ true → is_over (core_of p) ≡ true) as_finished
            (λ o h. h) (λ x h. refl) g q k.all_groups);
  }
    where
      same_winner :
          (q : ℕ) → winner_in (core_at q (set_group g as_finished k)) ≡ winner_in (core_at q k)
      same_winner q =
          at-update_at (λ o p. winner_in (core_of p) ≡ winner_in (core_of o)) as_finished
            (λ o. refl) (λ x. refl) g q k.all_groups

  forget_group-Quiet : (g : ℕ) (gr : Group) (k : Coordinator) → Quiet k (forget_group g gr k)
  unfolding forget_group won_at core_at IsGrouped
  forget_group-Quiet g gr k = record {
    made = λ h. h;
    won = λ q g h. h;
    cores = λ g. refl;
    ended = refl;
  }

  -- After `set_group g as_finished`, the rest of `_finishGroup` is quiet.
  finished_rest-Quiet :
      (preserve : Bool) (g : ℕ) (gr : Group) (k : Coordinator)
      → Quiet k (forget_group g gr (untrack_all stable_key preserve (refs gr.candidates) gr k))
  finished_rest-Quiet preserve g gr k =
      Quiet-trans k _ _ (untrack_all-Quiet preserve (refs gr.candidates) gr k)
        (forget_group-Quiet g gr _)

  pub finish_group-Keeps :
      (preserve : Bool) (g : ℕ) (gr : Group) (k : Coordinator)
      → Keeps k (finish_group stable_key preserve g gr k)
  unfolding finish_group
  finish_group-Keeps preserve g gr k =
      if-cases (Keeps k) gr.finished _ _ (λ _. Keeps-refl k)
        (λ _.
          Keeps-trans k (set_group g as_finished k) _ (set_finished-Keeps g k)
            (Keeps-Quiet _ _ (finished_rest-Quiet preserve g gr (set_group g as_finished k))))

  -- The group that was written has ended.
  over_after :
      (g : ℕ) (c : Option ℕ × Bool) (k : Coordinator)
      → core_at g k ≡ some c
      → is_over (core_at g (set_group g as_finished k)) ≡ true
  unfolding core_at
  over_after g c k h = elim (Option-cases (group_at g k)) [
    | inl e ↦ absurd (none-ne-some c (sym (ap core_of e) ∙ h))
    | inr (gr, e) ↦ ap (λ o. is_over (core_of o)) (get_at-update_at as_finished gr g k.all_groups e)
  ]

  spent_step :
      (b over_k over_l : Bool) (n m : ℕ)
      → (b ≡ true → (over_k ≡ false) × (over_l ≡ true))
      → m ≡ n
      → (n ≤ (if over_k then 1 else 0) → m ≤ (if over_l then 1 else 0))
      → n ≤ (if over_k then 1 else 0)
      → (if b then suc m else m) ≤ (if over_l then 1 else 0)
  spent_step true over_k over_l n m h e keeps x = let both = h refl in ground arith
  spent_step false over_k over_l n m h e keeps x = keeps x

  IsSpent-destroy_session :
      (g h : ℕ) (k l : Coordinator)
      → is_over (core_at g k) ≡ false
      → is_over (core_at g l) ≡ true
      → l.destroyed ≡ k.destroyed
      → (IsSpent h k → IsSpent h l)
      → IsSpent h k
      → IsSpent h (destroy_session g l)
  unfolding IsSpent destroy_session core_at
  IsSpent-destroy_session g h k l before after same keeps =
      spent_step (g == h) (is_over (core_at h k)) (is_over (core_at h l)) (count h k.destroyed)
        (count h l.destroyed)
        (λ e.
          let here = (==_iff g h).0 e in
          (
            subst (λ q. is_over (core_at q k) ≡ false) here before,
            subst (λ q. is_over (core_at q l) ≡ true) here after,
          ))
        (ap (count h) same) keeps

  -- `_cleanupNoAnswer` and `failHandoff` of a group that has not ended.
  pub end_group-Keeps :
      (g : ℕ) (reason : Text) (gr : Group) (k : Coordinator)
      → group_at g k ≡ some gr
      → gr.finished ≡ false
      → Keeps k (end_group stable_key g reason gr k)
  unfolding end_group finish_group core_at IsLocked IsGrouped
  end_group-Keeps g reason gr k here live =
      let k₁ = close_all stable_key (refs gr.candidates) reason k in
      let k₂ = set_group g as_finished k₁ in
      let k₃ = forget_group g gr (untrack_all stable_key false (refs gr.candidates) gr k₂) in
      let closing = close_all-Quiet (refs gr.candidates) reason k in
      let rest = finished_rest-Quiet false g gr k₂ in
      let all =
        Keeps-trans k k₁ k₃ (Keeps-Quiet k k₁ closing)
          (Keeps-trans k₁ k₂ k₃ (set_finished-Keeps g k₁) (Keeps-Quiet k₂ k₃ rest)) in
      subst (λ b. Keeps k (destroy_session g (if b then k₁ else k₃))) (sym live)
        (destroyed-Keeps k k₃ all (ap (λ o. is_over (core_of o)) here ∙ live)
          (ap is_over (rest.cores g)
            ∙ over_after g (gr.winner_of_group, gr.finished) k₁ (closing.cores g ∙ ap core_of here))
          (rest.ended ∙ closing.ended))
    where
      destroyed-Keeps :
          (k l : Coordinator)
          → Keeps k l
          → is_over (core_at g k) ≡ false
          → is_over (core_at g l) ≡ true
          → l.destroyed ≡ k.destroyed
          → Keeps k (destroy_session g l)
      destroyed-Keeps k l keeps before after same = record {
        grouped = keeps.grouped;
        locked = keeps.locked;
        winners = keeps.winners;
        spent = λ h. IsSpent-destroy_session g h k l before after same (keeps.spent h);
      }
