-- ===== src/Calls/Multiring/Locks.antt =====
-- modules/calls/webrtc/MultiringCoordinator.js: the answer that locks a winner.
use arnacon_webrtc_service.Shared.{
  ℕ, ◌≤◌, ◌≡◌, ◌≢◌, refl, sym, ap, ◌∙◌, true, ◌||◌, Option, none, some, if◌then◌else◌, ◌==◌,
  if-cases, option-cases, Text, text, inl, inr, text_eq,
}
use mathlib.Core.Option.{none-ne-some, some-injective}
use arnacon_webrtc_service.Calls.Multiring.Candidates.{
  update_at, Candidate, Group, Coordinator, is_closed, candidate_at, group_at, set_candidate,
  set_group, refs, Meta, candidate_for_meta,
}
use arnacon_webrtc_service.Calls.Multiring.Handlers.{
  as_winner, with_winner, all_but, lock_winner, Reply, answered_in, act_on, message_at, message_of,
  handle_data_channel_message,
}
use arnacon_webrtc_service.Calls.Multiring.Objects.{
  at-update_at, get_at-update_at, get_at-update_at_other, ref-cases,
}
use arnacon_webrtc_service.Calls.Multiring.Keeps.{
  core_of, is_made, group_of, IsGrouped, winner_in, is_over, won_by, core_at, won_at, count,
  IsLocked, IsSpent, Keeps, Keeps-refl, Keeps-trans, Keeps-Quiet,
}
use arnacon_webrtc_service.Calls.Multiring.Closes.{close_candidate-Quiet, close_all-Quiet}
use arnacon_webrtc_service.Calls.Multiring.Handles.{decline-Keeps}

-- The two writes of a lock.
unfoldable pub written : ℕ → Candidate → Coordinator → Coordinator
unfolding update_at
written r c k = set_candidate r as_winner (set_group c.group (with_winner r) k)

module _ (r : ℕ) (c : Candidate) (gr : Group) (k : Coordinator)
    (candidate : candidate_at r k ≡ some c) (group : group_at c.group k ≡ some gr)
    (free : gr.winner_of_group ≡ none) where
  locked_here : winner_in (core_at c.group (written r c k)) ≡ some r
  unfolding core_at written
  locked_here =
      ap (λ o. winner_in (core_of o))
        (get_at-update_at (with_winner r) gr c.group k.all_groups group)

  pub won_here : won_at r (written r c k) ≡ some c.group
  unfolding won_at written
  won_here = ap won_by (get_at-update_at as_winner c r k.all_candidates candidate)

  won_elsewhere : (q : ℕ) → q ≢ r → won_at q (written r c k) ≡ won_at q k
  unfolding won_at written
  won_elsewhere q h = ap won_by (get_at-update_at_other as_winner r q k.all_candidates h)

  winners_kept :
      (g q : ℕ) → winner_in (core_at g k) ≡ some q → winner_in (core_at g (written r c k)) ≡ some q
  unfolding core_at written
  winners_kept g q won = elim (ref-cases g c.group) [
    | inl e ↦ absurd (
        none-ne-some q (
          sym free
          ∙ sym (ap (λ o. winner_in (core_of o)) group)
          ∙ ap (λ h. winner_in (core_at h k)) (sym e)
          ∙ won))
    | inr other ↦
        ap (λ o. winner_in (core_of o))
          (get_at-update_at_other (with_winner r) c.group g k.all_groups other)
        ∙ won
  ]

  pub written-Keeps : Keeps k (written r c k)
  unfolding IsLocked IsSpent IsGrouped core_at written
  written-Keeps = record {
    grouped = λ h q g x.
        at-update_at (λ o p. is_made (core_of o) ≡ true → is_made (core_of p) ≡ true)
          (with_winner r) (λ o y. y) (λ y z. refl) c.group g k.all_groups
          (h q g (
            at-update_at (λ o p. group_of p ≡ some g → group_of o ≡ some g) as_winner (λ o y. y)
              (λ y z. z) r q k.all_candidates x));
    locked = λ h q g won. elim (ref-cases q r) [
      | inl e ↦
          let here =
            some-injective g c.group (sym won ∙ ap (λ p. won_at p (written r c k)) e ∙ won_here) in
          ap (λ p. winner_in (core_at p (written r c k))) here ∙ locked_here ∙ ap some (sym e)
      | inr other ↦ winners_kept g q (h q g (sym (won_elsewhere q other) ∙ won))
    ];
    winners = winners_kept;
    spent = λ g.
        at-update_at
          (λ o p.
            count g k.destroyed ≤ (if is_over (core_of o) then 1 else 0)
            → count g k.destroyed ≤ (if is_over (core_of p) then 1 else 0))
          (with_winner r) (λ o x. x) (λ x y. y) c.group g k.all_groups;
  }

  pub lock_winner-Keeps :
      (stable_key : Text → Text → Text) → Keeps k (lock_winner stable_key r c gr k)
  unfolding lock_winner written
  lock_winner-Keeps stable_key = Keeps-trans k (written r c k) _ written-Keeps (
      Keeps-Quiet (written r c k) _
        (close_all-Quiet stable_key (all_but r (refs gr.candidates)) _ (written r c k)))

module _ (stable_key : Text → Text → Text) where
  answered_in-Keeps :
      (r : ℕ) (c : Candidate) (k : Coordinator)
      → candidate_at r k ≡ some c
      → Keeps k (answered_in stable_key r c (group_at c.group k) k).1
  unfolding answered_in
  answered_in-Keeps r c k candidate = of_group (group_at c.group k) refl
    where
      of_group :
          (o : Option Group) → group_at c.group k ≡ o → Keeps k (answered_in stable_key r c o k).1
      of_group none here = Keeps-refl k
      of_group (some gr) here =
          option-cases (λ (o : Reply × Coordinator). Keeps k o.1) gr.winner_of_group _ _
            (λ free. lock_winner-Keeps r c gr k candidate here free stable_key)
            (λ w _.
              if-cases (λ (o : Reply × Coordinator). Keeps k o.1) (w == r) _ _ (λ _. Keeps-refl k)
                (λ _. Keeps-Quiet k _ (close_candidate-Quiet stable_key r _ k)))

  act_on-Keeps :
      (r : ℕ) (c : Candidate) (action : Text) (k : Coordinator)
      → candidate_at r k ≡ some c
      → Keeps k (act_on stable_key r c action k).1
  unfolding act_on
  act_on-Keeps r c action k candidate =
      if-cases (λ (o : Reply × Coordinator). Keeps k o.1) (text_eq action (text "answer")) _ _
        (λ _. answered_in-Keeps r c k candidate)
        (λ _.
          if-cases (λ (o : Reply × Coordinator). Keeps k o.1)
            (text_eq action (text "reject")
              || (text_eq action (text "cancel") || text_eq action (text "end")))
            _ _ (λ _. decline-Keeps stable_key r c _ _ k) (λ _. Keeps-refl k))

  message_at-Keeps :
      (r : ℕ) (action : Text) (k : Coordinator) (o : Option Candidate)
      → candidate_at r k ≡ o
      → Keeps k (message_at stable_key r action o k).1
  unfolding message_at
  message_at-Keeps r action k none here = Keeps-refl k
  message_at-Keeps r action k (some c) here =
      if-cases (λ (o : Reply × Coordinator). Keeps k o.1) (is_closed c.status) _ _
        (λ _. Keeps-refl k) (λ _. act_on-Keeps r c action k here)

  message_of-Keeps :
      (action : Text) (k : Coordinator) (o : Option ℕ)
      → Keeps k (message_of stable_key action o k).1
  unfolding message_of
  message_of-Keeps action k none = Keeps-refl k
  message_of-Keeps action k (some r) = message_at-Keeps r action k (candidate_at r k) refl

  pub data_channel_message-Keeps :
      (host : Text) (meta : Meta) (action : Text) (k : Coordinator)
      → Keeps k (handle_data_channel_message stable_key host meta action k).1
  unfolding handle_data_channel_message
  data_channel_message-Keeps host meta action k =
      message_of-Keeps action k (candidate_for_meta host meta k)
