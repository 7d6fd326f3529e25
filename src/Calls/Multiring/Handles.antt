-- ===== src/Calls/Multiring/Handles.antt =====
-- modules/calls/webrtc/MultiringCoordinator.js: what each handler leaves of the winners, and of the
-- groups that have ended.
use arnacon_webrtc_service.Shared.{
  ℕ, ◌≤◌, ◌≡◌, refl, sym, ap, ◌∙◌, Bool, true, false, ◌||◌, Option, none, some, if◌then◌else◌,
  if-cases, option-cases, Text, TextMap, ||_left, lookup, length,
}
use mathlib.Core.Path.{subst}
use mathlib.Core.Option.{some-injective}
use arnacon_webrtc_service.Calls.Multiring.Candidates.{
  LegSession, Candidate, Group, Coordinator, is_winner, is_ringing, candidate_at, group_at,
  set_candidate, set_group, Meta, Offer, OfferType, answer, reject, cancel, other_type,
  candidate_for_meta, candidate_for_offer,
}
use arnacon_webrtc_service.Calls.Multiring.Groups.{
  track_candidate, close_candidate, none_active, cleanup_found, cleanup_no_answer, is_some,
}
use arnacon_webrtc_service.Calls.Multiring.Handlers.{
  cleanup_if_idle, decline, Reaction, http_ringing, handle_http_signal, answer_applied,
  handle_data_channel_open, fail_handoff, handle_transport_closed, complete_handoff,
}
use arnacon_webrtc_service.Calls.Multiring.Starts.{
  add_group, new_candidate, append_candidate, with_legs, created_in, candidate_created, fails_found,
  invite_failed, candidates_settled, timer_fires,
}
use arnacon_webrtc_service.Calls.Multiring.Objects.{at-update_at, at-append}
use arnacon_webrtc_service.Calls.Multiring.Keeps.{
  core_of, is_made, group_of, IsGrouped, winner_in, is_over, won_by, core_at, won_at, count,
  IsLocked, IsSpent, Keeps, Keeps-refl, Keeps-trans, Quiet, Quiet-refl, Quiet-trans, Keeps-Quiet,
}
use arnacon_webrtc_service.Calls.Multiring.Closes.{
  close_candidate-Quiet, finish_group-Keeps, end_group-Keeps,
}

pub add_group-Keeps :
    (gr : Group) (k : Coordinator)
    → gr.winner_of_group ≡ none
    → gr.finished ≡ false
    → Keeps k (add_group gr k)
unfolding add_group IsLocked IsSpent IsGrouped won_at core_at
add_group-Keeps gr k free live = record {
  grouped = λ h q p x.
      at-append (λ o p. is_made (core_of o) ≡ true → is_made (core_of p) ≡ true) gr (λ o y. y)
        (λ y. refl) p k.all_groups (h q p x);
  locked = λ h r q x. same_winner q ∙ h r q x;
  winners = λ q r x. same_winner q ∙ x;
  spent = λ q. subst (λ b. count q k.destroyed ≤ (if b then 1 else 0)) (sym (same_over q));
}
  where
    same_winner : (q : ℕ) → winner_in (core_at q (add_group gr k)) ≡ winner_in (core_at q k)
    same_winner q =
        at-append (λ o p. winner_in (core_of p) ≡ winner_in (core_of o)) gr (λ o. refl) free q
          k.all_groups

    same_over : (q : ℕ) → is_over (core_at q (add_group gr k)) ≡ is_over (core_at q k)
    same_over q =
        at-append (λ o p. is_over (core_of p) ≡ is_over (core_of o)) gr (λ o. refl) live q
          k.all_groups

-- A write of a group that leaves its winner and whether it has ended.
set_group-Quiet :
    (g : ℕ) (f : Group → Group) (k : Coordinator)
    → ((x : Group) → core_of (some (f x)) ≡ core_of (some x))
    → Quiet k (set_group g f k)
unfolding won_at core_at IsGrouped
set_group-Quiet g f k step = record {
  made = λ h q p x.
      at-update_at (λ o p. is_made (core_of o) ≡ true → is_made (core_of p) ≡ true) f (λ o y. y)
        (λ y z. ap is_made (step y) ∙ z) g p k.all_groups (h q p x);
  won = λ r g h. h;
  cores = λ q. at-update_at (λ o p. core_of p ≡ core_of o) f (λ o. refl) step g q k.all_groups;
  ended = refl;
}

-- A write of a candidate that leaves its group and its status.
set_candidate-Quiet :
    (r : ℕ) (f : Candidate → Candidate) (k : Coordinator)
    → ((x : Candidate) → won_by (some (f x)) ≡ won_by (some x))
    → ((x : Candidate) → (f x).group ≡ x.group)
    → Quiet k (set_candidate r f k)
unfolding won_at core_at IsGrouped
set_candidate-Quiet r f k step stays = record {
  made = λ h q g x. h q g (
      at-update_at (λ o p. group_of p ≡ some g → group_of o ≡ some g) f (λ o y. y)
        (λ y z. ap some (sym (stays y)) ∙ z) r q k.all_candidates x);
  won = λ q g.
      at-update_at (λ o p. won_by p ≡ some g → won_by o ≡ some g) f (λ o h. h)
        (λ x h. sym (step x) ∙ h) r q k.all_candidates;
  cores = λ g. refl;
  ended = refl;
}

pub answer_applied-Quiet : (r : ℕ) (k : Coordinator) → Quiet k (answer_applied r k)
unfolding answer_applied
answer_applied-Quiet r k = set_candidate-Quiet r _ k (λ x. refl) (λ x. refl)

pub data_channel_open-Quiet :
    (host : Text) (meta : Meta) (k : Coordinator) → Quiet k (handle_data_channel_open host meta k).1
unfolding handle_data_channel_open
data_channel_open-Quiet host meta k =
    option-cases (λ (o : Bool × Coordinator). Quiet k o.1) (candidate_for_meta host meta k) _ _
      (λ _. Quiet-refl k)
      (λ r _.
        option-cases (λ (o : Bool × Coordinator). Quiet k o.1) (candidate_at r k) _ _
          (λ _. Quiet-refl k)
          (λ c _.
            if-cases (λ (o : Bool × Coordinator). Quiet k o.1) (is_ringing c.status) _ _
              (λ _. set_candidate-Quiet r _ k (λ x. refl) (λ x. refl)) (λ _. Quiet-refl k)))

-- A candidate that is made rings.
append_candidate-Quiet :
    (g : ℕ) (wallet ens : Text) (leg : LegSession) (k : Coordinator)
    → is_made (core_at g k) ≡ true
    → Quiet k (append_candidate (new_candidate g wallet ens leg) k)
unfolding won_at core_at IsGrouped
append_candidate-Quiet g wallet ens leg k here = record {
  made = λ h q p x.
      at-append
        (λ o n.
          (group_of o ≡ some p → is_made (core_at p k) ≡ true)
          → group_of n ≡ some p
          → is_made (core_at p k) ≡ true)
        (new_candidate g wallet ens leg) (λ o y. y)
        (λ _ y. ap (λ m. is_made (core_at m k)) (sym (some-injective g p y)) ∙ here) q
        k.all_candidates (h q p) x;
  won = λ q h.
      at-append (λ o p. won_by p ≡ some h → won_by o ≡ some h) (new_candidate g wallet ens leg)
        (λ o e. e) (λ e. e) q k.all_candidates;
  cores = λ q. refl;
  ended = refl;
}

module _ (stable_key : Text → Text → Text) where
  pub cleanup_no_answer-Keeps :
      (g : ℕ) (reason : Text) (k : Coordinator) → Keeps k (cleanup_no_answer stable_key g reason k)
  unfolding cleanup_no_answer cleanup_found
  cleanup_no_answer-Keeps g reason k = of_group (group_at g k) refl
    where
      of_group :
          (o : Option Group) → group_at g k ≡ o → Keeps k (cleanup_found stable_key g reason o k)
      of_group none here = Keeps-refl k
      of_group (some gr) here =
          if-cases (Keeps k) (gr.finished || is_some gr.winner_of_group) _ _ (λ _. Keeps-refl k)
            (λ e.
              end_group-Keeps stable_key g reason gr k here
                (||_left gr.finished (is_some gr.winner_of_group) e))

  track_candidate-Quiet :
      (r : ℕ) (c : Candidate) (gr : Group) (k : Coordinator)
      → Quiet k (track_candidate stable_key r c gr k)
  unfolding track_candidate won_at core_at IsGrouped
  track_candidate-Quiet r c gr k = record {
    made = λ h q p x.
        at-update_at (λ o p. is_made (core_of o) ≡ true → is_made (core_of p) ≡ true) _ (λ o y. y)
          (λ y z. refl) c.group p k.all_groups (h q p x);
    won = λ q h e. e;
    cores = λ q.
        at-update_at (λ o p. core_of p ≡ core_of o) _ (λ o. refl) (λ x. refl) c.group q
          k.all_groups;
    ended = refl;
  }

  pub candidate_created-Quiet :
      (g : ℕ) (wallet ens : Text) (leg : LegSession) (legs : TextMap ℕ) (k : Coordinator)
      → Quiet k (candidate_created stable_key g wallet ens leg legs k)
  unfolding candidate_created created_in core_at
  candidate_created-Quiet g wallet ens leg legs k = of_group (group_at g k) refl
    where
      of_group :
          (o : Option Group)
          → group_at g k ≡ o
          → Quiet k (created_in stable_key g wallet ens leg legs o k)
      of_group none here = Quiet-refl k
      of_group (some gr) here =
          let k₁ = set_group g (with_legs legs) k in
          let k₂ = append_candidate (new_candidate g wallet ens leg) k₁ in
          let quiet = set_group-Quiet g (with_legs legs) k (λ x. refl) in
          let made = ap is_made (quiet.cores g ∙ ap core_of here) in
          Quiet-trans k k₁ _ quiet (
            Quiet-trans k₁ k₂ _ (append_candidate-Quiet g wallet ens leg k₁ made) (
              track_candidate-Quiet (length k.all_candidates) (new_candidate g wallet ens leg) gr
                k₂))

  pub invite_failed-Quiet :
      (g : ℕ) (wallet : Text) (k : Coordinator) → Quiet k (invite_failed stable_key g wallet k)
  unfolding invite_failed fails_found
  invite_failed-Quiet g wallet k =
      option-cases (Quiet k) (group_at g k) _ _ (λ _. Quiet-refl k)
        (λ gr _. of_candidate (lookup wallet gr.candidates))
    where
      of_candidate : (o : Option ℕ) → Quiet k (fails_found stable_key o k)
      of_candidate none = Quiet-refl k
      of_candidate (some r) = close_candidate-Quiet stable_key r _ k

  pub candidates_settled-Keeps :
      (g : ℕ) (any_invited : Bool) (k : Coordinator)
      → Keeps k (candidates_settled stable_key g any_invited k).1
  unfolding candidates_settled
  candidates_settled-Keeps g false k = cleanup_no_answer-Keeps g _ k
  candidates_settled-Keeps g true k = Keeps-Quiet k _ (set_group-Quiet g _ k (λ x. refl))

  pub timer_fires-Keeps : (g : ℕ) (k : Coordinator) → Keeps k (timer_fires stable_key g k)
  unfolding timer_fires
  timer_fires-Keeps g k =
      option-cases (Keeps k) (group_at g k) _ _ (λ _. Keeps-refl k)
        (λ gr _.
          if-cases (Keeps k) gr.timer _ _ (λ _. cleanup_no_answer-Keeps g _ k) (λ _. Keeps-refl k))

  pub decline-Keeps :
      (r : ℕ) (c : Candidate) (reason when_idle : Text) (k : Coordinator)
      → Keeps k (decline stable_key r c reason when_idle k)
  unfolding decline cleanup_if_idle
  decline-Keeps r c reason when_idle k =
      let l = close_candidate stable_key r reason k in
      Keeps-trans k l _ (Keeps-Quiet k l (close_candidate-Quiet stable_key r reason k)) (
        option-cases (Keeps l) (group_at c.group l) _ _ (λ _. Keeps-refl l)
          (λ gr _.
            if-cases (Keeps l) (none_active gr l) _ _
              (λ _. cleanup_no_answer-Keeps c.group when_idle l) (λ _. Keeps-refl l)))

  http_ringing-Keeps :
      (r : ℕ) (c : Candidate) (type_of : OfferType) (k : Coordinator)
      → Keeps k (http_ringing stable_key r c type_of k).1
  unfolding http_ringing
  http_ringing-Keeps r c answer k =
      if-cases (λ (o : Reaction × Coordinator). Keeps k o.1) c.http_answered _ _ (λ _. Keeps-refl k)
        (λ _. Keeps-refl k)
  http_ringing-Keeps r c reject k = decline-Keeps r c _ _ k
  http_ringing-Keeps r c cancel k = decline-Keeps r c _ _ k
  http_ringing-Keeps r c other_type k = Keeps-refl k

  pub handle_http_signal-Keeps :
      (offer : Offer) (k : Coordinator) → Keeps k (handle_http_signal stable_key offer k).1
  unfolding handle_http_signal
  handle_http_signal-Keeps offer k =
      option-cases (λ (o : Reaction × Coordinator). Keeps k o.1) (candidate_for_offer offer k) _ _
        (λ _. Keeps-refl k)
        (λ r _.
          option-cases (λ (o : Reaction × Coordinator). Keeps k o.1) (candidate_at r k) _ _
            (λ _. Keeps-refl k)
            (λ c _.
              if-cases (λ (o : Reaction × Coordinator). Keeps k o.1) (is_ringing c.status) _ _
                (λ _. http_ringing-Keeps r c offer.type_of k) (λ _. Keeps-refl k)))

  pub fail_handoff-Keeps :
      (g : ℕ) (reason : Text) (k : Coordinator) → Keeps k (fail_handoff stable_key g reason k)
  unfolding fail_handoff
  fail_handoff-Keeps g reason k =
      option-cases (Keeps k) (group_at g k) _ _ (λ _. Keeps-refl k)
        (λ gr here.
          if-cases (Keeps k) gr.finished _ _ (λ _. Keeps-refl k)
            (λ live. end_group-Keeps stable_key g reason gr k here live))

  pub handle_transport_closed-Keeps :
      (pc : Text) (k : Coordinator) → Keeps k (handle_transport_closed stable_key pc k).1
  unfolding handle_transport_closed
  handle_transport_closed-Keeps pc k =
      option-cases (λ (o : Bool × Coordinator). Keeps k o.1) (lookup pc k.by_peer_connection) _ _
        (λ _. Keeps-refl k)
        (λ r _.
          option-cases (λ (o : Bool × Coordinator). Keeps k o.1) (candidate_at r k) _ _
            (λ _. Keeps-refl k)
            (λ c _.
              if-cases (λ (o : Bool × Coordinator). Keeps k o.1) (is_winner c.status) _ _
                (λ _. fail_handoff-Keeps c.group _ k) (λ _. decline-Keeps r c _ _ k)))

  pub complete_handoff-Keeps : (g : ℕ) (k : Coordinator) → Keeps k (complete_handoff stable_key g k)
  unfolding complete_handoff
  complete_handoff-Keeps g k =
      option-cases (Keeps k) (group_at g k) _ _ (λ _. Keeps-refl k)
        (λ gr _.
          option-cases (Keeps k) gr.winner_of_group _ _ (λ _. Keeps-refl k)
            (λ w _. finish_group-Keeps stable_key true g gr k))
