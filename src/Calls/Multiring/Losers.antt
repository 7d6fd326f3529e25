-- ===== src/Calls/Multiring/Losers.antt =====
-- modules/calls/webrtc/MultiringCoordinator.js: the candidates that lose are closed.
use arnacon_webrtc_service.Shared.{
  ℕ, ◌≡◌, ◌≢◌, refl, sym, ap, ◌∙◌, true, false, Option, none, some, List, [], ◌∷◌, ◌==◌, if-cases,
  Text, text, inl, inr, ◌⊎◌, All, not, ==_iff,
}
use mathlib.Core.Bool.{true≢false}
use arnacon_webrtc_service.Calls.Multiring.Candidates.{
  Candidate, Group, Coordinator, is_closed, candidate_at, group_at, refs,
}
use arnacon_webrtc_service.Calls.Multiring.Groups.{
  untrack_candidate, close_open, close_in, close_found, close_candidate, close_all, active_of,
  is_active, as_closed,
}
use arnacon_webrtc_service.Calls.Multiring.Handlers.{all_but, lock_winner}
use arnacon_webrtc_service.Calls.Multiring.Objects.{
  at-update_at, get_at-update_at, get_at-update_at_other,
}
use arnacon_webrtc_service.Calls.Multiring.Keeps.{
  core_of, is_made, won_by, group_of, core_at, won_at, IsGrouped, Quiet,
}
use arnacon_webrtc_service.Calls.Multiring.Closes.{close_candidate-Quiet}
use arnacon_webrtc_service.Calls.Multiring.Locks.{written, written-Keeps, won_here}

module _ (stable_key : Text → Text → Text) where
  -- What closing a candidate does to the candidate `q`.
  close_candidate_at :
      (R : Option Candidate → Option Candidate → Type 0) (r q : ℕ) (reason : Text) (k : Coordinator)
      → ((o : Option Candidate) → R o o)
      → ((c : Candidate) → R (some c) (some (as_closed reason c)))
      → R (candidate_at q k) (candidate_at q (close_candidate stable_key r reason k))
  unfolding close_candidate close_found close_in close_open untrack_candidate
  close_candidate_at R r q reason k same step = of_candidate (candidate_at r k)
    where
      of_group :
          (c : Candidate) (o : Option Group)
          → R (candidate_at q k) (candidate_at q (close_in stable_key r reason c o k))
      of_group c none = same (candidate_at q k)
      of_group c (some gr) =
          if-cases (λ (l : Coordinator). R (candidate_at q k) (candidate_at q l))
            (is_closed c.status) _ _ (λ _. same (candidate_at q k))
            (λ _. at-update_at R (as_closed reason) same step r q k.all_candidates)

      of_candidate :
          (o : Option Candidate)
          → R (candidate_at q k) (candidate_at q (close_found stable_key r reason o k))
      of_candidate none = same (candidate_at q k)
      of_candidate (some c) = of_group c (group_at c.group k)

  stays_inactive :
      (r q : ℕ) (reason : Text) (k : Coordinator)
      → is_active k q ≡ false
      → is_active (close_candidate stable_key r reason k) q ≡ false
  stays_inactive r q reason k =
      close_candidate_at (λ o p. active_of o ≡ false → active_of p ≡ false) r q reason k (λ o h. h)
        (λ c h. refl)

  all_stay_inactive :
      (rs : List ℕ) (q : ℕ) (reason : Text) (k : Coordinator)
      → is_active k q ≡ false
      → is_active (close_all stable_key rs reason k) q ≡ false
  unfolding close_all
  all_stay_inactive [] q reason k h = h
  all_stay_inactive (r ∷ rs) q reason k h =
      all_stay_inactive rs q reason (close_candidate stable_key r reason k)
        (stays_inactive r q reason k h)

  -- A candidate of a group that was made is closed.
  closed_after :
      (r : ℕ) (reason : Text) (k : Coordinator)
      → IsGrouped k
      → is_active (close_candidate stable_key r reason k) r ≡ false
  unfolding close_candidate close_found close_in close_open untrack_candidate IsGrouped core_at
  closed_after r reason k grouped = of_candidate (candidate_at r k) refl
    where
      of_group :
          (c : Candidate) (o : Option Group)
          → candidate_at r k ≡ some c
          → is_made (core_of o) ≡ true
          → is_active (close_in stable_key r reason c o k) r ≡ false
      of_group c none here made = absurd (true≢false (sym made))
      of_group c (some gr) here made =
          if-cases (λ (l : Coordinator). is_active l r ≡ false) (is_closed c.status) _ _
            (λ done. ap active_of here ∙ ap not done)
            (λ _. ap active_of (get_at-update_at (as_closed reason) c r k.all_candidates here))

      of_candidate :
          (o : Option Candidate)
          → candidate_at r k ≡ o
          → is_active (close_found stable_key r reason o k) r ≡ false
      of_candidate none here = ap active_of here
      of_candidate (some c) here =
          of_group c (group_at c.group k) here (grouped r c.group (ap group_of here))

  All-close_all :
      (rs : List ℕ) (reason : Text) (k : Coordinator)
      → IsGrouped k
      → All (λ q. is_active (close_all stable_key rs reason k) q ≡ false) rs
  unfolding close_all
  All-close_all [] reason k grouped = tt
  All-close_all (r ∷ rs) reason k grouped =
      let l = close_candidate stable_key r reason k in
      (
        all_stay_inactive rs r reason l (closed_after r reason k grouped),
        All-close_all rs reason l
            (Quiet.made (close_candidate-Quiet stable_key r reason k) grouped),
      )

  close_candidate_other :
      (r q : ℕ) (reason : Text) (k : Coordinator)
      → q ≢ r
      → candidate_at q (close_candidate stable_key r reason k) ≡ candidate_at q k
  unfolding close_candidate close_found close_in close_open untrack_candidate
  close_candidate_other r q reason k other = of_candidate (candidate_at r k)
    where
      of_group :
          (c : Candidate) (o : Option Group)
          → candidate_at q (close_in stable_key r reason c o k) ≡ candidate_at q k
      of_group c none = refl
      of_group c (some gr) =
          if-cases (λ (l : Coordinator). candidate_at q l ≡ candidate_at q k) (is_closed c.status) _
            _ (λ _. refl)
            (λ _. get_at-update_at_other (as_closed reason) r q k.all_candidates other)

      of_candidate :
          (o : Option Candidate)
          → candidate_at q (close_found stable_key r reason o k) ≡ candidate_at q k
      of_candidate none = refl
      of_candidate (some c) = of_group c (group_at c.group k)

  close_all_but :
      (r : ℕ) (qs : List ℕ) (reason : Text) (k : Coordinator)
      → candidate_at r (close_all stable_key (all_but r qs) reason k) ≡ candidate_at r k
  unfolding close_all
  close_all_but r [] reason k = refl
  close_all_but r (q ∷ qs) reason k =
      if-cases
        (λ (rs : List ℕ). candidate_at r (close_all stable_key rs reason k) ≡ candidate_at r k)
        (q == r) _ _ (λ _. close_all_but r qs reason k)
        (λ e.
          close_all_but r qs reason (close_candidate stable_key q reason k)
          ∙ close_candidate_other q r reason k (λ h. true≢false (sym ((==_iff q r).1 (sym h)) ∙ e)))

  All-all_but :
      (P : ℕ → Type 0) (r : ℕ) (qs : List ℕ) → All P (all_but r qs) → All (λ q. (q ≡ r) ⊎ P q) qs
  All-all_but P r [] h = tt
  All-all_but P r (q ∷ qs) given =
      if-cases (λ (rs : List ℕ). All P rs → All (λ p. (p ≡ r) ⊎ P p) (q ∷ qs)) (q == r) _ _
        (λ e h. (inl ((==_iff q r).0 e), All-all_but P r qs h))
        (λ _ h. (inr h.0, All-all_but P r qs h.1)) given

  -- The lock leaves the one winner, and no other candidate of its group active.
  pub lock_winner-closes :
      (r : ℕ) (c : Candidate) (gr : Group) (k : Coordinator)
      → IsGrouped k
      → candidate_at r k ≡ some c
      → group_at c.group k ≡ some gr
      → gr.winner_of_group ≡ none
      → (won_at r (lock_winner stable_key r c gr k) ≡ some c.group)
        × All
            (λ q. (q ≡ r) ⊎ (is_active (lock_winner stable_key r c gr k) q ≡ false))
            (refs gr.candidates)
  unfolding lock_winner written won_at
  lock_winner-closes r c gr k grouped here group free =
      let l = written r c k in
      let loser = text "multiring-loser" in
      (
        ap won_by (close_all_but r (refs gr.candidates) loser l)
            ∙ won_here r c gr k here group free,
        All-all_but _ r (refs gr.candidates) (
            All-close_all (all_but r (refs gr.candidates)) loser l
              ((written-Keeps r c gr k here group free).grouped grouped)),
      )
