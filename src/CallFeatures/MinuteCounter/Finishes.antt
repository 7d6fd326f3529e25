-- ===== src/CallFeatures/MinuteCounter/Finishes.antt =====
-- modules/callFeatures/minuteCounter/MinuteCounter.js: `finish` and `getUsedSeconds` together.
use arnacon_webrtc_service.Shared.{
  ℕ, zero, suc, ◌+◌, ◌≡◌, refl, ◌∙◌, ap, none, some, [], ◌∷◌, if-cases, if◌then◌else◌, Text,
  text_eq, text_eq_refl, arith,
}
use arnacon_webrtc_service.CallFeatures.MinuteCounter.Entries.{
  Date, Counter, Active, Counting, normalize_service_id, normalize_identity, month_text,
}
use arnacon_webrtc_service.CallFeatures.MinuteCounter.Usage.{look_up, used_of, get_used_seconds}
use arnacon_webrtc_service.CallFeatures.MinuteCounter.Sessions.{
  billed_seconds, charged, finish_active, finish,
}
use arnacon_webrtc_service.CallFeatures.MinuteCounter.Accounts.{
  balance, if_same_month, balance-charge,
}

-- `getUsedSeconds` of normalized names.
abbrev used : Date → Text → Text → Counter → ℕ
unfolding look_up
used today s i c = (used_of s i (look_up today s i c) c).0

charged-used :
    (today later : Date) (k n : ℕ) (s i : Text) (c : Counter)
    → (charged today k s i c).0 ≡ suc n
    → used later s i (charged today k s i c).1
      ≡ if_same_month today later (used today s i c + suc n)
unfolding charged used look_up balance
charged-used today later zero n s i c e = ground arith
charged-used today later (suc k) n [] i c e = ground arith
charged-used today later (suc k) n (x ∷ s) [] c e = ground arith
charged-used today later (suc k) n (x ∷ s) (y ∷ i) c e =
    if-cases
      (λ (r : ℕ × Counter).
        r.0 ≡ suc n
        → used later (x ∷ s) (y ∷ i) r.1
          ≡ if_same_month today later (used today (x ∷ s) (y ∷ i) c + suc n))
      c.has_file _ _
      (λ on e.
        balance-charge today later (suc k) (x ∷ s) (y ∷ i) c on
        ∙ ap (λ a. if_same_month today later (used today (x ∷ s) (y ∷ i) c + a)) e)
      (λ off e. ground arith) e

charged-same :
    (today : Date) (k : ℕ) (s i : Text) (c : Counter)
    → (charged today k s i c).0 ≡ 0
    → (charged today k s i c).1 ≡ c
unfolding charged
charged-same today zero s i c e = refl
charged-same today (suc k) [] i c e = refl
charged-same today (suc k) (x ∷ s) [] c e = refl
charged-same today (suc k) (x ∷ s) (y ∷ i) c e =
    if-cases (λ (r : ℕ × Counter). r.0 ≡ 0 → r.1 ≡ c) c.has_file _ _ (λ on e. ground arith)
      (λ off e. refl) e

charged-adds :
    (today : Date) (k : ℕ) (s i : Text) (c : Counter)
    → used today s i (charged today k s i c).1 ≡ used today s i c + (charged today k s i c).0
unfolding if_same_month
charged-adds today k s i c = by_seconds (charged today k s i c).0 refl
  where
    by_seconds :
        (n : ℕ)
        → (charged today k s i c).0 ≡ n
        → used today s i (charged today k s i c).1 ≡ used today s i c + n
    by_seconds zero e = ap (used today s i) (charged-same today k s i c e) ∙ omega arith
    by_seconds (suc n) e =
        charged-used today today k n s i c e
        ∙ ap (λ b. if b then used today s i c + suc n else 0) (text_eq_refl (month_text today))

-- What `finish` returns is what the account of the session's service and identity gains: on the same
-- day, `getUsedSeconds` tells that many seconds more after it than before.
pub get_used_seconds-finish :
    (today : Date) (now : ℕ) (active : Active) (c : Counter)
    → (get_used_seconds today active.service_id active.identity
        (finish today now (some active) c).2).0
      ≡ (get_used_seconds today active.service_id active.identity c).0
        + (finish today now (some active) c).0
unfolding finish finish_active get_used_seconds used
get_used_seconds-finish today now active c =
    let s = normalize_service_id active.service_id in
    let i = normalize_identity active.identity in
    if-cases (λ (r : ℕ × Counting × Counter). used today s i r.2 ≡ used today s i c + r.0)
      active.finished _ _ (λ _. omega arith)
      (λ _. charged-adds today (billed_seconds now active.started_at) s i c)

-- When `finish` adds seconds, on any later day `getUsedSeconds` tells the new sum if the day is in the
-- month of the call, and 0 if it is in another.
pub get_used_seconds-finish_later :
    (today later : Date) (now n : ℕ) (active : Active) (c : Counter)
    → (finish today now (some active) c).0 ≡ suc n
    → (get_used_seconds later active.service_id active.identity
        (finish today now (some active) c).2).0
      ≡ (if text_eq (month_text today) (month_text later)
          then (get_used_seconds today active.service_id active.identity c).0 + suc n
          else 0)
unfolding finish finish_active get_used_seconds used if_same_month
get_used_seconds-finish_later today later now n active c =
    let s = normalize_service_id active.service_id in
    let i = normalize_identity active.identity in
    if-cases
      (λ (r : ℕ × Counting × Counter).
        r.0 ≡ suc n → used later s i r.2 ≡ if_same_month today later (used today s i c + suc n))
      active.finished _ _ (λ _ e. ground arith)
      (λ _. charged-used today later (billed_seconds now active.started_at) n s i c)

-- A second `finish` of a session, whenever it comes, adds nothing and changes nothing.
pub finish-finish :
    (today later : Date) (now then_now : ℕ) (session : Counting) (c : Counter)
    → finish later then_now (finish today now session c).1 (finish today now session c).2
      ≡ (0, (finish today now session c).1, (finish today now session c).2)
unfolding finish finish_active
finish-finish today later now then_now none c = refl
finish-finish today later now then_now (some active) c =
    if-cases (λ (r : ℕ × Counting × Counter). finish later then_now r.1 r.2 ≡ (0, r.1, r.2))
      active.finished _ _ (λ done. rw (done)) (λ _. refl)
