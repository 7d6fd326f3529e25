-- ===== src/Calls/Multiring/Events.antt =====
-- modules/calls/webrtc/MultiringCoordinator.js: what happens to a coordinator, in any order.
use arnacon_webrtc_service.Shared.{
  ℕ, ◌≤◌, ◌≡◌, refl, sym, ap, ◌∙◌, Bool, true, false, none, some, List, [], ◌∷◌, if◌then◌else◌,
  Text, text, TextMap, ◌⊎◌, All, arith,
}
use mathlib.Core.Path.{subst}
use mathlib.Core.Option.{none-ne-some, some-injective}
use arnacon_webrtc_service.Calls.Multiring.Candidates.{
  get_at, LegSession, Candidate, Group, Coordinator, is_closed, candidate_at, group_at, refs, Meta,
  Offer, candidate_for_meta,
}
use arnacon_webrtc_service.Calls.Multiring.Groups.{is_active}
use arnacon_webrtc_service.Calls.Multiring.Handlers.{
  handle_http_signal, answer_applied, handle_data_channel_open, handle_data_channel_message,
  handle_transport_closed, complete_handoff, fail_handoff, Reply, reply, lock_winner, answered_in,
  act_on, message_at, message_of,
}
use arnacon_webrtc_service.Calls.Multiring.Starts.{
  Destination, start_inbound, candidate_created, invite_failed, candidates_settled, timer_fires,
}
use arnacon_webrtc_service.Calls.Multiring.Keeps.{
  winner_in, is_over, core_at, won_at, count, IsGrouped, IsLocked, IsSpent, Keeps, Keeps-refl,
  Keeps-trans, Keeps-Quiet,
}
use arnacon_webrtc_service.Calls.Multiring.Handles.{
  add_group-Keeps, candidate_created-Quiet, invite_failed-Quiet, candidates_settled-Keeps,
  timer_fires-Keeps, handle_http_signal-Keeps, answer_applied-Quiet, data_channel_open-Quiet,
  handle_transport_closed-Keeps, complete_handoff-Keeps, fail_handoff-Keeps,
}
use arnacon_webrtc_service.Calls.Multiring.Locks.{data_channel_message-Keeps}
use arnacon_webrtc_service.Calls.Multiring.Losers.{lock_winner-closes}

-- A call of a method, or the rest of one after an `await`, with what the other modules gave it.
pub data Event : Type 0 where
  started : List Destination → Text → Text → Text → Event
  created : ℕ → Text → Text → LegSession → TextMap ℕ → Event
  failed_invite : ℕ → Text → Event
  settled : ℕ → Bool → Event
  timed_out : ℕ → Event
  signalled : Offer → Event
  applied : ℕ → Event
  opened : Text → Meta → Event
  messaged : Text → Meta → Text → Event
  transport_closed : Text → Event
  handed_off : ℕ → Event
  handoff_failed : ℕ → Text → Event

abbrev pub idle : Coordinator
idle = record {
  all_groups = [];
  all_candidates = [];
  groups = [];
  by_host_session = [];
  by_signaling_session = [];
  by_call_nonce_and_endpoint = [];
  by_peer_connection = [];
  sessions_by_user = [];
  sent = [];
  destroyed = [];
}

module _ (stable_key : Text → Text → Text) where
  unfoldable pub step : Event → Coordinator → Coordinator
  unfolding start_inbound candidate_created invite_failed candidates_settled timer_fires
      handle_http_signal answer_applied handle_data_channel_open handle_data_channel_message
      handle_transport_closed complete_handoff fail_handoff
  step (started targets host caller nonce) k = elim (start_inbound targets host caller nonce k) [
    | none ↦ k
    | some p ↦ p.1
  ]
  step (created g wallet ens leg legs) k = candidate_created stable_key g wallet ens leg legs k
  step (failed_invite g wallet) k = invite_failed stable_key g wallet k
  step (settled g any_invited) k = (candidates_settled stable_key g any_invited k).1
  step (timed_out g) k = timer_fires stable_key g k
  step (signalled offer) k = (handle_http_signal stable_key offer k).1
  step (applied r) k = answer_applied r k
  step (opened host meta) k = (handle_data_channel_open host meta k).1
  step (messaged host meta action) k = (handle_data_channel_message stable_key host meta action k).1
  step (transport_closed pc) k = (handle_transport_closed stable_key pc k).1
  step (handed_off g) k = complete_handoff stable_key g k
  step (handoff_failed g reason) k = fail_handoff stable_key g reason k

  unfoldable pub after_events : List Event → Coordinator → Coordinator
  unfolding step
  after_events [] k = k
  after_events (e ∷ es) k = after_events es (step e k)

  start-Keeps :
      (targets : List Destination) (host caller nonce : Text) (k : Coordinator)
      → Keeps k (step (started targets host caller nonce) k)
  unfolding step start_inbound
  start-Keeps [] host caller nonce k = Keeps-refl k
  start-Keeps (t ∷ ts) host caller nonce k = add_group-Keeps _ k refl refl

  step-Keeps : (e : Event) (k : Coordinator) → Keeps k (step e k)
  unfolding step
  step-Keeps (started targets host caller nonce) k = start-Keeps targets host caller nonce k
  step-Keeps (created g wallet ens leg legs) k =
      Keeps-Quiet k _ (candidate_created-Quiet stable_key g wallet ens leg legs k)
  step-Keeps (failed_invite g wallet) k =
      Keeps-Quiet k _ (invite_failed-Quiet stable_key g wallet k)
  step-Keeps (settled g any_invited) k = candidates_settled-Keeps stable_key g any_invited k
  step-Keeps (timed_out g) k = timer_fires-Keeps stable_key g k
  step-Keeps (signalled offer) k = handle_http_signal-Keeps stable_key offer k
  step-Keeps (applied r) k = Keeps-Quiet k _ (answer_applied-Quiet r k)
  step-Keeps (opened host meta) k = Keeps-Quiet k _ (data_channel_open-Quiet host meta k)
  step-Keeps (messaged host meta action) k =
      data_channel_message-Keeps stable_key host meta action k
  step-Keeps (transport_closed pc) k = handle_transport_closed-Keeps stable_key pc k
  step-Keeps (handed_off g) k = complete_handoff-Keeps stable_key g k
  step-Keeps (handoff_failed g reason) k = fail_handoff-Keeps stable_key g reason k

  events-Keeps : (es : List Event) (k : Coordinator) → Keeps k (after_events es k)
  unfolding after_events
  events-Keeps [] k = Keeps-refl k
  events-Keeps (e ∷ es) k = Keeps-trans k (step e k) _ (step-Keeps e k) (events-Keeps es (step e k))

  idle-IsGrouped : IsGrouped idle
  unfolding IsGrouped get_at core_at
  idle-IsGrouped r g h = absurd (none-ne-some g h)

  idle-IsLocked : IsLocked idle
  unfolding IsLocked won_at get_at core_at
  idle-IsLocked r g h = absurd (none-ne-some g h)

  -- Whatever happens to a coordinator, in any order, two candidates that have won one group are one
  -- candidate, which is the winner of the group.
  pub after_events-IsLocked :
      (es : List Event) (r q g : ℕ)
      → won_at r (after_events es idle) ≡ some g
      → won_at q (after_events es idle) ≡ some g
      → (r ≡ q) × (winner_in (core_at g (after_events es idle)) ≡ some r)
  unfolding IsLocked
  after_events-IsLocked es r q g h j =
      let locked = (events-Keeps es idle).locked idle-IsLocked in
      (some-injective r q (sym (locked r g h) ∙ locked q g j), locked r g h)

  -- The winner of a group stays its winner, whatever happens next.
  pub after_events-winner :
      (es : List Event) (k : Coordinator) (g r : ℕ)
      → winner_in (core_at g k) ≡ some r
      → winner_in (core_at g (after_events es k)) ≡ some r
  after_events-winner es k g r h = (events-Keeps es k).winners g r h

  -- Whatever happens to a coordinator, in any order, the host session of a group is destroyed at most
  -- once, and not before the group has ended.
  pub after_events-destroyed :
      (es : List Event) (g : ℕ)
      → count g (after_events es idle).destroyed
        ≤ (if is_over (core_at g (after_events es idle)) then 1 else 0)
  unfolding IsSpent
  after_events-destroyed es g = (events-Keeps es idle).spent g (spent_idle g)
    where
      spent_idle : (g : ℕ) → IsSpent g idle
      spent_idle g = ground arith

  answered-lock :
      (r : ℕ) (c : Candidate) (gr : Group) (k : Coordinator)
      → group_at c.group k ≡ some gr
      → gr.winner_of_group ≡ none
      → act_on stable_key r c (text "answer") k
        ≡ (reply true true false, lock_winner stable_key r c gr k)
  unfolding act_on answered_in
  answered-lock r c gr k group free = ap (λ o. answered_in stable_key r c o k) group ∙ rw (free)

  message-lock :
      (host : Text) (meta : Meta) (r : ℕ) (c : Candidate) (gr : Group) (k : Coordinator)
      → candidate_for_meta host meta k ≡ some r
      → candidate_at r k ≡ some c
      → is_closed c.status ≡ false
      → group_at c.group k ≡ some gr
      → gr.winner_of_group ≡ none
      → handle_data_channel_message stable_key host meta (text "answer") k
        ≡ (reply true true false, lock_winner stable_key r c gr k)
  unfolding handle_data_channel_message message_of message_at
  message-lock host meta r c gr k found here live group free =
      ap (λ o. message_of stable_key (text "answer") o k) found
      ∙ ap (λ o. message_at stable_key r (text "answer") o k) here
      ∙ ap (λ b. if b then (reply true false false, k) else act_on stable_key r c (text "answer") k)
          live
      ∙ answered-lock r c gr k group free

  -- After any events, the first answer of a group, from a candidate that is not closed, makes that
  -- candidate the winner of its group and closes the group's other candidates.
  pub data_channel_message-locks :
      (es : List Event) (host : Text) (meta : Meta) (r : ℕ) (c : Candidate) (gr : Group)
      → candidate_for_meta host meta (after_events es idle) ≡ some r
      → candidate_at r (after_events es idle) ≡ some c
      → is_closed c.status ≡ false
      → group_at c.group (after_events es idle) ≡ some gr
      → gr.winner_of_group ≡ none
      → (won_at r (step (messaged host meta (text "answer")) (after_events es idle)) ≡ some c.group)
        × All
            (λ q.
              (q ≡ r)
              ⊎ (is_active (step (messaged host meta (text "answer")) (after_events es idle)) q
                  ≡ false))
            (refs gr.candidates)
  unfolding step
  data_channel_message-locks es host meta r c gr found here live group free =
      let k = after_events es idle in
      let closes =
        lock_winner-closes stable_key r c gr k ((events-Keeps es idle).grouped idle-IsGrouped) here
          group free in
      subst
        (λ (l : Coordinator).
          (won_at r l ≡ some c.group)
          × All (λ q. (q ≡ r) ⊎ (is_active l q ≡ false)) (refs gr.candidates))
        (sym (
          ap (λ (o : Reply × Coordinator). o.1)
            (message-lock host meta r c gr k found here live group free)))
        closes
