-- ===== src/Calls/Multiring/Handlers.antt =====
-- modules/calls/webrtc/MultiringCoordinator.js: the signals of a group's clients, and the handoff. An
-- async function is one function up to each `await`, and one from it.
use arnacon_webrtc_service.Shared.{
  ℕ, Bool, true, false, ◌||◌, Option, none, some, List, [], ◌∷◌, ◌++◌, if◌then◌else◌, ◌==◌, Text,
  text, text_eq, lookup,
}
use arnacon_webrtc_service.Calls.Multiring.Candidates.{
  get_at, update_at, winner, Candidate, Group, Coordinator, is_closed, is_ringing, is_winner,
  candidate_at, group_at, set_candidate, set_group, refs, Meta, Offer, answer, reject, cancel,
  other_type, OfferType, candidate_for_meta, candidate_for_offer,
}
use arnacon_webrtc_service.Calls.Multiring.Groups.{
  close_candidate, close_all, none_active, finish_group, cleanup_no_answer, end_group,
}

abbrev pub is_ours : ℕ → Option ℕ → Bool
is_ours r none = false
is_ours r (some q) = q == r

abbrev pub action_of : Text → Text → Text → Text
unfolding text_eq
action_of msg_type action payload_type =
    if text_eq msg_type (text "signaling")
    then if text_eq action (text "end-call") then text "end" else payload_type
    else action

pub record Reply : Type 0 where
  pub handled : Bool
  pub won : Bool
  pub duplicate : Bool

abbrev pub reply : Bool → Bool → Bool → Reply
reply h w d = record { handled = h; won = w; duplicate = d }

-- What `handleHttpSignal` does after its test: nothing, waits for `applySessionAnswer` of a candidate,
-- or answers the request.
pub data Reaction : Type 0 where
  ignored : Reaction
  applies : ℕ → Reaction
  responds : Reaction

abbrev pub as_winner : Candidate → Candidate
as_winner c = record c {
  status = winner;
  leg_session = record c.leg_session { multi_ring_pre_negotiated = true };
}

abbrev pub with_winner : ℕ → Group → Group
with_winner r gr = record gr { winner_of_group = some r; timer = false }

abbrev pub all_but : ℕ → List ℕ → List ℕ
all_but r [] = []
all_but r (q ∷ qs) = if q == r then all_but r qs else q ∷ all_but r qs

-- `handleHttpSignal` after `applySessionAnswer`.
unfoldable pub answer_applied : ℕ → Coordinator → Coordinator
unfolding update_at
answer_applied r k = set_candidate r (λ (c : Candidate). record c { http_answered = true }) k

-- `handleDataChannelOpen`.
unfoldable pub handle_data_channel_open : Text → Meta → Coordinator → Bool × Coordinator
unfolding candidate_for_meta get_at update_at
handle_data_channel_open host_session_id meta k = elim (candidate_for_meta host_session_id meta k) [
  | none ↦ (false, k)
  | some r ↦ elim (candidate_at r k) [
    | none ↦ (false, k)
    | some c ↦
        if is_ringing c.status
        then (true, set_candidate r (λ (d : Candidate). record d { data_channel_open = true }) k)
        else (false, k)
  ]
]

module _ (stable_key : Text → Text → Text) where
  unfoldable pub cleanup_if_idle : ℕ → Text → Coordinator → Coordinator
  unfolding none_active cleanup_no_answer get_at
  cleanup_if_idle g reason k = elim (group_at g k) [
    | none ↦ k
    | some gr ↦ if none_active gr k then cleanup_no_answer stable_key g reason k else k
  ]

  -- Closing a candidate, and its group with it if none is left.
  unfoldable pub decline : ℕ → Candidate → Text → Text → Coordinator → Coordinator
  unfolding close_candidate cleanup_if_idle
  decline r c reason when_idle k =
      cleanup_if_idle c.group when_idle (close_candidate stable_key r reason k)

  unfoldable pub http_ringing : ℕ → Candidate → OfferType → Coordinator → Reaction × Coordinator
  unfolding decline
  http_ringing r c answer k = if c.http_answered then (responds, k) else (applies r, k)
  http_ringing r c reject k =
      (responds, decline r c (text "multiring-reject") (text "multiring-all-declined") k)
  http_ringing r c cancel k =
      (responds, decline r c (text "multiring-cancel") (text "multiring-all-declined") k)
  http_ringing r c other_type k = (ignored, k)

  -- `handleHttpSignal` up to `applySessionAnswer`.
  unfoldable pub handle_http_signal : Offer → Coordinator → Reaction × Coordinator
  unfolding candidate_for_offer http_ringing get_at
  handle_http_signal offer k = elim (candidate_for_offer offer k) [
    | none ↦ (ignored, k)
    | some r ↦ elim (candidate_at r k) [
      | none ↦ (ignored, k)
      | some c ↦ if is_ringing c.status then http_ringing r c offer.type_of k else (ignored, k)
    ]
  ]

  -- An answer, of a candidate that is not closed.
  unfoldable pub lock_winner : ℕ → Candidate → Group → Coordinator → Coordinator
  unfolding close_all update_at
  lock_winner r c gr k =
      close_all stable_key (all_but r (refs gr.candidates)) (text "multiring-loser")
        (set_candidate r as_winner (set_group c.group (with_winner r) k))

  unfoldable pub answered_in : ℕ → Candidate → Option Group → Coordinator → Reply × Coordinator
  unfolding lock_winner close_candidate
  answered_in r c none k = (reply true false false, k)
  answered_in r c (some gr) k = elim gr.winner_of_group [
    | none ↦ (reply true true false, lock_winner r c gr k)
    | some w ↦
        if w == r
        then (reply true true true, k)
        else (reply true false false, close_candidate stable_key r (text "multiring-loser") k)
  ]

  -- The rest of `handleDataChannelMessage`, of a candidate that is not closed.
  unfoldable pub act_on : ℕ → Candidate → Text → Coordinator → Reply × Coordinator
  unfolding answered_in decline text_eq get_at
  act_on r c action k =
      if text_eq action (text "answer")
      then answered_in r c (group_at c.group k) k
      else if text_eq action (text "reject")
          || (text_eq action (text "cancel") || text_eq action (text "end"))
      then (
        reply true false false,
        decline r c (text "multiring-" ++ action) (text "multiring-all-declined") k,
      )
      else (reply true false false, k)

  unfoldable pub message_at : ℕ → Text → Option Candidate → Coordinator → Reply × Coordinator
  unfolding act_on
  message_at r action none k = (reply false false false, k)
  message_at r action (some c) k =
      if is_closed c.status then (reply true false false, k) else act_on r c action k

  unfoldable pub message_of : Text → Option ℕ → Coordinator → Reply × Coordinator
  unfolding message_at get_at
  message_of action none k = (reply false false false, k)
  message_of action (some r) k = message_at r action (candidate_at r k) k

  -- `handleDataChannelMessage`.
  unfoldable pub handle_data_channel_message :
      Text → Meta → Text → Coordinator → Reply × Coordinator
  unfolding candidate_for_meta message_of
  handle_data_channel_message host_session_id meta action k =
      message_of action (candidate_for_meta host_session_id meta k) k

  -- `failHandoff`.
  unfoldable pub fail_handoff : ℕ → Text → Coordinator → Coordinator
  unfolding end_group get_at
  fail_handoff g reason k = elim (group_at g k) [
    | none ↦ k
    | some gr ↦ if gr.finished then k else end_group stable_key g reason gr k
  ]

  -- `handleTransportClosed`.
  unfoldable pub handle_transport_closed : Text → Coordinator → Bool × Coordinator
  unfolding lookup fail_handoff decline get_at
  handle_transport_closed pc k = elim (lookup pc k.by_peer_connection) [
    | none ↦ (false, k)
    | some r ↦ elim (candidate_at r k) [
      | none ↦ (false, k)
      | some c ↦
          if is_winner c.status
          then (true, fail_handoff c.group (text "multiring-winner-transport-closed") k)
          else (
            true,
            decline r c (text "multiring-transport-closed") (text "multiring-all-transports-closed")
                k,
          )
    ]
  ]

  -- `completeHandoff`.
  unfoldable pub complete_handoff : ℕ → Coordinator → Coordinator
  unfolding finish_group get_at
  complete_handoff g k = elim (group_at g k) [
    | none ↦ k
    | some gr ↦ elim gr.winner_of_group [ none ↦ k | some w ↦ finish_group stable_key true g gr k ]
  ]
