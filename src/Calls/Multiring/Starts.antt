-- ===== src/Calls/Multiring/Starts.antt =====
-- modules/calls/webrtc/MultiringCoordinator.js: the start of a group and its candidates, and its timer.
use arnacon_webrtc_service.Shared.{
  ℕ, zero, suc, Bool, true, false, ◌&&◌, not, Option, none, some, List, [], ◌∷◌, ◌++◌,
  if◌then◌else◌, Text, text, to_lower, TextMap, lookup, insert, length,
}
use arnacon_webrtc_service.Calls.Multiring.Candidates.{
  get_at, update_at, ringing, LegSession, Candidate, Group, Coordinator, is_empty, group_at,
  set_group,
}
use arnacon_webrtc_service.Calls.Multiring.Groups.{
  track_candidate, close_candidate, cleanup_no_answer,
}

pub record Destination : Type 0 where
  pub wallet : Text
  pub ens : Text

-- `MAX_TARGETS`.
abbrev pub max_targets : ℕ
max_targets = 5

abbrev take {ℓ} : {A : Type ℓ} → ℕ → List A → List A
take n [] = []
take zero (x ∷ xs) = []
take (suc n) (x ∷ xs) = x ∷ take n xs

abbrev pub new_group : Text → Text → Text → Group
new_group host_session_id caller_ens nonce = record {
  host_session_id = host_session_id;
  caller_ens = caller_ens;
  outbound_legs = [];
  call_nonce = nonce;
  candidates = [];
  winner_of_group = none;
  finished = false;
  timer = false;
}

unfoldable pub add_group : Group → Coordinator → Coordinator
unfolding insert
add_group gr k = record k {
  all_groups = k.all_groups ++ gr ∷ [];
  groups = k.groups ++ length k.all_groups ∷ [];
  by_host_session = insert gr.host_session_id (length k.all_groups) k.by_host_session;
}

-- `startInbound` up to its candidates, for the host session that `createSession` made: none where it
-- throws, or the targets to create candidates for.
unfoldable pub start_inbound :
    List Destination → Text → Text → Text → Coordinator → Option (List Destination × Coordinator)
unfolding add_group
start_inbound [] host_session_id caller_ens nonce k = none
start_inbound (t ∷ ts) host_session_id caller_ens nonce k =
    some (take max_targets (t ∷ ts), add_group (new_group host_session_id caller_ens nonce) k)

abbrev is_free : Option ℕ → Bool
is_free none = true
is_free (some r) = false

-- The test that `_createCandidate` begins with.
unfoldable pub creates : Destination → Group → Bool
unfolding to_lower lookup
creates d gr =
    not (is_empty (to_lower d.wallet)) && is_free (lookup (to_lower d.wallet) gr.candidates)

abbrev pub new_candidate : ℕ → Text → Text → LegSession → Candidate
new_candidate g wallet ens leg = record {
  group = g;
  wallet_key = wallet;
  ens_name = ens;
  leg_session = leg;
  status = ringing;
  close_reason = [];
  http_answered = false;
  data_channel_open = false;
}

abbrev pub append_candidate : Candidate → Coordinator → Coordinator
append_candidate c k = record k { all_candidates = k.all_candidates ++ c ∷ [] }

abbrev pub with_legs : TextMap ℕ → Group → Group
with_legs legs gr = record gr { outbound_legs = legs }

module _ (stable_key : Text → Text → Text) where
  unfoldable pub created_in :
      ℕ → Text → Text → LegSession → TextMap ℕ → Option Group → Coordinator → Coordinator
  unfolding track_candidate update_at
  created_in g wallet ens leg legs none k = k
  created_in g wallet ens leg legs (some gr) k =
      let c = new_candidate g wallet ens leg in
      track_candidate stable_key (length k.all_candidates) c gr
        (append_candidate c (set_group g (with_legs legs) k))

  -- `_createCandidate` once the factory made the leg, and wrote the legs of the host session.
  unfoldable pub candidate_created :
      ℕ → Text → Text → LegSession → TextMap ℕ → Coordinator → Coordinator
  unfolding created_in get_at
  candidate_created g wallet ens leg legs k = created_in g wallet ens leg legs (group_at g k) k

  unfoldable pub fails_found : Option ℕ → Coordinator → Coordinator
  unfolding close_candidate
  fails_found none k = k
  fails_found (some r) k = close_candidate stable_key r (text "multiring-invite-failed") k

  -- The `catch` of `_createCandidate`.
  unfoldable pub invite_failed : ℕ → Text → Coordinator → Coordinator
  unfolding fails_found get_at lookup
  invite_failed g wallet k = elim (group_at g k) [
    | none ↦ k
    | some gr ↦ fails_found (lookup wallet gr.candidates) k
  ]

  -- The rest of `startInbound`, by whether some candidate was invited: false where it throws.
  unfoldable pub candidates_settled : ℕ → Bool → Coordinator → Bool × Coordinator
  unfolding cleanup_no_answer update_at
  candidates_settled g false k =
      (false, cleanup_no_answer stable_key g (text "multiring-no-candidate") k)
  candidates_settled g true k = (true, set_group g (λ (gr : Group). record gr { timer = true }) k)

  -- The timer of a group, if it still runs.
  unfoldable pub timer_fires : ℕ → Coordinator → Coordinator
  unfolding cleanup_no_answer get_at
  timer_fires g k = elim (group_at g k) [
    | none ↦ k
    | some gr ↦ if gr.timer then cleanup_no_answer stable_key g (text "inbound-timeout") k else k
  ]
