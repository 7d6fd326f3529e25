-- ===== src/Calls/Multiring/Groups.antt =====
-- modules/calls/webrtc/MultiringCoordinator.js: tracking a candidate and closing it, and the end of a
-- group. `dc.send` of an open channel and `close` do not throw; logs are left out.
use arnacon_webrtc_service.Shared.{
  ℕ, Bool, true, false, ◌&&◌, ◌||◌, not, Option, none, some, List, [], ◌∷◌, ◌++◌, if◌then◌else◌,
  ◌==◌, Text, text_eq, TextMap, lookup, insert, delete, any,
}
use arnacon_webrtc_service.Runtime.SessionStore.{normalize_session_id}
use arnacon_webrtc_service.Calls.Multiring.Candidates.{
  get_at, update_at, closed, Candidate, Group, Coordinator, is_closed, nonce_endpoint_key,
  candidate_at, group_at, set_group, refs,
}

-- `Map.delete` of a key that leads to the candidate.
unfoldable pub delete_ref : Text → ℕ → TextMap ℕ → TextMap ℕ
unfolding lookup delete
delete_ref key r m = elim (lookup key m) [ none ↦ m | some q ↦ if q == r then delete key m else m ]

abbrev pub delete_peer : Option Text → ℕ → TextMap ℕ → TextMap ℕ
unfolding delete_ref
delete_peer none r m = m
delete_peer (some pc) r m = delete_ref pc r m

abbrev pub insert_peer : Option Text → ℕ → TextMap ℕ → TextMap ℕ
unfolding insert
insert_peer none r m = m
insert_peer (some pc) r m = insert pc r m

unfoldable pub delete_pair : Text → Text → TextMap Text → TextMap Text
unfolding lookup delete text_eq
delete_pair key host_session_id m = elim (lookup key m) [
  | none ↦ m
  | some id ↦ if text_eq id host_session_id then delete key m else m
]

-- `_sendLegMessage` of an `end`, whose missing channel is no failure.
abbrev send_end : ℕ → Option Bool → Text → List (ℕ × Text) → List (ℕ × Text)
send_end r none reason sent = sent
send_end r (some false) reason sent = sent
send_end r (some true) reason sent = sent ++ (r, reason) ∷ []

abbrev pub as_closed : Text → Candidate → Candidate
as_closed reason c = record c {
  status = closed;
  close_reason = reason;
  leg_session = record c.leg_session { peer_connection = none; data_channel = none };
}

unfoldable pub without_leg : Text → ℕ → Group → Group
unfolding delete_ref
without_leg wallet leg gr = record gr { outbound_legs = delete_ref wallet leg gr.outbound_legs }

abbrev pub active_of : Option Candidate → Bool
active_of none = false
active_of (some c) = not (is_closed c.status)

abbrev pub is_active : Coordinator → ℕ → Bool
is_active k r = active_of (candidate_at r k)

-- Whether `_activeCandidates` of a group is empty.
unfoldable pub none_active : Group → Coordinator → Bool
unfolding get_at
none_active gr k = not (any (is_active k) (refs gr.candidates))

abbrev is_ref : ℕ → Option ℕ → Bool
is_ref r none = false
is_ref r (some q) = q == r

abbrev pub others : ℕ → List ℕ → List ℕ
others g [] = []
others g (h ∷ hs) = if h == g then others g hs else h ∷ others g hs

abbrev pub as_finished : Group → Group
as_finished gr = record gr { finished = true; timer = false }

unfoldable pub forget_group : ℕ → Group → Coordinator → Coordinator
unfolding delete_ref
forget_group g gr k = record k {
  groups = others g k.groups;
  by_host_session = delete_ref gr.host_session_id g k.by_host_session;
}

unfoldable pub destroy_session : ℕ → Coordinator → Coordinator
destroy_session g k = record k { destroyed = g ∷ k.destroyed }

abbrev pub is_some : Option ℕ → Bool
is_some none = false
is_some (some r) = true

-- `stableKey` is a parameter of the coordinator.
module _ (stable_key : Text → Text → Text) where
  -- `_trackCandidate`, of a candidate of a group.
  unfoldable pub track_candidate : ℕ → Candidate → Group → Coordinator → Coordinator
  unfolding insert update_at normalize_session_id nonce_endpoint_key
  track_candidate r c gr k = record k {
    all_groups =
        update_at c.group
          (λ (h : Group). record h { candidates = insert c.wallet_key r h.candidates })
          k.all_groups;
    sessions_by_user =
        insert (stable_key c.ens_name gr.caller_ens) gr.host_session_id k.sessions_by_user;
    by_signaling_session =
        insert (normalize_session_id c.leg_session.signaling_session_id) r k.by_signaling_session;
    by_call_nonce_and_endpoint =
        insert (nonce_endpoint_key gr.call_nonce c.ens_name) r k.by_call_nonce_and_endpoint;
    by_peer_connection = insert_peer c.leg_session.peer_connection r k.by_peer_connection;
  }

  -- `_untrackCandidate`.
  unfoldable pub untrack_candidate : Bool → ℕ → Candidate → Group → Coordinator → Coordinator
  unfolding delete_ref delete_pair delete_peer normalize_session_id nonce_endpoint_key
  untrack_candidate preserve_pair r c gr k = record k {
    sessions_by_user =
        if preserve_pair
        then k.sessions_by_user
        else delete_pair (stable_key c.ens_name gr.caller_ens) gr.host_session_id
            k.sessions_by_user;
    by_signaling_session =
        delete_ref (normalize_session_id c.leg_session.signaling_session_id) r
          k.by_signaling_session;
    by_call_nonce_and_endpoint =
        delete_ref (nonce_endpoint_key gr.call_nonce c.ens_name) r k.by_call_nonce_and_endpoint;
    by_peer_connection = delete_peer c.leg_session.peer_connection r k.by_peer_connection;
  }

  unfoldable pub close_open : ℕ → Text → Candidate → Group → Coordinator → Coordinator
  unfolding untrack_candidate without_leg update_at
  close_open r reason c gr k =
      let after = untrack_candidate false r c gr k in
      record after {
        all_candidates = update_at r (as_closed reason) k.all_candidates;
        all_groups = update_at c.group (without_leg c.wallet_key c.leg_session.id) k.all_groups;
        sent = send_end r c.leg_session.data_channel reason k.sent;
      }

  unfoldable pub close_in : ℕ → Text → Candidate → Option Group → Coordinator → Coordinator
  unfolding close_open
  close_in r reason c none k = k
  close_in r reason c (some gr) k = if is_closed c.status then k else close_open r reason c gr k

  -- `closeCandidate`. Every candidate has its group.
  unfoldable pub close_found : ℕ → Text → Option Candidate → Coordinator → Coordinator
  unfolding close_in get_at
  close_found r reason none k = k
  close_found r reason (some c) k = close_in r reason c (group_at c.group k) k

  unfoldable pub close_candidate : ℕ → Text → Coordinator → Coordinator
  unfolding close_found get_at
  close_candidate r reason k = close_found r reason (candidate_at r k) k

  unfoldable pub close_all : List ℕ → Text → Coordinator → Coordinator
  close_all [] reason k = k
  close_all (r ∷ rs) reason k = close_all rs reason (close_candidate r reason k)

  unfoldable pub untrack_in : Bool → ℕ → Option Candidate → Group → Coordinator → Coordinator
  unfolding untrack_candidate
  untrack_in preserve r none gr k = k
  untrack_in preserve r (some c) gr k = untrack_candidate preserve r c gr k

  unfoldable pub untrack_all : Bool → List ℕ → Group → Coordinator → Coordinator
  unfolding untrack_in get_at
  untrack_all preserve [] gr k = k
  untrack_all preserve (r ∷ rs) gr k =
      untrack_all preserve rs gr
        (untrack_in (preserve && is_ref r gr.winner_of_group) r (candidate_at r k) gr k)

  -- `_finishGroup`.
  unfoldable pub finish_group : Bool → ℕ → Group → Coordinator → Coordinator
  unfolding untrack_all update_at forget_group
  finish_group preserve g gr k =
      if gr.finished
      then k
      else forget_group g gr
          (untrack_all preserve (refs gr.candidates) gr (set_group g as_finished k))

  -- What `_cleanupNoAnswer` and `failHandoff` share.
  unfoldable pub end_group : ℕ → Text → Group → Coordinator → Coordinator
  unfolding close_all finish_group destroy_session
  end_group g reason gr k =
      destroy_session g (finish_group false g gr (close_all (refs gr.candidates) reason k))

  unfoldable pub cleanup_found : ℕ → Text → Option Group → Coordinator → Coordinator
  unfolding end_group
  cleanup_found g reason none k = k
  cleanup_found g reason (some gr) k =
      if gr.finished || is_some gr.winner_of_group then k else end_group g reason gr k

  -- `_cleanupNoAnswer`.
  unfoldable pub cleanup_no_answer : ℕ → Text → Coordinator → Coordinator
  unfolding cleanup_found get_at
  cleanup_no_answer g reason k = cleanup_found g reason (group_at g k) k
