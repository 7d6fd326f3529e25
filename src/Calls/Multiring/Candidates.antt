-- ===== src/Calls/Multiring/Candidates.antt =====
-- modules/calls/webrtc/MultiringCoordinator.js: the coordinator's objects and its maps of candidates.
-- A group, a candidate or a leg is a number where the code compares objects: its place in the list of
-- those that were made, or its number. A text is empty where the code's is missing.
use arnacon_webrtc_service.Shared.{
  ℕ, zero, suc, Bool, true, false, ◌&&◌, ◌||◌, Option, none, some, List, [], ◌∷◌, ◌++◌,
  if◌then◌else◌, ◌==◌, Text, text_eq, to_lower, TextMap, lookup,
}
use arnacon_webrtc_service.Runtime.CallPairRef.{identity_label}
use arnacon_webrtc_service.Runtime.SessionStore.{normalize_session_id}

-- An object in a list of objects, and the list with it changed.
unfoldable pub get_at {ℓ} : {A : Type ℓ} → ℕ → List A → Option A
get_at n [] = none
get_at zero (x ∷ xs) = some x
get_at (suc n) (x ∷ xs) = get_at n xs

unfoldable pub update_at {ℓ} : {A : Type ℓ} → ℕ → (A → A) → List A → List A
update_at n f [] = []
update_at zero f (x ∷ xs) = f x ∷ xs
update_at (suc n) f (x ∷ xs) = x ∷ update_at n f xs

pub data Status : Type 0 where
  ringing winner closed : Status

-- `legSession`: its identity, its wire session, its peer connection, and its data channel with
-- whether that is open.
pub record LegSession : Type 0 where
  pub id : ℕ
  pub signaling_session_id : Text
  pub peer_connection : Option Text
  pub data_channel : Option Bool
  pub multi_ring_pre_negotiated : Bool

pub record Candidate : Type 0 where
  pub group : ℕ
  pub wallet_key : Text
  pub ens_name : Text
  pub leg_session : LegSession
  pub status : Status
  pub close_reason : Text
  pub http_answered : Bool
  pub data_channel_open : Bool

-- A group with its host session: the identity of the caller and `outboundWebrtcLegs`.
pub record Group : Type 0 where
  pub host_session_id : Text
  pub caller_ens : Text
  pub outbound_legs : TextMap ℕ
  pub call_nonce : Text
  pub candidates : TextMap ℕ
  pub winner_of_group : Option ℕ
  pub finished : Bool
  pub timer : Bool

-- `groups` holds the groups that are not deleted, in order; `sent` the `end` messages with their
-- candidates and reasons, and `destroyed` the groups whose host session `destroySession` was called on.
pub record Coordinator : Type 0 where
  pub all_groups : List Group
  pub all_candidates : List Candidate
  pub groups : List ℕ
  pub by_host_session : TextMap ℕ
  pub by_signaling_session : TextMap ℕ
  pub by_call_nonce_and_endpoint : TextMap ℕ
  pub by_peer_connection : TextMap ℕ
  pub sessions_by_user : TextMap Text
  pub sent : List (ℕ × Text)
  pub destroyed : List ℕ

abbrev pub is_empty : Text → Bool
is_empty [] = true
is_empty (c ∷ t) = false

abbrev pub is_ringing : Status → Bool
is_ringing ringing = true
is_ringing _ = false

abbrev pub is_closed : Status → Bool
is_closed closed = true
is_closed _ = false

abbrev pub is_winner : Status → Bool
is_winner winner = true
is_winner _ = false

unfoldable pub label : Text → Text
unfolding identity_label to_lower
label t = identity_label (to_lower t)

-- `_nonceEndpointKey`.
unfoldable pub nonce_endpoint_key : Text → Text → Text
unfolding label
nonce_endpoint_key nonce endpoint =
    if is_empty nonce || is_empty (label endpoint) then [] else nonce ++ b'|' ∷ label endpoint

abbrev pub candidate_at : ℕ → Coordinator → Option Candidate
candidate_at r k = get_at r k.all_candidates

abbrev pub group_at : ℕ → Coordinator → Option Group
group_at g k = get_at g k.all_groups

abbrev pub set_candidate : ℕ → (Candidate → Candidate) → Coordinator → Coordinator
set_candidate r f k = record k { all_candidates = update_at r f k.all_candidates }

abbrev pub set_group : ℕ → (Group → Group) → Coordinator → Coordinator
set_group g f k = record k { all_groups = update_at g f k.all_groups }

abbrev pub refs : TextMap ℕ → List ℕ
refs [] = []
refs ((w, r) ∷ m) = r ∷ refs m

abbrev pub first_such : (ℕ → Bool) → List ℕ → Option ℕ
first_such p [] = none
first_such p (r ∷ rs) = if p r then some r else first_such p rs

abbrev pub else_try : Option ℕ → Option ℕ → Option ℕ
else_try none o = o
else_try (some r) o = some r

abbrev has_label : Coordinator → Text → ℕ → Bool
unfolding label get_at
has_label k endpoint r = elim (candidate_at r k) [
  | none ↦ false
  | some c ↦ text_eq (label c.ens_name) endpoint
]

abbrev rings_as : Coordinator → Text → ℕ → Bool
unfolding label get_at
rings_as k endpoint r = elim (candidate_at r k) [
  | none ↦ false
  | some c ↦ is_ringing c.status && text_eq (label c.ens_name) endpoint
]

abbrev of_group : Coordinator → ℕ → ℕ → Bool
unfolding get_at
of_group k g r = elim (candidate_at r k) [ none ↦ false | some c ↦ c.group == g ]

abbrev only_if : (ℕ → Bool) → Option ℕ → Option ℕ
only_if p none = none
only_if p (some r) = if p r then some r else none

abbrev unless_empty : Text → Option ℕ → Option ℕ
unless_empty [] o = none
unless_empty (c ∷ t) o = o

pub record Meta : Type 0 where
  pub wallet_address : Text
  pub callee_identity : Text
  pub meta_session_id : Text

-- `_candidateForMeta`.
abbrev candidate_in : ℕ → Group → Meta → Coordinator → Option ℕ
unfolding lookup label normalize_session_id has_label of_group to_lower
candidate_in g gr meta k =
    let wallet = to_lower meta.wallet_address in
    let endpoint = label meta.callee_identity in
    let signaling_id = normalize_session_id meta.meta_session_id in
    else_try (unless_empty wallet (lookup wallet gr.candidates)) (
      else_try (unless_empty endpoint (first_such (has_label k endpoint) (refs gr.candidates))) (
        unless_empty signaling_id
          (only_if (of_group k g) (lookup signaling_id k.by_signaling_session))))

unfoldable pub candidate_for_meta : Text → Meta → Coordinator → Option ℕ
unfolding lookup candidate_in get_at
candidate_for_meta host_session_id meta k = elim (lookup host_session_id k.by_host_session) [
  | none ↦ none
  | some g ↦ elim (group_at g k) [ none ↦ none | some gr ↦ candidate_in g gr meta k ]
]

pub data OfferType : Type 0 where
  answer reject cancel other_type : OfferType

pub record Offer : Type 0 where
  pub type_of : OfferType
  pub nonce : Text
  pub sender : Text
  pub session_id : Text

abbrev candidates_of : Coordinator → List ℕ → List ℕ
unfolding get_at
candidates_of k [] = []
candidates_of k (g ∷ gs) = elim (group_at g k) [
  | none ↦ candidates_of k gs
  | some gr ↦ refs gr.candidates ++ candidates_of k gs
]

-- `_candidateForOffer`.
unfoldable pub candidate_for_offer : Offer → Coordinator → Option ℕ
unfolding lookup nonce_endpoint_key label normalize_session_id rings_as candidates_of
candidate_for_offer offer k =
    let key = nonce_endpoint_key offer.nonce offer.sender in
    else_try (unless_empty key (lookup key k.by_call_nonce_and_endpoint)) (
      else_try (lookup (normalize_session_id offer.session_id) k.by_signaling_session) (
        unless_empty (label offer.sender)
          (first_such (rings_as k (label offer.sender)) (candidates_of k k.groups))))
