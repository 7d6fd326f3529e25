-- ===== src/Runtime/SessionStore.antt =====
-- modules/runtime/SessionStore.js: the sessions of clients, by their ids and by the pairs they are
-- for, and the forms of a number that lead to one. Timers and native objects are left out.
pub mod Lookups
pub mod Numbers
pub mod Links
use arnacon_webrtc_service.Shared.{
  ℕ, Bool, true, false, ◌&&◌, ◌||◌, not, Option, none, some, List, [], ◌∷◌, ◌++◌, map,
  if◌then◌else◌, any, all, length, ltb, ◌==◌, Text, text, text_eq, TextMap, lookup, insert, delete,
  drop_where,
}
use arnacon_webrtc_service.Runtime.CallPairRef.{identity_label, pair_key_from_identities}

-- `split("|")`, with the part read so far.
unfoldable pub split_bar : Text → Text → List Text
split_bar part [] = part ∷ []
split_bar part (c ∷ t) =
    let cut = part ∷ split_bar [] t in
    let rest = split_bar (part ++ c ∷ []) t in if c == b'|' then cut else rest

unfoldable pub join_bar : List Text → Text
join_bar [] = []
join_bar (p ∷ []) = p
join_bar (p ∷ q ∷ ps) = p ++ b'|' ∷ join_bar (q ∷ ps)

-- `normalizeSessionId`: each part between the bars is labelled.
unfoldable pub normalize_session_id : Text → Text
unfolding split_bar join_bar identity_label
normalize_session_id id =
    if any (λ c. c == b'|') id then join_bar (map identity_label (split_bar [] id)) else id

-- What the store reads of a session.
pub record ClientSession : Type 0 where
  pub session_id : Text
  pub caller_ens : Text
  pub to_identity : Text
  pub phase : Text
  pub created_at : ℕ
  pub is_gateway_caller : Bool
  pub linked_session_id : Option Text
  pub bridged_with : Option Text

-- Fields of SessionStore; its two maps of pending calls are used by other code alone.
pub record Store : Type 0 where
  pub sessions : TextMap ClientSession
  pub sessions_by_user : TextMap Text

abbrev pub new_store : Store
new_store = record { sessions = []; sessions_by_user = [] }

unfoldable pub get : Text → Store → Option ClientSession
unfolding lookup
get id st = lookup id st.sessions

abbrev pub get_if : Option Text → Store → Option ClientSession
unfolding get
get_if none st = none
get_if (some []) st = none
get_if (some (c ∷ t)) st = get (c ∷ t) st

-- `getByUser`.
unfoldable pub get_by_user : Text → Store → Option ClientSession
unfolding lookup
get_by_user key st = get_if (lookup key st.sessions_by_user) st

abbrev index : Text → Text → Text → TextMap Text → TextMap Text
unfolding insert pair_key_from_identities
index [] to id m = m
index (c ∷ t) [] id m = m
index (c ∷ t) (d ∷ u) id m = insert (pair_key_from_identities (c ∷ t) (d ∷ u)) id m

abbrev pub session_of : ℕ → Text → Text → Text → ClientSession
session_of now id caller to = record {
  session_id = id;
  caller_ens = caller;
  to_identity = to;
  phase = text "handshake";
  created_at = now;
  is_gateway_caller = false;
  linked_session_id = none;
  bridged_with = none;
}

-- `createSession`.
unfoldable pub create_session : ℕ → Text → Text → Text → Store → ClientSession × Store
unfolding insert normalize_session_id pair_key_from_identities
create_session now id caller to st =
    let canonical = normalize_session_id id in
    let session = session_of now canonical caller to in
    (
      session,
      record {
        sessions = insert canonical session st.sessions;
        sessions_by_user = index caller to canonical st.sessions_by_user;
      },
    )

abbrev is_id : Text → Option Text → Bool
unfolding text_eq
is_id id none = false
is_id id (some other) = text_eq other id

-- The index without the pair of a session, where it leads to that session.
abbrev pub unindex : Text → Text → Text → TextMap Text → TextMap Text
unfolding lookup delete pair_key_from_identities text_eq
unindex id [] to m = m
unindex id (c ∷ t) [] m = m
unindex id (c ∷ t) (d ∷ u) m =
    let key = pair_key_from_identities (c ∷ t) (d ∷ u) in
    if is_id id (lookup key m) then delete key m else m

abbrev unlinked : Text → ClientSession → ClientSession
unfolding text_eq
unlinked id s = record s {
  linked_session_id = if is_id id s.linked_session_id then none else s.linked_session_id;
  bridged_with = if is_id id s.bridged_with then none else s.bridged_with;
}

abbrev pub unlink_at :
    Text → Text → Option ClientSession → TextMap ClientSession → TextMap ClientSession
unfolding insert text_eq
unlink_at id peer none m = m
unlink_at id peer (some s) m = insert peer (unlinked id s) m

-- The session that the destroyed one is linked to forgets the link.
abbrev pub unlink_peer : Text → Option Text → TextMap ClientSession → TextMap ClientSession
unfolding lookup unlink_at
unlink_peer id none m = m
unlink_peer id (some []) m = m
unlink_peer id (some (c ∷ t)) m = unlink_at id (c ∷ t) (lookup (c ∷ t) m) m

unfoldable pub destroy_found : Text → Option ClientSession → Store → Store
unfolding lookup delete unlink_peer
destroy_found id none st = st
destroy_found id (some s) st = record {
  sessions = delete id (unlink_peer id s.linked_session_id st.sessions);
  sessions_by_user = unindex id s.caller_ens s.to_identity st.sessions_by_user;
}

-- `destroySession`.
unfoldable pub destroy_session : Text → Store → Store
unfolding lookup destroy_found
destroy_session id st = destroy_found id (lookup id st.sessions) st

-- `normalizeNumber`: without the plus, and none for the empty text.
abbrev pub normalize_number : Text → Option Text
normalize_number [] = none
normalize_number (c ∷ t) = some (if c == b'+' then t else c ∷ t)

abbrev is_digit : ℕ → Bool
is_digit c = not (ltb c b'0') && not (ltb b'9' c)

-- `/^\d+$/`.
abbrev pub digits_only : Text → Bool
digits_only [] = false
digits_only (c ∷ t) = is_digit c && all is_digit t

-- The rest of the text after a prefix.
abbrev after : Text → Text → Option Text
after [] t = some t
after (c ∷ p) [] = none
after (c ∷ p) (d ∷ t) = if c == d then after p t else none

abbrev local_form : Option Text → List Text
local_form none = []
local_form (some []) = []
local_form (some (c ∷ t)) = (b'0' ∷ c ∷ t) ∷ []

abbrev world_form : Option Text → List Text
world_form none = []
world_form (some []) = []
world_form (some (c ∷ t)) = (b'9' ∷ b'7' ∷ b'2' ∷ c ∷ t) ∷ []

abbrev is_none : Option Text → Bool
is_none none = true
is_none (some t) = false

abbrev bare_forms : Text → List Text
bare_forms t =
    if length t == 9 && (is_none (after (text "0") t) && is_none (after (text "972") t))
    then (b'0' ∷ t) ∷ (b'9' ∷ b'7' ∷ b'2' ∷ t) ∷ []
    else []

-- The forms of a number, in the order in which the set takes them.
unfoldable pub forms : Text → List Text
forms base =
    base
    ∷ (if digits_only base
        then world_form (after (text "0") base)
          ++ (local_form (after (text "972") base) ++ bare_forms base)
        else [])

abbrev forms_if : Option Text → List Text
unfolding forms
forms_if none = []
forms_if (some []) = []
forms_if (some (c ∷ t)) = forms (c ∷ t)

-- `buildLinkIdentityVariants`, on the value that `parseAddress` finds in the address.
unfoldable pub build_link_identity_variants : Text → List Text
unfolding forms
build_link_identity_variants value = forms_if (normalize_number value)

-- `hasAnyVariantMatch`.
unfoldable pub has_any_variant_match : List Text → List Text → Bool
unfolding text_eq
has_any_variant_match xs ys = any (λ x. any (text_eq x) ys) xs
