-- ===== src/Calls/Registry.antt =====
-- modules/calls/CallRegistry.js: the calls by their ids, and what leads to an id.
pub mod Removal
use arnacon_webrtc_service.Shared.{
  Bool, true, false, Option, none, some, List, [], ◌∷◌, if◌then◌else◌, Text, text_eq, TextMap,
  lookup, insert, delete, drop_where,
}
use arnacon_webrtc_service.Calls.Call.{Call, Participant}

-- Fields of CallRegistry; nothing uses its `pendingBridgeGroups`.
pub record Registry : Type 0 where
  pub calls : TextMap Call
  pub calls_by_participant : TextMap Text
  pub calls_by_session : TextMap Text
  pub linked_calls : TextMap Text

abbrev pub new_registry : Registry
new_registry = record {
  calls = [];
  calls_by_participant = [];
  calls_by_session = [];
  linked_calls = [];
}

-- The session of a participant, where it has one: a text that is not empty.
abbrev add_session : Option Text → Text → TextMap Text → TextMap Text
unfolding insert
add_session none id m = m
add_session (some []) id m = m
add_session (some (c ∷ t)) id m = insert (c ∷ t) id m

unfoldable pub add_participant_of : Text → Participant → Registry → Registry
unfolding insert
add_participant_of id p r = record r {
  calls_by_participant = insert p.id id r.calls_by_participant;
  calls_by_session = add_session p.session_id id r.calls_by_session;
}

unfoldable pub add_participants_of : Text → TextMap Participant → Registry → Registry
unfolding add_participant_of
add_participants_of id [] r = r
add_participants_of id ((k, p) ∷ ps) r = add_participants_of id ps (add_participant_of id p r)

-- `add`.
unfoldable pub add : Call → Registry → Registry
unfolding add_participants_of insert
add c r = add_participants_of c.id c.participants (record r { calls = insert c.id c r.calls })

-- `get`.
unfoldable pub get : Text → Registry → Option Call
unfolding lookup
get id r = lookup id r.calls

-- `id ? this.get(id) : null`.
abbrev pub get_if : Option Text → Registry → Option Call
unfolding get
get_if none r = none
get_if (some []) r = none
get_if (some (c ∷ t)) r = get (c ∷ t) r

unfoldable pub get_by_session : Text → Registry → Option Call
unfolding lookup
get_by_session session_id r = get_if (lookup session_id r.calls_by_session) r

unfoldable pub get_by_participant : Text → Registry → Option Call
unfolding lookup
get_by_participant id r = get_if (lookup id r.calls_by_participant) r

-- `linkCalls`.
unfoldable pub link_calls : Text → Text → Registry → Registry
unfolding insert
link_calls a b r = record r { linked_calls = insert b a (insert a b r.linked_calls) }

unfoldable pub get_linked_call : Text → Registry → Option Call
unfolding lookup
get_linked_call id r = get_if (lookup id r.linked_calls) r

abbrev delete_session : Option Text → TextMap Text → TextMap Text
unfolding delete
delete_session none m = m
delete_session (some []) m = m
delete_session (some (c ∷ t)) m = delete (c ∷ t) m

unfoldable pub remove_participants_of : TextMap Participant → Registry → Registry
unfolding delete
remove_participants_of [] r = r
remove_participants_of ((k, p) ∷ ps) r = remove_participants_of ps (record r {
  calls_by_participant = delete p.id r.calls_by_participant;
  calls_by_session = delete_session p.session_id r.calls_by_session;
})

unfoldable pub remove_call : Option Call → Text → Registry → Bool × Registry
unfolding delete drop_where remove_participants_of
remove_call none id r = (false, r)
remove_call (some c) id r = (
  true,
  remove_participants_of c.participants (record r {
    calls = delete id r.calls;
    linked_calls = drop_where (λ k linked. text_eq linked id) (delete id r.linked_calls);
  }),
)

-- `remove`: whether there was such a call, and the registry after it.
unfoldable pub remove : Text → Registry → Bool × Registry
unfolding lookup remove_call
remove id r = remove_call (lookup id r.calls) id r
