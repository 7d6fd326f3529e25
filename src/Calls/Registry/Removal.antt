-- ===== src/Calls/Registry/Removal.antt =====
-- modules/calls/CallRegistry.js, `remove`: nothing leads to a call that was removed.
use mathlib.Core.Path.{subst}
use arnacon_webrtc_service.Shared.{
  Option, some, [], ◌∷◌, Text, TextMap, insert, ◌≡◌, refl, sym, All, All-insert, ◌⊎◌,
}
use arnacon_webrtc_service.Calls.Call.{Call, Participant}
use arnacon_webrtc_service.Calls.Registry.{
  Registry, add_participant_of, add_participants_of, add, get, get_by_session, get_by_participant,
  get_linked_call,
}

add_participants_of-calls :
    (id : Text) (ps : TextMap Participant) (r : Registry)
    → (add_participants_of id ps r).calls ≡ r.calls
unfolding add_participants_of add_participant_of
add_participants_of-calls id [] r = refl
add_participants_of-calls id ((k, p) ∷ ps) r = add_participants_of-calls id ps _

-- Each call is kept under its own id.
abbrev pub IsKeyed : Registry → Type 0
IsKeyed r = All (λ (e : Text × Call). e.1.id ≡ e.0) r.calls

pub add-IsKeyed : (c : Call) (r : Registry) → IsKeyed r → IsKeyed (add c r)
unfolding add
add-IsKeyed c r h =
    subst (All λ (e : Text × Call). e.1.id ≡ e.0)
      (sym (
        add_participants_of-calls c.id c.participants (record r { calls = insert c.id c r.calls })))
      (All-insert (λ e. e.1.id ≡ e.0) c.id c r.calls refl h)

-- One of the four ways to find a call: by its id, a session, a participant or a linked call.
abbrev pub Finds : Text → Call → Registry → Type 0
Finds key c r =
    (get key r ≡ some c)
    ⊎ (get_by_session key r ≡ some c)
    ⊎ (get_by_participant key r ≡ some c)
    ⊎ (get_linked_call key r ≡ some c)
