-- ===== src/Runtime/SessionStore/Lookups.antt =====
-- modules/runtime/SessionStore.js: a session is found by its id and by its pair.
use mathlib.Core.Path.{subst}
use arnacon_webrtc_service.Shared.{◌≡◌, refl, sym, ◌∙◌, ap, some, ◌∷◌, ℕ, Text, lookup-insert}
use arnacon_webrtc_service.Runtime.CallPairRef.{pair_key_from_identities, pair_key_comm}
use arnacon_webrtc_service.Runtime.SessionStore.{
  Store, ClientSession, normalize_session_id, get, get_if, get_by_user, session_of, create_session,
}

get_if_named :
    (k : Text) (st : Store) (e : ℕ) (v : Text) → k ≡ e ∷ v → get_if (some k) st ≡ get k st
unfolding get get_if
get_if_named k st e v h = subst (λ l. get_if (some l) st ≡ get l st) (sym h) refl

module _ (now : ℕ) (id : Text) (c d : ℕ) (t u : Text) (st : Store) where
  abbrev made : ClientSession
  unfolding normalize_session_id
  made = session_of now (normalize_session_id id) (c ∷ t) (d ∷ u)

  abbrev after : Store
  unfolding create_session
  after = (create_session now id (c ∷ t) (d ∷ u) st).1

  by_id : get (normalize_session_id id) after ≡ some made
  unfolding get create_session
  by_id = lookup-insert (normalize_session_id id) made st.sessions

  by_pair :
      (e : ℕ) (v : Text)
      → normalize_session_id id ≡ e ∷ v
      → get_by_user (pair_key_from_identities (c ∷ t) (d ∷ u)) after ≡ some made
  unfolding get_by_user create_session
  by_pair e v h =
      ap (λ o. get_if o after)
        (lookup-insert (pair_key_from_identities (c ∷ t) (d ∷ u)) (normalize_session_id id)
          st.sessions_by_user)
      ∙ get_if_named (normalize_session_id id) after e v h
      ∙ by_id

-- A session that is created with two named parties and an id that is not empty once normalized is found by its id,
-- and by the key of the pair, whichever party is named first.
pub get_by_user-create_session :
    (now : ℕ) (id : Text) (c d : ℕ) (t u : Text) (st : Store) (e : ℕ) (v : Text)
    → normalize_session_id id ≡ e ∷ v
    → let caller = c ∷ t in
      let to = d ∷ u in
      let st' = (create_session now id caller to st).1 in
      (get (normalize_session_id id) st'
        ≡ some (session_of now (normalize_session_id id) caller to))
      × (get_by_user (pair_key_from_identities caller to) st'
          ≡ some (session_of now (normalize_session_id id) caller to))
      × (get_by_user (pair_key_from_identities to caller) st'
          ≡ some (session_of now (normalize_session_id id) caller to))
unfolding create_session after made
get_by_user-create_session now id c d t u st e v h = (
  by_id now id c d t u st,
  by_pair now id c d t u st e v h,
  ap (λ key. get_by_user key (create_session now id (c ∷ t) (d ∷ u) st).1)
        (pair_key_comm (d ∷ u) (c ∷ t))
      ∙ by_pair now id c d t u st e v h,
)
