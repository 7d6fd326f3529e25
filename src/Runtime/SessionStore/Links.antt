-- ===== src/Runtime/SessionStore/Links.antt =====
-- modules/runtime/SessionStore.js: the search for the session that an inbound call goes back to, and the
-- link of two sessions.
pub mod Answers
use arnacon_webrtc_service.Shared.{
  ℕ, ◌≡◌, refl, sym, ap, ◌∙◌, Bool, true, false, ◌&&◌, ◌||◌, not, Option, none, some, List, [], ◌∷◌,
  ◌⊎◌, inl, inr, if◌then◌else◌, if-cases, option-cases, &&_left, &&_right, leb, ◌==◌, Text, text,
  text_eq, TextMap, lookup, insert,
}
use mathlib.Core.Path.{subst}
use mathlib.Core.Option.{none-ne-some, some-injective}
use arnacon_webrtc_service.Runtime.SessionStore.{
  ClientSession, Store, get, build_link_identity_variants, has_any_variant_match,
}

unfoldable pub is_excluded : Option Text → Text → Bool
unfolding text_eq
is_excluded none sid = false
is_excluded (some t) sid = text_eq sid t

abbrev pub is_unlinked : Option Text → Bool
is_unlinked none = true
is_unlinked (some []) = true
is_unlinked (some (c ∷ t)) = false

abbrev pub add_newest : Text × ℕ → List (Text × ℕ) → List (Text × ℕ)
add_newest p [] = p ∷ []
add_newest p (q ∷ qs) = let rest = add_newest p qs in if leb p.1 q.1 then q ∷ rest else p ∷ q ∷ qs

-- The one candidate, or the newest of several, if no other is as new. The candidates stand in the order
-- of `sort`.
abbrev pub choose : List (Text × ℕ) → Option Text
choose [] = none
choose (p ∷ []) = some p.0
choose (p ∷ q ∷ ps) = if p.1 == q.1 then none else some p.0

unfoldable pub is_skipped : Option Text → Text → ClientSession → Bool
unfolding is_excluded
is_skipped excluded sid s = is_excluded excluded sid || s.is_gateway_caller

unfoldable pub is_open : ClientSession → Bool
unfolding text_eq
is_open s = not (text_eq s.phase (text "post-call")) && is_unlinked s.linked_session_id

abbrev pub no_form : List Text → Bool
no_form [] = true
no_form (t ∷ ts) = false

-- `parseAddress` gives the value of an address.
module _ (parse : Text → Text) where
  unfoldable pub forms_of : Text → List Text
  unfolding build_link_identity_variants
  forms_of t = build_link_identity_variants (parse t)

  unfoldable pub caller_matches : List Text → ClientSession → Bool
  unfolding forms_of has_any_variant_match
  caller_matches from s = has_any_variant_match (forms_of s.caller_ens) from

  unfoldable pub callee_matches : List Text → ClientSession → Bool
  unfolding forms_of has_any_variant_match
  callee_matches to s = has_any_variant_match (forms_of s.to_identity) to

  -- The loop over the sessions, with the candidates that were found, the newest first.
  unfoldable pub search :
      List Text → List Text → Option Text → List (Text × ℕ) → TextMap ClientSession → Option Text
  unfolding caller_matches callee_matches is_skipped is_open
  search from to excluded found [] = choose found
  search from to excluded found ((sid, s) ∷ m) =
      let skips = search from to excluded found m in
      let adds = search from to excluded (add_newest (sid, s.created_at) found) m in
      if is_skipped excluded sid s
      then skips
      else if caller_matches from s && callee_matches to s
      then some sid
      else if caller_matches from s && is_open s
      then adds
      else skips

  -- `findOutboundSessionForInbound`.
  unfoldable pub find_outbound_session_for_inbound : Text → Text → Option Text → Store → Option Text
  unfolding forms_of search
  find_outbound_session_for_inbound from to excluded st =
      if no_form (forms_of from) || no_form (forms_of to)
      then none
      else search (forms_of from) (forms_of to) excluded [] st.sessions

abbrev link_found : Text → Text → Option ClientSession → Option ClientSession → Store → Store
unfolding insert
link_found a b (some s) (some t) st = record st {
  sessions =
      insert b (record t { linked_session_id = some a })
        (insert a (record s { linked_session_id = some b }) st.sessions);
}
link_found a b _ _ st = st

-- `linkSessionPair`.
unfoldable pub link_session_pair : Text → Text → Store → Store
unfolding get link_found
link_session_pair a b st = link_found a b (get a st) (get b st) st
