-- ===== src/Runtime/SessionStore/Links/Answers.antt =====
-- modules/runtime/SessionStore.js: what the search for an inbound call's session may give.
use arnacon_webrtc_service.Shared.{◌≡◌, true, false, Option, List, [], ◌∷◌, ◌⊎◌, Text, TextMap}
use arnacon_webrtc_service.Runtime.SessionStore.{ClientSession}
use arnacon_webrtc_service.Runtime.SessionStore.Links.{
  is_skipped, is_open, caller_matches, callee_matches,
}

-- The entry stands in the map.
abbrev pub In : Text → ClientSession → TextMap ClientSession → Type 0
In sid s [] = ⊥
In sid s ((k, t) ∷ m) = (◌≡◌ {A = Text × ClientSession} (k, t) (sid, s)) ⊎ In sid s m

module _ (parse : Text → Text) (from to : List Text) (excluded : Option Text) where
  -- A session that the search may give: not left out, with a caller who is the one that calls now, and a
  -- callee who is the one called, or else still open.
  unfoldable pub Answers : Text → ClientSession → Type 0
  Answers sid s =
      (is_skipped excluded sid s ≡ false)
      × (caller_matches parse from s ≡ true)
      × ((callee_matches parse to s ≡ true) ⊎ (is_open s ≡ true))
