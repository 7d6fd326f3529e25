-- ===== src/Routing/LightPbx/Cache.antt =====
-- modules/routing/LightPbxProvisionReader.js: a read that finds what an earlier one left.
use arnacon_webrtc_service.Shared.{
  ℕ, ◌+◌, ◌≡◌, ap, ◌∙◌, true, false, Option, none, some, if◌then◌else◌, if-cases, ltb, Text, lookup,
  lookup-insert, arith,
}
use mathlib.Core.Path.{subst}
use mathlib.Core.Option.{none-ne-some, some-injective}
use arnacon_webrtc_service.Routing.LightPbx.Provisions.{
  revision_rollback, Result, returns, throws, Route,
}
use arnacon_webrtc_service.Routing.LightPbx.Reader.{
  Config, Reader, gives, fetches, Fetched, is_stale, highest, cache_key, checked, use_cached,
  key_resolved, keep, accept, provision_fetched,
}
use arnacon_webrtc_service.Routing.LightPbx.Reads.{route_in}

highest-not_stale :
    (n : ℕ) (o : Option ℕ) → is_stale n o ≡ false → is_stale n (some (highest n o)) ≡ false
highest-not_stale n none h = ground arith
highest-not_stale n (some m) h = ground arith

key_resolved-keep :
    (g : Config) (i key : Text) (now later : ℕ) (route : Route) (r : Reader)
    → is_stale route.route_revision (lookup i r.highest_revision) ≡ false
    → ltb later (now + g.route_ttl) ≡ true
    → key_resolved i (some key) later (keep g i key now route r) ≡ gives (returns route)
unfolding key_resolved keep use_cached
key_resolved-keep g i key now later route r live soon =
    ap (λ o. use_cached i later o (keep g i key now route r))
      (lookup-insert (cache_key i key) _ r.provision_cache)
    ∙ ap
        (λ b.
          if b
          then gives (checked route (lookup i (keep g i key now route r).highest_revision))
          else fetches)
        soon
    ∙ ap (λ o. gives (checked route o))
        (lookup-insert i (highest route.route_revision (lookup i r.highest_revision))
          r.highest_revision)
    ∙ ap (λ b. gives (if b then throws revision_rollback else returns route))
        (highest-not_stale route.route_revision (lookup i r.highest_revision) live)

accept-again :
    (g : Config) (i key : Text) (now later : ℕ) (o : Result Route) (route : Route) (r : Reader)
    → route_in (accept g i key now o r).0 ≡ some route
    → ltb later (now + g.route_ttl) ≡ true
    → key_resolved i (some key) later (accept g i key now o r).1 ≡ gives (returns route)
unfolding accept
accept-again g i key now later (throws e) route r h soon = absurd (none-ne-some route h)
accept-again g i key now later (returns found) route r h soon =
    if-cases
      (λ (p : Result Route × Reader).
        route_in p.0 ≡ some route → key_resolved i (some key) later p.1 ≡ gives (returns route))
      (is_stale found.route_revision (lookup i r.highest_revision)) _ _
      (λ _ e. absurd (none-ne-some route e))
      (λ live e.
        subst
          (λ (p : Route).
            key_resolved i (some key) later (keep g i key now found r) ≡ gives (returns p))
          (some-injective found route e) (key_resolved-keep g i key now later found r live soon))
      h

-- A route that was fetched is given again, without another fetch, to a read of the same identity and
-- key, where its key resolves before the route's time to live is over and nothing else has reached the
-- reader between the fetch and that.
pub key_resolved-provision_fetched :
    (g : Config) (label i key : Text) (payload : Fetched) (now later : ℕ) (route : Route)
    (r : Reader)
    → route_in (provision_fetched g label i key payload now r).0 ≡ some route
    → ltb later (now + g.route_ttl) ≡ true
    → key_resolved i (some key) later (provision_fetched g label i key payload now r).1
      ≡ gives (returns route)
unfolding provision_fetched
key_resolved-provision_fetched g label i key payload now later route r =
    accept-again g i key now later _ route r
