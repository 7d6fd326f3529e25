-- ===== src/Routing/LightPbx/Orders.antt =====
-- modules/routing/LightPbxProvisionReader.js: reads whose parts come in any order, and what they deliver.
use arnacon_webrtc_service.Shared.{
  ℕ, ◌≤◌, ◌≡◌, refl, sym, Bool, true, false, Option, none, some, List, [], ◌∷◌, if◌then◌else◌,
  if-cases, Bool-cases, inl, inr, Text, lookup, any, ||_left, ||_right,
}
use mathlib.Core.Path.{subst}
use mathlib.Core.Bool.{true≢false}
use mathlib.Core.Option.{none-ne-some}
use arnacon_webrtc_service.Routing.LightPbx.Provisions.{Route}
use arnacon_webrtc_service.Routing.LightPbx.Reader.{
  Config, Reader, Fetched, is_label, identity_of, read_started, key_resolved, provision_fetched,
  remember_miss, cleared,
}
use arnacon_webrtc_service.Routing.LightPbx.Revisions.{at_least, no_colon, IsKept}
use arnacon_webrtc_service.Routing.LightPbx.Reads.{
  route_in, route_found, Keeps, Keeps-idle, key_resolved-Keeps, accept-Keeps, read_started-Keeps,
  identity_of-no_colon,
}

-- A part of a read of a label, with the time and what the SDK gave, or `clearCache`.
pub data Event : Type 0 where
  started : Text → Option Text → ℕ → Event
  resolved : Text → Option Text → ℕ → Event
  provisioned : Text → Text → Fetched → ℕ → Event
  missing : Text → ℕ → Event
  all_cleared : Event

abbrev pub label_of : Event → Text
label_of (started input identity now) = input
label_of (resolved label key now) = label
label_of (provisioned label key payload now) = label
label_of (missing label now) = label
label_of all_cleared = []

abbrev pub clears : Event → Bool
clears all_cleared = true
clears _ = false

module _ (g : Config) where
  -- The route that a part delivers, and the reader after it. The later parts of a read come only after
  -- its first one has checked the label.
  unfoldable pub step : Event → Reader → Option Route × Reader
  unfolding read_started key_resolved provision_fetched remember_miss identity_of is_label
  step (started input identity now) r = (none, (read_started g input identity now r).1)
  step (resolved label key now) r =
      if is_label label
      then (route_found (key_resolved (identity_of g label) key now r), r)
      else (none, r)
  step (provisioned label key payload now) r =
      if is_label label
      then (
        route_in (provision_fetched g label (identity_of g label) key payload now r).0,
        (provision_fetched g label (identity_of g label) key payload now r).1,
      )
      else (none, r)
  step (missing label now) r = (none, remember_miss g (identity_of g label) now r)
  step all_cleared r = (none, cleared)

  unfoldable pub after_events : List Event → Reader → Reader
  unfolding step
  after_events [] r = r
  after_events (e ∷ es) r = after_events es (step e r).1

  step-Keeps :
      (e : Event) (r : Reader)
      → no_colon g.tenant_name ≡ true
      → clears e ≡ false
      → Keeps (identity_of g (label_of e)) r (step e r).0 (step e r).1
  unfolding step provision_fetched remember_miss
  step-Keeps (started input identity now) r plain live = read_started-Keeps g _ input identity now r
  step-Keeps (resolved label key now) r plain live =
      if-cases (λ (p : Option Route × Reader). Keeps (identity_of g label) r p.0 p.1)
        (is_label label) _ _
        (λ h. key_resolved-Keeps _ key now r (identity_of-no_colon g label plain h))
        (λ _. Keeps-idle _ r r refl refl)
  step-Keeps (provisioned label key payload now) r plain live =
      if-cases (λ (p : Option Route × Reader). Keeps (identity_of g label) r p.0 p.1)
        (is_label label) _ _
        (λ h. accept-Keeps g _ key now _ r (identity_of-no_colon g label plain h))
        (λ _. Keeps-idle _ r r refl refl)
  step-Keeps (missing label now) r plain live = Keeps-idle _ r _ refl refl
  step-Keeps all_cleared r plain live = absurd (true≢false live)

  events-Keeps :
      (i : Text) (es : List Event) (r : Reader)
      → no_colon g.tenant_name ≡ true
      → any clears es ≡ false
      → Keeps i r none (after_events es r)
  unfolding after_events
  events-Keeps i [] r plain live = Keeps-idle i r r refl refl
  events-Keeps i (e ∷ es) r plain live =
      let first = step-Keeps e r plain (||_left (clears e) (any clears es) live) in
      let rest = events-Keeps i es (step e r).1 plain (||_right (clears e) (any clears es) live) in
      record {
        kept = λ h. rest.kept (first.kept h);
        delivers = λ route h e. absurd (none-ne-some route e);
        fresh = λ route n e. absurd (none-ne-some route e);
        rises = λ n j h. rest.rises n j (first.rises n j h);
      }

  IsKept-cleared : IsKept cleared
  unfolding IsKept lookup
  IsKept-cleared i key c clean found = absurd (none-ne-some c found)

  -- A step of any kind, `clearCache` too, leaves a cache that keeps to the revisions.
  step-IsKept :
      (e : Event) (r : Reader) → no_colon g.tenant_name ≡ true → IsKept r → IsKept (step e r).1
  unfolding step
  step-IsKept e r plain kept = elim (Bool-cases (clears e)) [
    | inl clear ↦ of_clear e clear
    | inr live ↦ (step-Keeps e r plain live).kept kept
  ]
    where
      of_clear : (d : Event) → clears d ≡ true → IsKept (step d r).1
      of_clear (started input identity now) h = absurd (true≢false (sym h))
      of_clear (resolved label key now) h = absurd (true≢false (sym h))
      of_clear (provisioned label key payload now) h = absurd (true≢false (sym h))
      of_clear (missing label now) h = absurd (true≢false (sym h))
      of_clear all_cleared h = IsKept-cleared

  after_events-IsKept :
      (es : List Event) (r : Reader)
      → no_colon g.tenant_name ≡ true
      → IsKept r
      → IsKept (after_events es r)
  unfolding after_events
  after_events-IsKept [] r plain kept = kept
  after_events-IsKept (e ∷ es) r plain kept =
      after_events-IsKept es (step e r).1 plain (step-IsKept e r plain kept)

  fresh_step :
      (e : Event) (route : Route) (n : ℕ) (r : Reader)
      → no_colon g.tenant_name ≡ true
      → (step e r).0 ≡ some route
      → at_least n (lookup (identity_of g (label_of e)) r.highest_revision) ≡ true
      → n ≤ route.route_revision
  unfolding step
  fresh_step (started input identity now) route n r plain h = absurd (none-ne-some route h)
  fresh_step (resolved label key now) route n r plain h =
      (step-Keeps (resolved label key now) r plain refl).fresh route n h
  fresh_step (provisioned label key payload now) route n r plain h =
      (step-Keeps (provisioned label key payload now) r plain refl).fresh route n h
  fresh_step (missing label now) route n r plain h = absurd (none-ne-some route h)
  fresh_step all_cleared route n r plain h = absurd (none-ne-some route h)

  -- Whatever the order of the parts of any reads, and whatever the chain answers them: once a route of a
  -- label was delivered, no route that is delivered for the label has a lower revision, until the caches
  -- are cleared. The name of the tenant has no colon.
  pub delivered-rises :
      (before between : List Event) (first last : Event) (old new : Route)
      → no_colon g.tenant_name ≡ true
      → any clears (first ∷ between) ≡ false
      → label_of first ≡ label_of last
      → (step first (after_events before cleared)).0 ≡ some old
      → (step last (after_events between (step first (after_events before cleared)).1)).0 ≡ some new
      → old.route_revision ≤ new.route_revision
  delivered-rises before between first last old new plain live same was is =
      let r = after_events before cleared in
      let done = step-Keeps first r plain (||_left (clears first) (any clears between) live) in
      let rest =
        events-Keeps (identity_of g (label_of last)) between (step first r).1 plain
          (||_right (clears first) (any clears between) live) in
      let reached =
        done.delivers old (after_events-IsKept before cleared plain IsKept-cleared) was in
      let now_reached = rest.rises old.route_revision (identity_of g (label_of last)) (
        subst
          (λ l.
            at_least old.route_revision (lookup (identity_of g l) (step first r).1.highest_revision)
            ≡ true)
          same reached) in
      fresh_step last new old.route_revision (after_events between (step first r).1) plain is
        now_reached
