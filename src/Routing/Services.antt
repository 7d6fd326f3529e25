-- ===== src/Routing/Services.antt =====
-- modules/routing/ServiceRegistry.js: the services by their ids, and the domains they serve.
use arnacon_webrtc_service.Shared.{
  Bool, true, false, Option, none, some, List, [], ◌∷◌, ◌++◌, ◌≡◌, refl, map, if◌then◌else◌, Text,
  TextMap, lookup, Distinct,
}
use arnacon_webrtc_service.Routing.LightPbx.Provisions.{keep_if, unique, first_target}
use arnacon_webrtc_service.Routing.LightPbx.Targets.{unique-Distinct}

-- A runtime: the domains are none where they are no array, and the primary domain is empty where it is
-- missing.
pub record ServiceRuntime : Type 0 where
  pub id : Text
  pub domains : Option (List Text)
  pub primary_domain : Text
  pub domain_aliases : Option (List Text)

-- The runtimes are in the order of their keys.
pub record Services : Type 0 where
  pub service_runtimes : TextMap ServiceRuntime
  pub active_service_runtimes : List ServiceRuntime
  pub default_service_runtime : Option ServiceRuntime

-- `all`.
abbrev all_runtimes : TextMap ServiceRuntime → List ServiceRuntime
all_runtimes m = map (λ (e : Text × ServiceRuntime). e.1) m

abbrev first_of {ℓ} : {A : Type ℓ} → List A → Option A → Option A
first_of [] o = o
first_of (x ∷ xs) o = some x

abbrev given {ℓ} : {A : Type ℓ} → Option A → A → A
given none d = d
given (some a) d = a

-- The constructor.
unfoldable pub new_services : TextMap ServiceRuntime → Option (List ServiceRuntime) → Services
new_services m o =
    let active = given o (all_runtimes m) in
    record {
      service_runtimes = m;
      active_service_runtimes = active;
      default_service_runtime = first_of active (first_of (all_runtimes m) none);
    }

abbrev or_else {ℓ} : {A : Type ℓ} → Option A → Option A → Option A
or_else none o = o
or_else (some a) o = some a

-- `get`.
unfoldable pub get_service : Option Text → Services → Option ServiceRuntime
unfolding lookup
get_service none r = r.default_service_runtime
get_service (some []) r = r.default_service_runtime
get_service (some (c ∷ cs)) r =
    or_else (lookup (c ∷ cs) r.service_runtimes) r.default_service_runtime

abbrev has_text : Text → Bool
has_text [] = false
has_text (c ∷ cs) = true

-- The domains that `allDomains` takes of one runtime.
unfoldable pub domains_of : ServiceRuntime → List Text
domains_of r = elim (given r.domains []) [
  | [] ↦
      (if has_text r.primary_domain then r.primary_domain ∷ [] else []) ++ given r.domain_aliases []
  | d ∷ ds ↦ d ∷ ds
]

unfoldable pub pushed : List ServiceRuntime → List Text
unfolding domains_of
pushed [] = []
pushed (r ∷ rs) = domains_of r ++ pushed rs

-- `allDomains`.
unfoldable pub all_domains : Services → List Text
unfolding unique keep_if pushed
all_domains r = unique (keep_if has_text (pushed (all_runtimes r.service_runtimes)))

-- The `||` of two texts.
abbrev or_text : Text → Text → Text
or_text [] u = u
or_text (c ∷ cs) u = c ∷ cs

abbrev configured : Option ServiceRuntime → List Text
configured none = []
configured (some s) = given s.domains []

abbrev primary : Option ServiceRuntime → Text
primary none = []
primary (some s) = s.primary_domain

-- `firstDomain`.
unfoldable pub first_domain : Option Text → Services → Text
unfolding get_service all_domains
first_domain id r =
    let s = get_service id r in
    or_text (first_target (configured s)) (or_text (primary s) (first_target (all_domains r)))

-- No domain is listed twice.
pub all_domains-Distinct : (r : Services) → Distinct (all_domains r)
unfolding all_domains
all_domains-Distinct r =
    unique-Distinct (keep_if has_text (pushed (all_runtimes r.service_runtimes)))

or_text-empty : (t u : Text) → or_text t u ≡ [] → u ≡ []
or_text-empty [] u h = h
or_text-empty (c ∷ cs) u h = cc

kept-empty :
    (ts : List Text)
    → first_target (unique (keep_if has_text ts)) ≡ []
    → unique (keep_if has_text ts) ≡ []
unfolding unique keep_if
kept-empty [] h = refl
kept-empty ([] ∷ ts) h = kept-empty ts h
kept-empty ((c ∷ cs) ∷ ts) h = cc

-- The first domain of a service, known or not, is empty only where no service has a domain.
pub first_domain-empty :
    (id : Option Text) (r : Services) → first_domain id r ≡ [] → all_domains r ≡ []
unfolding first_domain all_domains
first_domain-empty id r h = kept-empty (pushed (all_runtimes r.service_runtimes)) (
    or_text-empty (primary (get_service id r)) _
      (or_text-empty (first_target (configured (get_service id r))) _ h))
