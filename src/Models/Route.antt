-- ===== src/Models/Route.antt =====
-- `ModelRegistry.route` of src/aegis_fabric/models.py, with `_satisfies` and `_restricted_classes`.
-- A text that is `None` or missing in the code is the empty text here, which the code treats alike.
pub mod Sound
pub mod Pinned
pub mod Complete
use aegis_capstone.Common.{
  ℕ, zero, suc, ◌+◌, ◌-◌, ◌≤◌, ◌<◌, String, ◌≡◌, refl, sym, ap, ◌∙◌, ◌≢◌, ◌⊎◌, inl, inr, Bool, true,
  false, ◌&&◌, ◌||◌, not, Option, none, some, List, [], ◌∷◌, ◌++◌, map, arith, ◌==◌, eq_iff, ltb,
  leb, eqb, if◌then◌else◌, Bool-cases, Option-cases, or_else, is_some, length, is_empty, keep, any,
  All, contains, take,
}
use aegis_capstone.Common.Dict.{Dict}
use aegis_capstone.Json.{text}
use aegis_capstone.Models.{
  Provider, RoutingPolicy, Registry, Environment, ModelProfile, Found, find, to_profile,
}
use aegis_capstone.Rbac.{class_rank}

-- The keys of `caps` that `route` reads.
pub record RouteCaps : Type 0 where
  pub allowed_providers : List String
  pub allowed_model_ids : List String
  pub require_local_above : String
  pub fallback_mode : String
  pub residency_strict : Bool

pub record Request : Type 0 where
  pub requested : String
  pub allowed_region : String
  pub classification : String
  pub require_tool_support : Bool
  pub caps : RouteCaps
  pub default_model : String

-- Why `_satisfies` refuses a profile.
pub data Refusal : Type 0 where
  wrong_region not_local no_tools provider_not_listed model_not_listed : Refusal

-- The two messages of `ModelNotAllowed`.
pub data RouteError : Type 0 where
  violates_policy : String → List Refusal → RouteError
  no_model : RouteError

pub data Routed : Type 0 where
  candidates : List ModelProfile → Routed
  refused : RouteError → Routed

abbrev pub given : String → Bool
given s = not (s == "")

abbrev local_provider : String × Provider → Bool
local_provider (id, p) = p.local

unfoldable pub has_local : Registry → Bool
has_local raw = any local_provider raw.providers

local_classes : List RoutingPolicy → List String
local_classes [] = "restricted" ∷ "confidential" ∷ []
local_classes (p ∷ ps) = elim p.classification_in [
  | none ↦ local_classes ps
  | some cs ↦ if p.require_local then cs else local_classes ps
]

unfoldable pub restricted_classes : Registry → List String
unfolding local_classes
restricted_classes raw = if has_local raw then local_classes raw.routing_policies else []

-- Whether the data must stay on a local model: by the registry's policy or by the role's threshold.
unfoldable pub is_restricted : Registry → Request → Bool
is_restricted raw r =
    has_local raw
    && (contains r.classification (restricted_classes raw)
        || (given r.caps.require_local_above
            && leb (class_rank (text r.caps.require_local_above))
                (class_rank (text r.classification))))

-- `_satisfies`: `none` where the profile passes.
unfoldable pub satisfies : Registry → Request → ModelProfile → Option Refusal
satisfies raw r p =
    if not (p.region == r.allowed_region)
    then some wrong_region
    else if is_restricted raw r && not p.local
    then some not_local
    else if r.require_tool_support && not p.supports_tools
    then some no_tools
    else if not (is_empty r.caps.allowed_providers)
        && not (contains p.provider r.caps.allowed_providers)
    then some provider_not_listed
    else if not (is_empty r.caps.allowed_model_ids)
        && not (contains p.model_id r.caps.allowed_model_ids)
    then some model_not_listed
    else none

unfoldable pub strict_requested : Registry → Request → Bool
strict_requested raw r = given r.requested && or_else raw.selection.fail_visible true

abbrev pinned : String → List String
pinned requested = if given requested then requested ∷ [] else []

default_id : Environment → Registry → Request → String
default_id env raw r =
    if given r.default_model
    then r.default_model
    else or_else raw.selection.default_model env.default_model

unfoldable pub ordered_ids : Environment → Registry → Request → List String
unfolding default_id
ordered_ids env raw r =
    if strict_requested raw r
    then pinned r.requested
    else pinned r.requested ++ default_id env raw r ∷ raw.selection.fallbacks

-- The variables of the loop.
pub record Scan : Type 0 where
  pub seen : List String
  pub found : List ModelProfile
  pub rejected : List Refusal

abbrev start : Scan
start = record { seen = []; found = []; rejected = [] }

abbrev pub judge : Request → String → ModelProfile → Option Refusal → Scan → Scan
judge r mid p none s = record s { found = s.found ++ p ∷ [] }
judge r mid p (some why) s =
    if given r.requested && mid == r.requested
    then record s { rejected = s.rejected ++ why ∷ [] }
    else s

module _ (env : Environment) (raw : Registry) (r : Request) where
  visit_found : String → Option Found → Scan → Scan
  visit_found mid none s = s
  visit_found mid (some f) s = judge r mid (to_profile env f) (satisfies raw r (to_profile env f)) s

  -- One round of the loop over the ids.
  unfoldable pub visit : String → Scan → Scan
  unfolding visit_found
  visit mid s =
      if not (given mid) || contains mid s.seen
      then s
      else visit_found mid (find raw mid) (record s { seen = mid ∷ s.seen })

  unfoldable pub scan : List String → Scan → Scan
  scan [] s = s
  scan (mid ∷ ids) s = scan ids (visit mid s)

  canonical : String → String
  canonical mid = elim (find raw mid) [ none ↦ mid | some f ↦ f.model.id ]

  abbrev is_canonical : String → ModelProfile → Bool
  is_canonical id p = p.model_id == id

  -- What follows the loop.
  unfoldable pub conclude : Scan → Routed
  unfolding canonical
  conclude s =
      if given r.requested
        && not (is_empty s.rejected)
        && not (any (is_canonical (canonical r.requested)) s.found)
      then refused (violates_policy r.requested s.rejected)
      else if is_empty s.found
      then refused no_model
      else if r.caps.fallback_mode == "strict" || r.caps.residency_strict
      then candidates (take 1 s.found)
      else candidates s.found

  unfoldable pub route : Routed
  route = conclude (scan (ordered_ids env raw r) start)
