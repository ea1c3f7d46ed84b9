-- ===== src/Models.antt =====
-- The model registry of src/aegis_fabric/models.py: its YAML as records, lookup by id or alias, and
-- the profiles that the routing offers. `os.getenv` and the secret store are parameters.
pub mod Find
pub mod Fallback
pub mod Route
mod Examples
use aegis_capstone.Common.{
  ℕ, zero, suc, ◌+◌, ◌-◌, ◌≤◌, ◌<◌, String, ◌≡◌, refl, sym, ap, ◌∙◌, ◌≢◌, ◌⊎◌, inl, inr, Bool, true,
  false, ◌&&◌, ◌||◌, not, Option, none, some, List, [], ◌∷◌, ◌++◌, map, arith, ◌==◌, eq_iff, ltb,
  leb, eqb, if◌then◌else◌, Bool-cases, Option-cases, or_else, is_some, length, is_empty, keep, any,
  All, contains,
}
use aegis_capstone.Common.Dict.{Dict}
use aegis_capstone.Rbac.{risk_rank}

pub record Model : Type 0 where
  pub id : String
  pub aliases : List String
  pub risk_tiers : List String
  pub supports_tools : Bool

-- `region` is `none` where the file has no region.
pub record Provider : Type 0 where
  pub type : String
  pub base_url_env : String
  pub api_key_secret_env : Option String
  pub deployment_env : Option String
  pub region : Option String
  pub local : Bool
  pub models : List Model

pub record Selection : Type 0 where
  pub default_model : Option String
  pub fallbacks : List String
  pub fail_visible : Option Bool

-- A policy's `when.classification_in` and `require.local`.
pub record RoutingPolicy : Type 0 where
  pub classification_in : Option (List String)
  pub require_local : Bool

pub record Registry : Type 0 where
  pub providers : Dict Provider
  pub selection : Selection
  pub routing_policies : List RoutingPolicy

-- `os.getenv`, `secrets().get`, and the two settings that the registry reads.
pub record Environment : Type 0 where
  pub getenv : String → Option String
  pub secret : String → Option String
  pub default_model : String
  pub model_region : String

pub record ModelProfile : Type 0 where
  pub provider : String
  pub model_id : String
  pub type : String
  pub base_url : String
  pub api_key : Option String
  pub region : String
  pub local : Bool
  pub risk_tiers : List String
  pub supports_tools : Bool
  pub deployment : Option String

-- What `_find` returns: the provider's id, the provider and the model.
pub record Found : Type 0 where
  pub provider_id : String
  pub provider : Provider
  pub model : Model

pub matches : String → Model → Bool
matches model_id m = model_id == m.id || contains model_id m.aliases

unfoldable pub find_model : String → List Model → Option Model
unfolding matches
find_model model_id [] = none
find_model model_id (m ∷ ms) = if matches model_id m then some m else find_model model_id ms

abbrev found_or : String → Provider → Option Model → Option Found → Option Found
found_or provider_id provider none rest = rest
found_or provider_id provider (some m) rest =
    some (record { provider_id = provider_id; provider = provider; model = m })

unfoldable pub find_in : String → Dict Provider → Option Found
find_in model_id [] = none
find_in model_id ((provider_id, provider) ∷ ps) =
    found_or provider_id provider (find_model model_id provider.models) (find_in model_id ps)

-- `_find`
unfoldable pub find : Registry → String → Option Found
unfolding find_in
find raw model_id = find_in model_id raw.providers

-- `_to_profile`. `os.getenv(name, "")` is the empty text where the variable is not set.
unfoldable pub to_profile : Environment → Found → ModelProfile
to_profile env f = record {
  provider = f.provider_id;
  model_id = f.model.id;
  type = f.provider.type;
  base_url = or_else (env.getenv f.provider.base_url_env) "";
  api_key = elim f.provider.api_key_secret_env [
    | none ↦ none
    | some name ↦ if name == "" then none else env.secret name
  ];
  region = or_else f.provider.region env.model_region;
  local = f.provider.local;
  risk_tiers = f.model.risk_tiers;
  supports_tools = f.model.supports_tools;
  deployment = elim f.provider.deployment_env [
    | none ↦ none
    | some name ↦ if name == "" then none else some (or_else (env.getenv name) "")
  ];
}

-- `is_known`
unfoldable pub is_known : Registry → String → Bool
is_known raw model_id = is_some (find raw model_id)

-- Python's `max(tiers, key=risk_rank)`: the first tier of the highest rank.
pub max_tier : String → List String → String
max_tier best [] = best
max_tier best (t ∷ ts) = max_tier (if ltb (risk_rank best) (risk_rank t) then t else best) ts

abbrev tier_of : List String → String
tier_of [] = "T1"
tier_of (t ∷ ts) = max_tier t ts

unfoldable pub max_tier_of : Registry → String → Option String
max_tier_of raw model_id = elim (find raw model_id) [
  | none ↦ none
  | some f ↦ some (tier_of f.model.risk_tiers)
]
