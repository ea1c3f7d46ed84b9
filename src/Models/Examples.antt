-- ===== src/Models/Examples.antt =====
-- A small registry with a local and a hosted provider, and the routing theorems at it.
use aegis_capstone.Common.{
  if◌then◌else◌, ◌+◌, ℕ, String, ◌≡◌, refl, inl, inr, Bool, true, false, none, some, List, [], ◌∷◌,
  is_empty, All, ◌*◌,
}
use aegis_capstone.Models.{
  Model, Provider, Registry, Environment, ModelProfile, Found, find, find_model, to_profile,
}
use aegis_capstone.Models.Fallback.{
  Called, Run, chat_with_fallbacks, CallEnd, retrying, chat_with_fallbacks-Called, replied,
  transport_error,
}
use aegis_capstone.Models.Route.{
  Request, candidates, refused, violates_policy, not_local, route, satisfies, is_restricted,
  has_local, restricted_classes, ordered_ids, strict_requested, scan, visit, conclude,
}
use aegis_capstone.Models.Route.Complete.{Offered, route_complete}
use aegis_capstone.Models.Route.Sound.{Passes, route-Passes}

abbrev llama : Model
llama = record {
  id = "ollama/llama3";
  aliases = "llama" ∷ [];
  risk_tiers = "T1" ∷ "T2" ∷ [];
  supports_tools = false;
}

abbrev hosted : Model
hosted = record { id = "nv/big"; aliases = []; risk_tiers = []; supports_tools = true }

abbrev provider_of : Bool → Model → Provider
provider_of local m = record {
  type = "openai_compatible";
  base_url_env = "URL";
  api_key_secret_env = none;
  deployment_env = none;
  region = none;
  local = local;
  models = m ∷ [];
}

abbrev raw : Registry
raw = record {
  providers = ("nvidia", provider_of false hosted) ∷ ("ollama", provider_of true llama) ∷ [];
  selection = record {
    default_model = some "nv/big";
    fallbacks = "llama" ∷ [];
    fail_visible = none;
  };
  routing_policies = [];
}

abbrev env : Environment
env = record {
  getenv = λ name. none;
  secret = λ name. none;
  default_model = "";
  model_region = "AC1";
}

abbrev ask : String → String → Bool → Request
ask requested classification strict = record {
  requested = requested;
  allowed_region = "AC1";
  classification = classification;
  require_tool_support = false;
  caps = record {
    allowed_providers = [];
    allowed_model_ids = [];
    require_local_above = "restricted";
    fallback_mode = "degrade_local";
    residency_strict = strict;
  };
  default_model = "";
}

abbrev local_profile : ModelProfile
local_profile = record {
  provider = "ollama";
  model_id = "ollama/llama3";
  type = "openai_compatible";
  base_url = "";
  api_key = none;
  region = "AC1";
  local = true;
  risk_tiers = "T1" ∷ "T2" ∷ [];
  supports_tools = false;
  deployment = none;
}

restricted_stays_local : route env raw (ask "" "restricted" false) ≡ candidates (local_profile ∷ [])
unfolding route ordered_ids strict_requested scan visit conclude find find_model to_profile
    satisfies is_restricted has_local restricted_classes
restricted_stays_local = refl

pinned_hosted_refused :
    route env raw (ask "nv/big" "restricted" false)
    ≡ refused (violates_policy "nv/big" (not_local ∷ []))
unfolding route ordered_ids strict_requested scan visit conclude find find_model to_profile
    satisfies is_restricted has_local restricted_classes
pinned_hosted_refused = refl

route-Passes_example :
    All (Passes env raw (ask "" "restricted" false)) (local_profile ∷ [])
    × (is_empty (local_profile ∷ []) ≡ false)
route-Passes_example =
    route-Passes env raw (ask "" "restricted" false) (local_profile ∷ []) restricted_stays_local

strict_run : route env raw (ask "" "restricted" true) ≡ candidates (local_profile ∷ [])
unfolding route ordered_ids strict_requested scan visit conclude find find_model to_profile
    satisfies is_restricted has_local restricted_classes
strict_run = refl

abbrev llama_entry : Found
llama_entry = record { provider_id = "ollama"; provider = provider_of true llama; model = llama }

route_complete_example :
    (cs : List ModelProfile) × (route env raw (ask "" "restricted" false) ≡ candidates cs)
    × Offered (to_profile env llama_entry) cs
unfolding ordered_ids strict_requested find find_model to_profile satisfies is_restricted has_local
    restricted_classes
route_complete_example =
    route_complete env raw (ask "" "restricted" false) "llama" llama_entry refl refl refl
      (inr (inl refl)) refl refl

-- A provider that is down at first, and the other, which answers.
abbrev flaky : ModelProfile → ℕ → CallEnd × ℕ
flaky p w = (if p.local then replied "hello" else transport_error, w + 1)

abbrev hosted_profile : ModelProfile
hosted_profile = record local_profile { provider = "nvidia"; model_id = "nv/big"; local = false }

abbrev idle : Run ℕ
idle = record { world = 0; calls = [] }

abbrev InRegion : ModelProfile → Type 0
InRegion p = p.region ≡ local_profile.region

falls_back : (chat_with_fallbacks flaky 2 (hosted_profile ∷ local_profile ∷ []) idle).1.world ≡ 4
unfolding chat_with_fallbacks retrying
falls_back = refl

chat_with_fallbacks-Called_example :
    Called flaky InRegion 0
      (2 * (1 + 2))
      idle
      (chat_with_fallbacks flaky 2 (hosted_profile ∷ local_profile ∷ []) idle).1
    × ((chat_with_fallbacks flaky 2 (hosted_profile ∷ local_profile ∷ []) idle).0 ≡ none
        → Called flaky InRegion 2
            (2 * (1 + 2))
            idle
            (chat_with_fallbacks flaky 2 (hosted_profile ∷ local_profile ∷ []) idle).1)
chat_with_fallbacks-Called_example =
    chat_with_fallbacks-Called flaky InRegion 2 (hosted_profile ∷ local_profile ∷ []) idle
      (refl, (refl, tt))
