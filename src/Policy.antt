-- ===== src/Policy.antt =====
-- The policy decision point of src/aegis_fabric/policy.py: `decide` over OPA's answer, and the
-- in-process policy `_fallback`. A resource is a dictionary of JSON values.
pub mod Fallback
pub mod Decide
mod Examples
use aegis_capstone.Common.{
  ◌<>◌, ℕ, zero, suc, ◌+◌, ◌-◌, ◌≤◌, ◌<◌, String, ◌≡◌, refl, sym, ap, ◌∙◌, ◌≢◌, ◌⊎◌, inl, inr, Bool,
  true, false, ◌&&◌, ◌||◌, not, Option, none, some, List, [], ◌∷◌, ◌++◌, map, arith, ◌==◌, eq_iff,
  ltb, leb, eqb, if◌then◌else◌, Bool-cases, Option-cases, or_else, is_some, length, is_empty, keep,
  any, All, contains,
}
use aegis_capstone.Common.Dict.{Dict, insert, lookup}
use aegis_capstone.Json.{Scalar, truthy, null, text}

abbrev pub Resource : Type 0
Resource = Dict Scalar

-- The fields of `Subject` and `ResolvedValues` that are read.
pub record Subject : Type 0 where
  pub email : String
  pub tenant_id : String
  pub team_id : String
  pub role : String

pub record ResolvedValues : Type 0 where
  pub writable_classifications : List String
  pub allowed_model_regions : List String
  pub allowed_providers : List String
  pub runtime_exec : Bool

pub record PolicyResult : Type 0 where
  pub allow : Bool
  pub reasons : List String

-- `resource.get(k)`
unfoldable pub get : String → Resource → Scalar
get k r = or_else (lookup k r) null

-- `v == s` and `v in xs` for a JSON value and texts.
abbrev pub is_text : Scalar → String → Bool
is_text (text t) s = t == s
is_text _ s = false

abbrev pub is_among : Scalar → List String → Bool
is_among v [] = false
is_among v (x ∷ xs) = is_text v x || is_among v xs

abbrev pub is_null : Scalar → Bool
is_null null = true
is_null _ = false

unfoldable pub valid_tenant : Resource → Subject → Bool
unfolding get
valid_tenant resource subject =
    truthy (get "tenant_id" resource) && is_text (get "tenant_id" resource) subject.tenant_id

-- `f"{v}"`, a parameter: how Python prints a value.
module _ (show : Scalar → String) where
  -- What a branch of the chain on `action` leaves in `allow` and `reasons`.
  abbrev pub outcome : Bool → List String → PolicyResult
  outcome allow reasons = record { allow = allow; reasons = reasons }

  unfoldable pub memory_write : Resource → ResolvedValues → PolicyResult
  unfolding get
  memory_write resource values =
      let cls = get "classification" resource in
      let ns_ok = truthy (get "namespace" resource) in
      let cls_ok = is_null cls || is_among cls values.writable_classifications in
      outcome (ns_ok && cls_ok)
        (if ns_ok && not cls_ok then ("classification_above_max_write:" <> show cls) ∷ [] else [])

  unfoldable pub model_call : Resource → ResolvedValues → PolicyResult
  unfolding get
  model_call resource values =
      let prov = get "provider" resource in
      let region_ok = is_among (get "region" resource) values.allowed_model_regions in
      let prov_ok = is_empty values.allowed_providers || is_among prov values.allowed_providers in
      outcome (region_ok && prov_ok)
        (if region_ok && not prov_ok then ("provider_not_allowed:" <> show prov) ∷ [] else [])

  unfoldable pub by_action : String → Resource → ResolvedValues → PolicyResult
  unfolding get memory_write model_call
  by_action action resource values =
      if action == "skill.invoke"
      then outcome (truthy (get "skill_id" resource)) []
      else if action == "memory.read"
      then outcome (truthy (get "namespace" resource)) []
      else if action == "memory.write"
      then memory_write resource values
      else if action == "tool.call"
      then outcome (truthy (get "tool_id" resource)) []
      else if action == "model.call"
      then model_call resource values
      else if action == "runtime.exec"
      then outcome (values.runtime_exec && is_text (get "network" resource) "none") []
      else outcome false []

  -- `if not allow and not reasons`
  unfoldable pub with_reason : String → PolicyResult → PolicyResult
  with_reason action p =
      if not p.allow && is_empty p.reasons
      then outcome p.allow (("action_not_permitted:" <> action) ∷ [])
      else p

  unfoldable pub fallback : String → Resource → ResolvedValues → Subject → PolicyResult
  unfolding valid_tenant by_action with_reason
  fallback action resource values subject =
      if not (valid_tenant resource subject)
      then outcome false ("missing_or_invalid_tenant_claim" ∷ [])
      else with_reason action (by_action action resource values)

-- `result` in OPA's answer: a boolean, an object with what it holds under `allow` and `reasons`, or
-- another value, on which `.get` raises.
pub data PdpResult : Type 0 where
  verdict : Bool → PdpResult
  object : Scalar → List String → PdpResult
  malformed : PdpResult

-- The call to OPA: it fails, the document is undefined, or there is a result.
pub data PdpAnswer : Type 0 where
  failed undefined_document : PdpAnswer
  answered : PdpResult → PdpAnswer

pub record PolicyDecision : Type 0 where
  pub allow : Bool
  pub reasons : List String
  pub decision : String

-- A decision, the 503 of a PDP that is out of reach, or another exception.
pub data Decided : Type 0 where
  decided : PolicyDecision → Decided
  unavailable crashed : Decided

-- `{**resource, "tenant_id": resource.get("tenant_id", subject.tenant_id)}`
unfoldable pub owned_resource : Resource → Subject → Resource
owned_resource resource subject =
    insert "tenant_id" (or_else (lookup "tenant_id" resource) (text subject.tenant_id)) resource

abbrev pub decision_of : Bool → List String → Decided
decision_of allow reasons =
    decided
      (record { allow = allow; reasons = reasons; decision = if allow then "allow" else "deny" })

abbrev pub read_result : PdpResult → Decided
read_result (verdict b) = decision_of b []
read_result (object allow reasons) = decision_of (truthy allow) reasons
read_result malformed = crashed

-- The `except` branch, with the result of `_fallback`.
abbrev pub without_pdp : Bool → PolicyResult → Decided
without_pdp true p = unavailable
without_pdp false p = decision_of p.allow p.reasons

abbrev pub settle : Bool → PdpAnswer → PolicyResult → Decided
settle require_opa failed p = without_pdp require_opa p
settle require_opa undefined_document p = without_pdp require_opa p
settle require_opa (answered r) p = read_result r

-- What the model is given: the PDP, how Python prints a value, and `settings.require_opa`.
pub record Environment : Type 0 where
  pub opa : Subject → String → Resource → ResolvedValues → PdpAnswer
  pub show : Scalar → String
  pub require_opa : Bool

unfoldable pub decide : Environment → Subject → String → Resource → ResolvedValues → Decided
unfolding owned_resource fallback
decide env subject action resource values =
    let owned = owned_resource resource subject in
    settle env.require_opa (env.opa subject action owned values)
      (fallback env.show action owned values subject)

-- `require`: a caller goes on only with an allowing decision.
unfoldable pub require : Decided → Bool
require (decided d) = d.allow
require unavailable = false
require crashed = false
