-- ===== src/Policy/Decide.antt =====
-- When `decide` and `require` of src/aegis_fabric/policy.py let a caller go on.
use aegis_capstone.Common.{
  String, ◌≡◌, refl, Bool, true, false, some, arith, or_else, ◌∙◌, ◌⊎◌, ap, inl, inr,
}
use aegis_capstone.Common.Dict.{lookup-insert}
use aegis_capstone.Policy.{
  PdpAnswer, PdpResult, require, valid_tenant, Environment, PolicyResult, decide, failed,
  owned_resource, read_result, verdict, Subject, fallback, get, object, settle, undefined_document,
  without_pdp, Resource, truthy, ResolvedValues, Scalar, malformed, answered, lookup, is_text, text,
  null,
}
use aegis_capstone.Policy.Fallback.{Permitted, fallback-Permitted}

-- `bool(result.get("allow"))`, or the boolean that is the result.
abbrev pub allows : PdpResult → Bool
allows (verdict b) = b
allows (object allow reasons) = truthy allow
allows malformed = false

-- Why a caller may go on: OPA said so, or OPA is not required and the fallback permits the action.
pub data Authorised (env : Environment) (subject : Subject) (action : String) (resource : Resource)
    (values : ResolvedValues) : Type 0 where
  by_opa :
      (r : PdpResult)
      → env.opa subject action (owned_resource resource subject) values ≡ answered r
      → allows r ≡ true
      → Authorised env subject action resource values
  by_fallback :
      env.require_opa ≡ false
      → valid_tenant (owned_resource resource subject) subject ≡ true
      → Permitted (owned_resource resource subject) values action
      → Authorised env subject action resource values

require-read_result : (r : PdpResult) → require (read_result r) ≡ true → allows r ≡ true
unfolding require
require-read_result (verdict b) h = h
require-read_result (object allow reasons) h = h
require-read_result malformed h = h

require-without_pdp :
    (b : Bool) (p : PolicyResult)
    → require (without_pdp b p) ≡ true
    → (b ≡ false) × (p.allow ≡ true)
unfolding require
require-without_pdp true p h = cc
require-without_pdp false p h = (refl, h)

settled :
    (env : Environment) (subject : Subject) (action : String) (resource : Resource)
    (values : ResolvedValues) (x : PdpAnswer)
    → env.opa subject action (owned_resource resource subject) values ≡ x
    → require (
        settle env.require_opa x
          (fallback env.show action (owned_resource resource subject) values subject))
      ≡ true
    → Authorised env subject action resource values
settled env subject action resource values (answered r) e h = by_opa r e (require-read_result r h)
settled env subject action resource values failed e h =
    let k = require-without_pdp env.require_opa _ h in
    let m =
      (fallback-Permitted env.show action (owned_resource resource subject) values subject).0 k.1 in
    by_fallback k.0 m.0 m.1
settled env subject action resource values undefined_document e h =
    let k = require-without_pdp env.require_opa _ h in
    let m =
      (fallback-Permitted env.show action (owned_resource resource subject) values subject).0 k.1 in
    by_fallback k.0 m.0 m.1

-- A caller goes on only if OPA answered with a result that allows, or else OPA is not required, the
-- resource's tenant is the subject's own and the fallback's list has the action. In particular, where
-- OPA is required, neither its outage nor an undefined document nor a malformed result lets anyone on.
pub decide-Authorised :
    (env : Environment) (subject : Subject) (action : String) (resource : Resource)
    (values : ResolvedValues)
    → require (decide env subject action resource values) ≡ true
    → Authorised env subject action resource values
unfolding decide
decide-Authorised env subject action resource values h =
    settled env subject action resource values
      (env.opa subject action (owned_resource resource subject) values) refl h

silent_refused :
    (b : Bool) (x : PdpAnswer) (p : PolicyResult)
    → (x ≡ failed) ⊎ (x ≡ undefined_document)
    → p.allow ≡ false
    → require (settle b x p) ≡ false
unfolding require
silent_refused true x p (inl q) h = rw q refl
silent_refused false x p (inl q) h = rw q h
silent_refused true x p (inr q) h = rw q refl
silent_refused false x p (inr q) h = rw q h

get-lookup : (k : String) (r : Resource) (v : Scalar) → lookup k r ≡ some v → get k r ≡ v
unfolding get
get-lookup k r v h = ap (λ o. or_else o null) h

lookup-owned_resource :
    (resource : Resource) (subject : Subject) (v : Scalar)
    → lookup "tenant_id" resource ≡ some v
    → lookup "tenant_id" (owned_resource resource subject) ≡ some v
unfolding owned_resource
lookup-owned_resource resource subject v h =
    lookup-insert "tenant_id" "tenant_id"
      (or_else (lookup "tenant_id" resource) (text subject.tenant_id)) resource
    ∙ ap (λ o. some (or_else o (text subject.tenant_id))) h

valid_tenant-owned_resource :
    (resource : Resource) (subject : Subject) (v : Scalar)
    → lookup "tenant_id" resource ≡ some v
    → is_text v subject.tenant_id ≡ false
    → valid_tenant (owned_resource resource subject) subject ≡ false
unfolding valid_tenant
valid_tenant-owned_resource resource subject v h n =
    rw
      (
        get-lookup "tenant_id" (owned_resource resource subject) v
            (lookup-owned_resource resource subject v h),
        n,
      )
      (ground arith)

-- While OPA gives no result, no one goes on with a resource that names another tenant, whatever the
-- action and the settings.
pub decide_cross_tenant :
    (env : Environment) (subject : Subject) (action : String) (resource : Resource)
    (values : ResolvedValues) (v : Scalar)
    → (env.opa subject action (owned_resource resource subject) values ≡ failed)
      ⊎ (env.opa subject action (owned_resource resource subject) values ≡ undefined_document)
    → lookup "tenant_id" resource ≡ some v
    → is_text v subject.tenant_id ≡ false
    → require (decide env subject action resource values) ≡ false
unfolding decide fallback
decide_cross_tenant env subject action resource values v q h n =
    rw (valid_tenant-owned_resource resource subject v h n)
      (silent_refused env.require_opa _ _ q refl)
