-- ===== src/Policy/Fallback.antt =====
-- The in-process policy `_fallback` of src/aegis_fabric/policy.py, against the list of what it permits.
use aegis_capstone.Common.{
  String, ◌≡◌, sym, ◌∙◌, ◌⊎◌, inl, inr, Bool, true, false, ◌&&◌, ◌||◌, arith, ◌==◌, eq_iff,
  Bool-cases, is_empty, ◌↔◌, refl,
}
use aegis_capstone.Policy.{
  by_action, Resource, memory_write, ResolvedValues, model_call, Scalar, truthy, get, is_null,
  is_among, is_text, fallback, with_reason, PolicyResult, Subject, valid_tenant,
}

-- What the fallback permits, action by action. A skill, a namespace and a tool only have to be named.
pub data Permitted (resource : Resource) (values : ResolvedValues) : String → Type 0 where
  skill : truthy (get "skill_id" resource) ≡ true → Permitted resource values "skill.invoke"
  memory_reads : truthy (get "namespace" resource) ≡ true → Permitted resource values "memory.read"
  memory_writes :
      truthy (get "namespace" resource) ≡ true
      → (is_null (get "classification" resource) ≡ true)
        ⊎ (is_among (get "classification" resource) values.writable_classifications ≡ true)
      → Permitted resource values "memory.write"
  tool : truthy (get "tool_id" resource) ≡ true → Permitted resource values "tool.call"
  model :
      is_among (get "region" resource) values.allowed_model_regions ≡ true
      → (is_empty values.allowed_providers ≡ true)
        ⊎ (is_among (get "provider" resource) values.allowed_providers ≡ true)
      → Permitted resource values "model.call"
  runtime :
      values.runtime_exec ≡ true
      → is_text (get "network" resource) "none" ≡ true
      → Permitted resource values "runtime.exec"

and_split : (a b : Bool) → a && b ≡ true → (a ≡ true) × (b ≡ true)
and_split a b h = (ground arith, ground arith)

or_split : (a b : Bool) → a || b ≡ true → (a ≡ true) ⊎ (b ≡ true)
or_split a b h = ground arith

memory_write-Permitted :
    (show : Scalar → String) (resource : Resource) (values : ResolvedValues)
    → (memory_write show resource values).allow ≡ true
    → Permitted resource values "memory.write"
unfolding memory_write
memory_write-Permitted show resource values h =
    let k =
      and_split (truthy (get "namespace" resource))
        (is_null (get "classification" resource)
          || is_among (get "classification" resource) values.writable_classifications)
        h in
    memory_writes k.0 (
      or_split (is_null (get "classification" resource))
        (is_among (get "classification" resource) values.writable_classifications) k.1)

model_call-Permitted :
    (show : Scalar → String) (resource : Resource) (values : ResolvedValues)
    → (model_call show resource values).allow ≡ true
    → Permitted resource values "model.call"
unfolding model_call
model_call-Permitted show resource values h =
    let k =
      and_split (is_among (get "region" resource) values.allowed_model_regions)
        (is_empty values.allowed_providers
          || is_among (get "provider" resource) values.allowed_providers)
        h in
    model k.0 (
      or_split (is_empty values.allowed_providers)
        (is_among (get "provider" resource) values.allowed_providers) k.1)

by_action-Permitted :
    (show : Scalar → String) (action : String) (resource : Resource) (values : ResolvedValues)
    → (by_action show action resource values).allow ≡ true
    → Permitted resource values action
unfolding by_action
by_action-Permitted show action resource values h = elim (Bool-cases (action == "skill.invoke")) [
  | inl e0 ↦ rw ((eq_iff action "skill.invoke").0 e0) (skill (rw e0 at h))
  | inr e0 ↦ elim (Bool-cases (action == "memory.read")) [
    | inl e1 ↦ rw ((eq_iff action "memory.read").0 e1) (memory_reads (rw (e0, e1) at h))
    | inr e1 ↦ elim (Bool-cases (action == "memory.write")) [
      | inl e2 ↦
          rw ((eq_iff action "memory.write").0 e2)
            (memory_write-Permitted show resource values (rw (e0, e1, e2) at h))
      | inr e2 ↦ elim (Bool-cases (action == "tool.call")) [
        | inl e3 ↦ rw ((eq_iff action "tool.call").0 e3) (tool (rw (e0, e1, e2, e3) at h))
        | inr e3 ↦ elim (Bool-cases (action == "model.call")) [
          | inl e4 ↦
              rw ((eq_iff action "model.call").0 e4)
                (model_call-Permitted show resource values (rw (e0, e1, e2, e3, e4) at h))
          | inr e4 ↦ elim (Bool-cases (action == "runtime.exec")) [
            | inl e5 ↦ rw ((eq_iff action "runtime.exec").0 e5) (
                (let k =
                    and_split values.runtime_exec (is_text (get "network" resource) "none")
                      (rw (e0, e1, e2, e3, e4, e5) at h) in
                  runtime k.0 k.1))
            | inr e5 ↦ absurd (let k : false ≡ true = rw (e0, e1, e2, e3, e4, e5) at h in cc)
          ]
        ]
      ]
    ]
  ]
]

Permitted-by_action :
    (show : Scalar → String) (action : String) (resource : Resource) (values : ResolvedValues)
    → Permitted resource values action
    → (by_action show action resource values).allow ≡ true
unfolding by_action memory_write model_call
Permitted-by_action show action resource values (skill h) = h
Permitted-by_action show action resource values (memory_reads h) = h
Permitted-by_action show action resource values (memory_writes h k) = ground arith
Permitted-by_action show action resource values (tool h) = h
Permitted-by_action show action resource values (model h k) = ground arith
Permitted-by_action show action resource values (runtime h k) = ground arith

allow-with_reason :
    (show : Scalar → String) (action : String) (p : PolicyResult)
    → (with_reason show action p).allow ≡ p.allow
unfolding with_reason
allow-with_reason show action p = ground arith

-- The fallback allows an action exactly when the resource's tenant is a text that is not empty and is
-- the subject's own, and the list of permitted actions has this one. Every other action is denied. The
-- list asks for no grant of the namespace to write to, and for no grant of the skill.
pub fallback-Permitted :
    (show : Scalar → String) (action : String) (resource : Resource) (values : ResolvedValues)
    (subject : Subject)
    → ((fallback show action resource values subject).allow ≡ true)
      ↔ ((valid_tenant resource subject ≡ true) × Permitted resource values action)
unfolding fallback
fallback-Permitted show action resource values subject = (
  λ h. elim (Bool-cases (valid_tenant resource subject)) [
    | inl e ↦ (
      e,
      by_action-Permitted show action resource values (
          sym (allow-with_reason show action (by_action show action resource values))
          ∙ (rw e at h)),
    )
    | inr e ↦ absurd (let k : false ≡ true = rw e at h in cc)
  ],
  λ h. rw h.0 (
      allow-with_reason show action (by_action show action resource values)
      ∙ Permitted-by_action show action resource values h.1),
)

is_empty-by_action :
    (show : Scalar → String) (action : String) (resource : Resource) (values : ResolvedValues)
    → (by_action show action resource values).allow ≡ true
    → is_empty (by_action show action resource values).reasons ≡ true
unfolding by_action memory_write model_call
is_empty-by_action show action resource values h = ground arith

is_empty-with_reason :
    (show : Scalar → String) (action : String) (p : PolicyResult)
    → (p.allow ≡ true → is_empty p.reasons ≡ true)
    → is_empty (with_reason show action p).reasons ≡ (with_reason show action p).allow
unfolding with_reason
is_empty-with_reason show action p h = ground arith

-- The fallback gives reasons exactly when it denies: no denial is silent, and an allowed action has
-- none.
pub is_empty-fallback :
    (show : Scalar → String) (action : String) (resource : Resource) (values : ResolvedValues)
    (subject : Subject)
    → is_empty (fallback show action resource values subject).reasons
      ≡ (fallback show action resource values subject).allow
unfolding fallback
is_empty-fallback show action resource values subject =
    elim (Bool-cases (valid_tenant resource subject)) [
      | inl e ↦ rw e (
          is_empty-with_reason show action (by_action show action resource values)
            (is_empty-by_action show action resource values))
      | inr e ↦ rw e refl
    ]
