-- ===== src/Policy/Examples.antt =====
-- The theorems on src/aegis_fabric/policy.py at a subject of one tenant, with OPA down.
use aegis_capstone.Common.{String, ◌≡◌, refl, inr, true, false, [], ◌∷◌}
use aegis_capstone.Policy.{
  Environment, Resource, Subject, ResolvedValues, decide, get, Scalar, failed, fallback, require,
  valid_tenant, by_action, text, memory_write, with_reason, owned_resource,
}
use aegis_capstone.Policy.Decide.{Authorised, decide-Authorised}
use aegis_capstone.Policy.Fallback.{Permitted, fallback-Permitted, memory_writes}

abbrev ann : Subject
ann = record { email = "ann@acme"; tenant_id = "acme"; team_id = "research"; role = "analyst" }

abbrev values : ResolvedValues
values = record {
  writable_classifications = "public" ∷ "internal" ∷ [];
  allowed_model_regions = "AC1" ∷ [];
  allowed_providers = [];
  runtime_exec = false;
}

abbrev note : Scalar → Resource
note tenant =
    ("tenant_id", tenant) ∷ ("namespace", text "notes") ∷ ("classification", text "internal") ∷ []

abbrev show : Scalar → String
show v = elim v [ text s ↦ s | _ ↦ "None" ]

abbrev down : Environment
down = record { opa = λ s a r v. failed; show = show; require_opa = false }

write-Permitted : Permitted (note (text "acme")) values "memory.write"
unfolding get
write-Permitted = memory_writes refl (inr refl)

own_tenant : valid_tenant (note (text "acme")) ann ≡ true
unfolding valid_tenant get
own_tenant = refl

fallback-Permitted_example :
    (fallback show "memory.write" (note (text "acme")) values ann).allow ≡ true
fallback-Permitted_example =
    (fallback-Permitted show "memory.write" (note (text "acme")) values ann).1
      (own_tenant, write-Permitted)

erasure_denied : (fallback show "memory.delete" (note (text "acme")) values ann).allow ≡ false
unfolding fallback valid_tenant by_action with_reason get
erasure_denied = refl

goes_on : require (decide down ann "memory.write" (note (text "acme")) values) ≡ true
unfolding require decide fallback valid_tenant by_action memory_write with_reason get owned_resource
goes_on = refl

decide-Authorised_example : Authorised down ann "memory.write" (note (text "acme")) values
decide-Authorised_example =
    decide-Authorised down ann "memory.write" (note (text "acme")) values goes_on
