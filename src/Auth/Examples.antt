-- ===== src/Auth/Examples.antt =====
-- The theorems on src/aegis_fabric/auth.py and the assignments of src/aegis_fabric/rbac.py at one user.
use aegis_capstone.Common.{
  String, ◌≡◌, refl, inr, true, false, ◌&&◌, Option, none, some, [], ◌∷◌, arith, ◌==◌, eq_iff,
  if◌then◌else◌,
}
use aegis_capstone.Auth.{
  Environment, Subject, ok, Assignment, Claims, Database, Place, validate_token, Value,
  authenticate, authorize, subject_at, session_expired,
}
use aegis_capstone.Auth.Admin.{scope_tenant_confined}
use aegis_capstone.Auth.Fresh.{require_recent_auth_iff}
use aegis_capstone.Auth.Principal.{
  AdminPrincipal, admin_principal, is_admin_token, recently_authenticated_principal,
  require_recent_auth, scope_tenant, scoped, too_old, role_principal,
}
use aegis_capstone.Auth.Token.{Validated, validate_token-Validated}
use aegis_capstone.Common.Dict.{Dict}
use aegis_capstone.Json.{v_text, v_flag}
use aegis_capstone.Rbac.{normalize_caps, empty_caps}
use aegis_capstone.Rbac.Assignments.{
  bound_to, bind, find_role, resolve_assignment, role_capabilities,
}
use aegis_capstone.Rbac.Assignments.Binding.{Resolved, resolve_assignment-Resolved}

abbrev claims : Claims
claims = record {
  sub = "u1";
  email = "Ann@acme";
  preferred_username = "ann";
  email_verified = true;
  groups = [];
  iat = some 1000;
}

abbrev env : Environment String
env = record {
  settings = record {
    admin_token = "root";
    allow_group_fallback = false;
    allow_email_binding = true;
    sensitive_action_max_age_minutes = 5;
  };
  jwks = λ force. some (if force then "new" else "old");
  decode = λ token keys. if token == "good" && keys == "new" then some claims else none;
  unverified_iat = λ token. if token == "good" then some 1000 else none;
  split = λ g. [];
  lower = λ s. if s == "Ann@acme" then "ann@acme" else s;
  now = 1200;
}

abbrev row : Option String → Assignment
row sub = record {
  user_email = "ann@acme";
  sub = sub;
  tenant_id = "acme";
  team_id = "research";
  role_id = "lead";
}

abbrev place : Place
place = record { tenant_id = "acme"; team_id = "research"; role_id = "lead" }

abbrev lead_caps : Dict Value
lead_caps = ("admin_scope", v_text "tenant") ∷ ("can_manage_users", v_flag true) ∷ []

abbrev db : Option String → Database
db sub = record {
  roles = some (record { tenant_id = "acme"; role_id = "lead"; capabilities = lead_caps } ∷ []);
  assignments = row sub ∷ [];
}

abbrev ann : Subject
ann = record {
  sub = "u1";
  email = "Ann@acme";
  tenant_id = "acme";
  team_id = "research";
  role = "lead";
  token_claims = claims;
}

binds :
    resolve_assignment env.lower true "u1" "Ann@acme" true (row none ∷ [])
    ≡ (some place, row (some "u1") ∷ [])
unfolding resolve_assignment bound_to bind
binds = refl

resolve_assignment-Resolved_example :
    Resolved env.lower true "u1" "Ann@acme" true (row none ∷ []) place (row (some "u1") ∷ [])
resolve_assignment-Resolved_example =
    resolve_assignment-Resolved env.lower true "u1" "Ann@acme" true (row none ∷ [])
      (row (some "u1") ∷ []) place binds

validated : validate_token env "good" (db none) ≡ (ok ann, db (some "u1"))
unfolding validate_token authenticate authorize subject_at session_expired resolve_assignment
    bound_to bind role_capabilities find_role normalize_caps empty_caps
validated = refl

validate_token-Validated_example : Validated env "good" (db none) ann
validate_token-Validated_example =
    validate_token-Validated env "good" (db none) (db (some "u1")) ann validated

abbrev lead : AdminPrincipal
lead = record {
  scope = "tenant";
  tenant_id = "acme";
  email = "Ann@acme";
  can_manage_users = true;
  can_manage_roles = false;
  can_edit_governance = false;
  can_register_skills = false;
  can_delete_tenant = false;
  audit_scope = "own";
  can_approve = "none";
  dual_control_actions = [];
  can_rotate_secrets = false;
  can_view_traces = false;
  can_manage_signing_keys = false;
  can_impersonate = "none";
}

admitted : admin_principal env "good" "" (db none) ≡ (ok lead, db (some "u1"))
unfolding admin_principal is_admin_token scoped role_principal validate_token authenticate authorize
    subject_at session_expired resolve_assignment bound_to bind role_capabilities find_role
    normalize_caps empty_caps
admitted = refl

own_tenant : scope_tenant lead "acme" ≡ none
unfolding scope_tenant
own_tenant = refl

scope_tenant_confined_example :
    (s : Subject) × Validated env "good" (db none) s × (s.tenant_id ≡ "acme")
scope_tenant_confined_example =
    scope_tenant_confined env "good" "" "acme" (db none) (db (some "u1")) lead admitted
      (λ q. grind (arith, eq_iff "tenant" "platform")) own_tenant

recent : recently_authenticated_principal env "good" "" (db none) ≡ (ok lead, db (some "u1"))
unfolding recently_authenticated_principal too_old admin_principal is_admin_token scoped
    role_principal validate_token authenticate authorize subject_at session_expired
    resolve_assignment bound_to bind role_capabilities find_role normalize_caps empty_caps
recent = refl

no_admin_token : is_admin_token env "" ≡ false
unfolding is_admin_token
no_admin_token = refl

ann_may : require_recent_auth env ann (some 5) ≡ none
ann_may = (require_recent_auth_iff env ann 5).1 (inr (1000, refl, omega arith))
