-- ===== src/Tenants/Examples.antt =====
-- Two tenants and their administrators.
use aegis_capstone.Common.{
  ℕ, String, ◌≡◌, refl, true, none, some, [], ◌∷◌, length, ◌≢◌, Bool, ◌≤◌, ◌+◌, any, not, is_some,
  ◌⊎◌, List,
}
use aegis_capstone.Approvals.{
  Executor, State, load, Resource, approve, create_pending, claim, proceed, approve_row, update,
  executors, ok,
}
use aegis_capstone.Approvals.Kept.{all_happen, Event, happen, call, outside}
use aegis_capstone.Approvals.Once.{step, create}
use aegis_capstone.Auth.Principal.{AdminPrincipal, scope_tenant, token_principal, require_platform}
use aegis_capstone.Common.Dict.{lookup, Dict}
use aegis_capstone.Json.{v_text}
use aegis_capstone.Rbac.{normalize_caps, empty_caps}
use aegis_capstone.Tenants.{Assignment, Org, RoleRow, is_role, audit, is_team, initial_caps}
use aegis_capstone.Tenants.Confined.{IsKeyed, of_tenant}
use aegis_capstone.Tenants.DualControl.{admin_setting, approve-delete_tenant_handler, deletion}
use aegis_capstone.Tenants.Handlers.{
  handle, AssignmentCreate, Services, guarded, may_move, remove_user, tenant_filter_of,
  update_assignment, update_found, find_assignment, is_assignment, delete_assignment, delete_found,
  create_assignment, insert_assignment, after_insert, has_email, or_old, move, put_user, post_user,
}
use aegis_capstone.Tenants.Lifecycle.{
  TenantCreate, create_tenant, delete_tenant, insert_teams, upsert_roles, teams_or_default,
  default_specs, first_or_research, delete_tenant_handler, queued,
}
use aegis_capstone.Tenants.LoginSafety.{handle_login-Confined}
use aegis_capstone.Tenants.Logins.{
  Keycloak, LoginRequest, handle_login, provision_login, reset, in_scope, replied, email_of, unbind,
  provision,
}
use aegis_capstone.Tenants.RoundTrip.{IsAbsent, tables, delete_tenant-create_tenant}
use aegis_capstone.Tenants.Safety.{handle-of_tenant}

abbrev services : Services
services = record { lower = λ s. s; create_login = λ e p. true }

-- An administrator of the tenant `acme`.
abbrev boss : AdminPrincipal
boss = record token_principal { scope = "tenant"; tenant_id = "acme" }

abbrev row : ℕ → String → String → Assignment
row id email tenant = record {
  assignment_id = id;
  user_email = email;
  tenant_id = tenant;
  team_id = "t";
  role_id = "analyst";
  sub = none;
}

abbrev analyst : String → RoleRow
analyst tenant = record {
  tenant_id = tenant;
  role_id = "analyst";
  team_id = "t";
  template_id = "analyst";
  capabilities = [];
}

abbrev org : Org
org = record {
  tenants = "acme" ∷ "globex" ∷ [];
  teams = [];
  roles = analyst "acme" ∷ analyst "globex" ∷ [];
  assignments = row 1 "ann" "acme" ∷ row 2 "bob" "globex" ∷ [];
  next_id = 3;
  audited = [];
}

org-IsKeyed : IsKeyed org.assignments
unfolding IsKeyed
org-IsKeyed = ((refl, tt), (tt, tt))

-- The assignment that asks for a login without a password is refused, and yet is there.
abbrev half_done : AssignmentCreate
half_done = record {
  email = "eve";
  tenant_id = "acme";
  team_id = "t";
  role_id = "analyst";
  create_login = true;
  password = "";
}

-- Bob is out of reach for the other tenant's administrator.
boss_runs :
    ((handle services boss
        (put_user 2 (record { tenant_id = ""; team_id = ""; role_id = "" }))
        org).1.0
      ≡ some "assignment_not_found")
    × ((handle services boss (remove_user 2) org).1.0 ≡ some "assignment_not_found")
    × ((handle services boss (remove_user 1) org).1.0 ≡ none)
    × ((handle services boss (post_user half_done) org).1.0 ≡ some "password_required_for_login")
    × (length (handle services boss (post_user half_done) org).1.1.assignments ≡ 3)
unfolding handle guarded may_move tenant_filter_of update_assignment update_found find_assignment
    is_assignment delete_assignment delete_found create_assignment insert_assignment after_insert
    is_role has_email scope_tenant token_principal or_old move audit
boss_runs = (refl, refl, refl, refl, refl)

boss_tenant : (boss.scope ≡ "tenant") × (boss.tenant_id ≡ "acme")
unfolding token_principal
boss_tenant = (refl, refl)

handle-of_tenant_example :
    of_tenant "globex" (handle services boss (remove_user 2) org).1.1 ≡ of_tenant "globex" org
handle-of_tenant_example =
    handle-of_tenant "globex" services boss (remove_user 2) org boss_tenant.0 refl refl org-IsKeyed

-- The capabilities that an administrator writes may have a platform's scope.
escalates :
    lookup "admin_scope" (normalize_caps (some (("admin_scope", v_text "platform") ∷ [])))
    ≡ some (v_text "platform")
unfolding normalize_caps empty_caps
escalates = refl

abbrev initech : TenantCreate
initech = record { tenant_id = "initech"; teams = []; roles = none }

initech-IsAbsent : IsAbsent "initech" org
initech-IsAbsent = record {
  no_tenant = (refl, (refl, tt));
  no_team = tt;
  no_role = (refl, (refl, tt));
  no_assignment = (refl, (refl, tt));
}

-- The new tenant has one team and the three default roles.
create_tenant_runs :
    (length (create_tenant initech org).1.teams ≡ 1)
    × (length (create_tenant initech org).1.roles ≡ 5)
    × ((create_tenant initech (create_tenant initech org).1).0 ≡ some "tenant_exists")
unfolding create_tenant insert_teams upsert_roles teams_or_default default_specs first_or_research
    is_team is_role initial_caps normalize_caps empty_caps audit
create_tenant_runs = (refl, refl, refl)

delete_tenant-create_tenant_example :
    ((create_tenant initech org).0 ≡ none)
    × ((delete_tenant "initech" (create_tenant initech org).1).0 ≡ none)
    × (tables (delete_tenant "initech" (create_tenant initech org).1).1 ≡ tables org)
delete_tenant-create_tenant_example = delete_tenant-create_tenant initech org initech-IsAbsent

-- A platform administrator whose deletions are under dual control.
abbrev careful : AdminPrincipal
careful = record token_principal { email = "ann"; dual_control_actions = "tenant.delete" ∷ [] }

abbrev same : String → String
same s = s

abbrev others : Executor → String → Resource → Org → Bool × Org
others x tenant_id resource db = (true, db)

abbrev empty_queue : State Org
empty_queue = record { next_id = 1; table = []; audit = []; runs = []; world = org }

abbrev asked : State Org
asked = (delete_tenant_handler careful "acme" "acme" 10 24 empty_queue).1

-- Meanwhile, Carol asks for something else and a tenant is created.
abbrev meanwhile : List (Event Org)
meanwhile =
    call (create "globex" "secret.rotate" [] "carol" 11 24)
    ∷ outside (λ db. (create_tenant initech db).1)
    ∷ []

abbrev later_on : State Org
later_on = all_happen (admin_setting same others) meanwhile asked

abbrev granted : State Org
granted = (approve (admin_setting same others) 1 "bob" "" 20 later_on).1

asked_runs : delete_tenant_handler careful "acme" "acme" 10 24 empty_queue ≡ (queued 1, asked)
unfolding delete_tenant_handler create_pending token_principal require_platform
asked_runs = refl

granted_runs :
    approve (admin_setting same others) 1 "bob" "" 20 later_on
    ≡ (ok (deletion careful "acme" 10 24 empty_queue), granted)
unfolding delete_tenant_handler create_pending token_principal require_platform approve claim
    proceed approve_row load update delete_tenant executors all_happen happen step create_tenant
    audit
granted_runs = refl

approve-delete_tenant_handler_example :
    (same "bob" ≢ same careful.email)
    × (20 ≤ 10 + 24)
    × (delete_tenant "acme" later_on.world ≡ (none, granted.world))
approve-delete_tenant_handler_example =
    approve-delete_tenant_handler same others careful "acme" "acme" "bob" "" 10 24 20 1 empty_queue
      asked granted meanwhile (deletion careful "acme" 10 24 empty_queue) tt asked_runs granted_runs

-- Logins are emails with passwords; a login that is there is not created.
abbrev keycloak : Keycloak (Dict String)
keycloak = record {
  lower = λ s. s;
  create_login =
      λ email password k. (replied (not (is_some (lookup email k))), (email, password) ∷ k);
  set_password_by_username = λ email password k. (replied true, (email, password) ∷ k);
}

abbrev bob_reset : LoginRequest keycloak
bob_reset = reset (record { email = "bob"; new_password = "p" })

-- Ann's login is provisioned and its assignment unbound.
provision_runs :
    handle_login keycloak boss
      (provision (record { email = "ann"; password = "p"; rebind = true }))
      org
      []
    ≡ (none, audit "admin.user.provision_login" "acme" org, ("ann", "p") ∷ [])
unfolding handle_login provision_login in_scope unbind tenant_filter_of token_principal
provision_runs = refl

handle_login-Confined_example :
    (of_tenant "globex" (handle_login keycloak boss bob_reset org []).1 ≡ of_tenant "globex" org)
    × ((any (in_scope keycloak (email_of keycloak bob_reset) boss.tenant_id) org.assignments ≡ true)
        ⊎ ((is_some (handle_login keycloak boss bob_reset org []).0 ≡ true)
            × ((handle_login keycloak boss bob_reset org []).1 ≡ org)
            × ((handle_login keycloak boss bob_reset org []).2 ≡ [])))
handle_login-Confined_example =
    handle_login-Confined keycloak "globex" boss bob_reset org [] boss_tenant.0 refl refl
