-- ===== src/Tenants/Lifecycle.antt =====
-- Creating and deleting a tenant, src/aegis_fabric/admin.py. The row of values for the organisation, the
-- documents and the logs are left out. Deleting is under dual control where the principal's
-- capabilities say so: the queue is that of Approvals, on whose world the tables stand.
use aegis_capstone.Common.{
  ℕ, String, ◌||◌, not, Option, none, some, List, [], ◌∷◌, ◌++◌, map, ◌==◌, if◌then◌else◌, or_else,
  is_some, keep, any, contains, update_where,
}
use aegis_capstone.Approvals.{State, create_pending}
use aegis_capstone.Auth.Principal.{AdminPrincipal, require_platform}
use aegis_capstone.Json.{text}
use aegis_capstone.Tenants.{
  Assignment, Outcome, Org, RoleCreate, Team, RoleRow, audit, is_team, is_role, new_team, new_role,
}

pub record TenantCreate : Type 0 where
  pub tenant_id : String
  pub teams : List String
  pub roles : Option (List RoleCreate)

-- `DEFAULT_TEAMS` and `DEFAULT_ROLE_TEMPLATES`
abbrev pub default_teams : List String
default_teams = "research" ∷ []

abbrev pub default_role_templates : List String
default_role_templates = "analyst" ∷ "lead" ∷ "viewer" ∷ []

-- `payload.teams or list(DEFAULT_TEAMS)`
unfoldable pub teams_or_default : List String → List String
teams_or_default [] = default_teams
teams_or_default (t ∷ ts) = t ∷ ts

-- `INSERT INTO teams … ON CONFLICT DO NOTHING`, for each team.
unfoldable pub insert_teams : String → List String → List Team → List Team
insert_teams tenant_id [] teams = teams
insert_teams tenant_id (t ∷ ts) teams =
    insert_teams tenant_id ts
      (if any (is_team tenant_id t) teams then teams else teams ++ new_team tenant_id t ∷ [])

unfoldable pub first_or_research : List String → String
first_or_research [] = "research"
first_or_research (t ∷ ts) = t

-- One role for every default template, in the first team.
unfoldable pub default_specs : String → List RoleCreate
default_specs team_id =
    map (λ r. record { role_id = r; team_id = team_id; template_id = r; capabilities = [] })
      default_role_templates

-- `INSERT INTO roles … ON CONFLICT (tenant_id, role_id) DO UPDATE`, for each specification.
unfoldable pub upsert_roles : String → List RoleCreate → List RoleRow → List RoleRow
upsert_roles tenant_id [] roles = roles
upsert_roles tenant_id (r ∷ rs) roles = upsert_roles tenant_id rs (
    if any (is_role tenant_id r.role_id) roles
    then update_where (is_role tenant_id r.role_id) (λ o. new_role tenant_id r) roles
    else roles ++ new_role tenant_id r ∷ [])

-- `_create_tenant`
unfoldable pub create_tenant : TenantCreate → Org → Outcome
create_tenant p db = if contains p.tenant_id db.tenants then (some "tenant_exists", db) else (
  none,
  audit "admin.tenant.create" p.tenant_id (record db {
    tenants = db.tenants ++ p.tenant_id ∷ [];
    teams = insert_teams p.tenant_id (teams_or_default p.teams) db.teams;
    roles =
        upsert_roles p.tenant_id
          (or_else p.roles (default_specs (first_or_research (teams_or_default p.teams)))) db.roles;
  }),
)

-- The rows that a foreign key does not take along.
unfoldable pub cascade : String → Org → Org
cascade tenant_id db = record db {
  tenants = keep (λ t. not (t == tenant_id)) db.tenants;
  teams = keep (λ (t : Team). not (t.tenant_id == tenant_id)) db.teams;
  roles = keep (λ (r : RoleRow). not (r.tenant_id == tenant_id)) db.roles;
  assignments = keep (λ (a : Assignment). not (a.tenant_id == tenant_id)) db.assignments;
}

-- `_delete_tenant`
unfoldable pub delete_tenant : String → Org → Outcome
delete_tenant tenant_id db =
    if contains tenant_id db.tenants
    then (none, audit "admin.tenant.delete" tenant_id (cascade tenant_id db))
    else (some "tenant_not_found", db)

-- The answer of the handler `delete_tenant`: an HTTP status, an id in the queue, or an outcome.
pub data Answer : Type 0 where
  refused : ℕ → Answer
  queued : ℕ → Answer
  returned : Option String → Answer

abbrev pub answer_queued : ℕ × State Org → Answer × State Org
answer_queued (id, s) = (queued id, s)

abbrev pub answer_deleted : State Org → Outcome → Answer × State Org
answer_deleted s (code, db) = (returned code, record s { world = db })

-- The handler `delete_tenant`
unfoldable pub delete_tenant_handler :
    AdminPrincipal → String → String → ℕ → ℕ → State Org → Answer × State Org
delete_tenant_handler p tenant_id confirm now day s =
    if is_some (require_platform p) || not p.can_delete_tenant
    then (refused 403, s)
    else if not (confirm == tenant_id)
    then (refused 400, s)
    else if contains "tenant.delete" p.dual_control_actions
    then answer_queued (
        create_pending tenant_id "tenant.delete" (("tenant_id", text tenant_id) ∷ []) p.email now
          day s)
    else answer_deleted s (delete_tenant tenant_id s.world)
