-- ===== src/Tenants.antt =====
-- The administration of tenants by src/aegis_fabric/admin.py: teams, roles and assignments of users, over
-- the tables of the organisation. Keycloak and `str.lower` are parameters; the push of roles to OPA,
-- display names of teams and the payloads of the audit calls are left out.
pub mod Handlers
pub mod Confined
pub mod Safety
pub mod Lifecycle
pub mod RoundTrip
pub mod DualControl
pub mod Logins
pub mod LoginSafety
pub mod Rows
mod Examples
use aegis_capstone.Common.{
  ◌<>◌, ℕ, zero, suc, ◌+◌, ◌-◌, ◌≤◌, ◌<◌, String, ◌≡◌, refl, sym, ap, ◌∙◌, ◌≢◌, ◌⊎◌, inl, inr, Bool,
  true, false, ◌&&◌, ◌||◌, not, Option, none, some, List, [], ◌∷◌, ◌++◌, map, arith, ◌==◌, eq_iff,
  ltb, leb, eqb, if◌then◌else◌, Bool-cases, Option-cases, or_else, is_some, length, is_empty, keep,
  any, All, contains, update_where,
}
use aegis_capstone.Common.Dict.{Dict}
use aegis_capstone.Json.{Value}
use aegis_capstone.Rbac.{normalize_caps, template_capabilities}

pub record Team : Type 0 where
  pub tenant_id : String
  pub team_id : String

pub record RoleRow : Type 0 where
  pub tenant_id : String
  pub role_id : String
  pub team_id : String
  pub template_id : String
  pub capabilities : Dict Value

pub record Assignment : Type 0 where
  pub assignment_id : ℕ
  pub user_email : String
  pub tenant_id : String
  pub team_id : String
  pub role_id : String
  pub sub : Option String

-- The tables, the next id of an assignment, and the calls of `_audit_admin`: action and tenant.
pub record Org : Type 0 where
  pub tenants : List String
  pub teams : List Team
  pub roles : List RoleRow
  pub assignments : List Assignment
  pub next_id : ℕ
  pub audited : List (String × String)

-- A function either returns, or raises a ValueError with a code.
abbrev pub Outcome : Type 0
Outcome = Option String × Org

unfoldable pub is_role : String → String → RoleRow → Bool
is_role tenant_id role_id r = r.tenant_id == tenant_id && r.role_id == role_id

unfoldable pub is_team : String → String → Team → Bool
is_team tenant_id team_id t = t.tenant_id == tenant_id && t.team_id == team_id

unfoldable pub audit : String → String → Org → Org
audit action tenant_id db = record db { audited = db.audited ++ (action, tenant_id) ∷ [] }

pub record RoleCreate : Type 0 where
  pub role_id : String
  pub team_id : String
  pub template_id : String
  pub capabilities : Dict Value

-- `r.template_id or r.role_id`
unfoldable pub template_or_role : RoleCreate → String
template_or_role r = if r.template_id == "" then r.role_id else r.template_id

-- `normalize_caps(r.capabilities) if r.capabilities else template_capabilities(template_id)`
unfoldable pub initial_caps : RoleCreate → Dict Value
initial_caps r =
    if is_empty r.capabilities
    then template_capabilities (template_or_role r)
    else normalize_caps (some r.capabilities)

abbrev pub new_role : String → RoleCreate → RoleRow
new_role tenant_id r = record {
  tenant_id = tenant_id;
  role_id = r.role_id;
  team_id = r.team_id;
  template_id = template_or_role r;
  capabilities = initial_caps r;
}

-- `_add_role`
unfoldable pub add_role : String → RoleCreate → Org → Outcome
add_role tenant_id r db =
    if not (contains tenant_id db.tenants)
    then (some "tenant_not_found", db)
    else if any (is_role tenant_id r.role_id) db.roles
    then (some "role_exists", db)
    else (
      none,
      audit "admin.role.create" tenant_id
          (record db { roles = db.roles ++ new_role tenant_id r ∷ [] }),
    )

-- `_delete_role`
unfoldable pub delete_role : String → String → Org → Outcome
delete_role tenant_id role_id db =
    if any (is_role tenant_id role_id) db.roles
    then (
      none,
      audit "admin.role.delete" tenant_id
          (record db { roles = keep (λ r. not (is_role tenant_id role_id r)) db.roles }),
    )
    else (some "role_not_found", db)

-- `SET capabilities=%s`
abbrev pub set_caps : Dict Value → RoleRow → RoleRow
set_caps caps r = record r { capabilities = normalize_caps (some caps) }

-- `_update_role_caps`
unfoldable pub update_role_caps : String → String → Dict Value → Org → Outcome
update_role_caps tenant_id role_id caps db =
    if any (is_role tenant_id role_id) db.roles
    then (
      none,
      audit "admin.role.update_capabilities" tenant_id
          (record db { roles = update_where (is_role tenant_id role_id) (set_caps caps) db.roles }),
    )
    else (some "role_not_found", db)

abbrev pub new_team : String → String → Team
new_team tenant_id team_id = record { tenant_id = tenant_id; team_id = team_id }

-- `_add_team`
unfoldable pub add_team : String → String → Org → Outcome
add_team tenant_id team_id db =
    if not (contains tenant_id db.tenants)
    then (some "tenant_not_found", db)
    else if any (is_team tenant_id team_id) db.teams
    then (some "team_exists", db)
    else (
      none,
      audit "admin.team.create" tenant_id
          (record db { teams = db.teams ++ new_team tenant_id team_id ∷ [] }),
    )

unfoldable pub uses_team : String → String → RoleRow → Bool
uses_team tenant_id team_id r = r.tenant_id == tenant_id && r.team_id == team_id

-- `_delete_team`: a team that a role uses stays.
unfoldable pub delete_team : String → String → Org → Outcome
delete_team tenant_id team_id db =
    if any (uses_team tenant_id team_id) db.roles
    then (some "team_in_use", db)
    else if any (is_team tenant_id team_id) db.teams
    then (
      none,
      audit "admin.team.delete" tenant_id
          (record db { teams = keep (λ t. not (is_team tenant_id team_id t)) db.teams }),
    )
    else (some "team_not_found", db)
