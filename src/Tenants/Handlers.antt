-- ===== src/Tenants/Handlers.antt =====
-- The assignments of users, and the handlers of src/aegis_fabric/admin.py with their guards.
use aegis_capstone.Common.{
  ℕ, ◌+◌, String, Bool, true, false, ◌&&◌, ◌||◌, not, Option, none, some, List, [], ◌∷◌, ◌++◌, ◌==◌,
  eqb, if◌then◌else◌, keep, any, update_where,
}
use aegis_capstone.Auth.{HttpError, forbidden}
use aegis_capstone.Auth.Principal.{AdminPrincipal, scope_tenant}
use aegis_capstone.Tenants.{
  Org, RoleCreate, Assignment, Dict, Outcome, Value, add_role, audit, is_role, delete_role,
  update_role_caps, add_team, delete_team,
}

pub record AssignmentCreate : Type 0 where
  pub email : String
  pub tenant_id : String
  pub team_id : String
  pub role_id : String
  pub create_login : Bool
  pub password : String

-- No text stands for an omitted field.
pub record AssignmentUpdate : Type 0 where
  pub tenant_id : String
  pub team_id : String
  pub role_id : String

-- `str.lower`, and whether `keycloak_admin.create_login` returns.
pub record Services : Type 0 where
  pub lower : String → String
  pub create_login : String → String → Bool

unfoldable pub has_email : Services → String → String → Assignment → Bool
has_email s email tenant_id a = s.lower a.user_email == s.lower email && a.tenant_id == tenant_id

abbrev pub new_assignment : AssignmentCreate → ℕ → Assignment
new_assignment a id = record {
  assignment_id = id;
  user_email = a.email;
  tenant_id = a.tenant_id;
  team_id = a.team_id;
  role_id = a.role_id;
  sub = none;
}

-- The transaction of `_create_assignment`: its row is committed before the login is made.
unfoldable pub insert_assignment : AssignmentCreate → Org → Org
insert_assignment a db = record db {
  assignments = db.assignments ++ new_assignment a db.next_id ∷ [];
  next_id = db.next_id + 1;
}

unfoldable pub after_insert : Services → AssignmentCreate → Org → Outcome
after_insert s a db =
    if a.create_login && a.password == ""
    then (some "password_required_for_login", db)
    else if a.create_login && not (s.create_login a.email a.password)
    then (some "login_failed", db)
    else (none, audit "admin.assignment.create" a.tenant_id db)

-- `_create_assignment`
unfoldable pub create_assignment : Services → AssignmentCreate → Org → Outcome
create_assignment s a db =
    if not (any (is_role a.tenant_id a.role_id) db.roles)
    then (some "role_not_found", db)
    else if any (has_email s a.email a.tenant_id) db.assignments
    then (some "assignment_exists", db)
    else after_insert s a (insert_assignment a db)

-- `WHERE assignment_id=%s`, with `AND tenant_id=%s` under a filter.
unfoldable pub is_assignment : ℕ → String → Assignment → Bool
is_assignment id tenant_filter a =
    eqb a.assignment_id id && (tenant_filter == "" || a.tenant_id == tenant_filter)

unfoldable pub find_assignment : ℕ → String → List Assignment → Option Assignment
find_assignment id tenant_filter [] = none
find_assignment id tenant_filter (a ∷ rest) =
    if is_assignment id tenant_filter a then some a else find_assignment id tenant_filter rest

unfoldable pub delete_found : ℕ → String → Option Assignment → Org → Outcome
delete_found id tenant_filter none db = (some "assignment_not_found", db)
delete_found id tenant_filter (some a) db = (
  none,
  audit "admin.assignment.delete" a.tenant_id (record db {
    assignments = keep (λ b. not (is_assignment id tenant_filter b)) db.assignments;
  }),
)

-- `_delete_assignment`
unfoldable pub delete_assignment : ℕ → String → Org → Outcome
delete_assignment id tenant_filter db =
    delete_found id tenant_filter (find_assignment id tenant_filter db.assignments) db

-- `u.tenant_id or cur["tenant_id"]`
unfoldable pub or_old : String → String → String
or_old new old = if new == "" then old else new

unfoldable pub move : AssignmentUpdate → Assignment → Assignment
move u a = record a {
  tenant_id = or_old u.tenant_id a.tenant_id;
  team_id = or_old u.team_id a.team_id;
  role_id = or_old u.role_id a.role_id;
}

-- `SET tenant_id=%s, team_id=%s, role_id=%s`
unfoldable pub moved_to : Assignment → Assignment → Assignment
moved_to new b = record b {
  tenant_id = new.tenant_id;
  team_id = new.team_id;
  role_id = new.role_id;
}

unfoldable pub update_found : ℕ → AssignmentUpdate → String → Option Assignment → Org → Outcome
update_found id u tenant_filter none db = (some "assignment_not_found", db)
update_found id u tenant_filter (some a) db =
    if not (tenant_filter == "") && not (a.tenant_id == tenant_filter)
    then (some "assignment_not_found", db)
    else if not (tenant_filter == "") && not (or_old u.tenant_id a.tenant_id == tenant_filter)
    then (some "cross_tenant_move_forbidden", db)
    else if not (any (is_role (move u a).tenant_id (move u a).role_id) db.roles)
    then (some "role_not_found", db)
    else (
      none,
      audit "admin.assignment.update" (move u a).tenant_id (record db {
        assignments =
            update_where (λ b. eqb b.assignment_id id) (moved_to (move u a)) db.assignments;
      }),
    )

-- `_update_assignment`: the row is read without a filter.
unfoldable pub update_assignment : ℕ → AssignmentUpdate → String → Org → Outcome
update_assignment id u tenant_filter db =
    update_found id u tenant_filter (find_assignment id "" db.assignments) db

-- A request to one of the handlers.
pub data Request : Type 0 where
  post_role : String → RoleCreate → Request
  remove_role : String → String → Request
  put_role_caps : String → String → Dict Value → Request
  post_team : String → String → Request
  remove_team : String → String → Request
  post_user : AssignmentCreate → Request
  put_user : ℕ → AssignmentUpdate → Request
  remove_user : ℕ → Request

-- The guards of a handler, and what it runs behind them: an HTTP error, or an outcome.
unfoldable pub guarded : Option HttpError → Bool → Outcome → Org → Option HttpError × Outcome
guarded (some e) cap outcome db = (some e, (none, db))
guarded none false outcome db = (some (forbidden "missing capability"), (none, db))
guarded none true outcome db = (none, outcome)

-- `principal.tenant_id if principal.scope == "tenant" else None`
unfoldable pub tenant_filter_of : AdminPrincipal → String
tenant_filter_of p = if p.scope == "tenant" then p.tenant_id else ""

-- The check of `update_user` on the target tenant.
unfoldable pub may_move : AdminPrincipal → AssignmentUpdate → Option HttpError
may_move p u =
    if not (u.tenant_id == "") && (not (p.scope == "platform") && not (u.tenant_id == p.tenant_id))
    then some (forbidden "moving a user to another tenant requires platform scope")
    else none

-- The handlers: `add_role`, `delete_role`, `update_role_caps`, `add_team`, `delete_team`, `create_user`,
-- `update_user` and `delete_user`.
unfoldable pub handle : Services → AdminPrincipal → Request → Org → Option HttpError × Outcome
handle s p (post_role t r) db = guarded (scope_tenant p t) p.can_manage_roles (add_role t r db) db
handle s p (remove_role t r) db =
    guarded (scope_tenant p t) p.can_manage_roles (delete_role t r db) db
handle s p (put_role_caps t r c) db =
    guarded (scope_tenant p t) p.can_edit_governance (update_role_caps t r c db) db
handle s p (post_team t m) db = guarded (scope_tenant p t) p.can_manage_roles (add_team t m db) db
handle s p (remove_team t m) db =
    guarded (scope_tenant p t) p.can_manage_roles (delete_team t m db) db
handle s p (post_user a) db =
    guarded (scope_tenant p a.tenant_id) p.can_manage_users (create_assignment s a db) db
handle s p (put_user id u) db =
    if not p.can_manage_users
    then guarded none false (none, db) db
    else guarded (may_move p u) true (update_assignment id u (tenant_filter_of p) db) db
handle s p (remove_user id) db =
    guarded none p.can_manage_users (delete_assignment id (tenant_filter_of p) db) db
