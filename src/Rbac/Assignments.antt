-- ===== src/Rbac/Assignments.antt =====
-- The reads of the database in src/aegis_fabric/rbac.py: `role_capabilities` and
-- `resolve_assignment`, over the tables `roles` and `user_assignments`. `str.lower` and SQL's `lower`
-- are one parameter; `assignment_id` is the primary key and orders the table, so that the UPDATE
-- changes the row that the SELECT has read.
pub mod Binding
use aegis_capstone.Common.{
  ◌<>◌, ℕ, zero, suc, ◌+◌, ◌-◌, ◌≤◌, ◌<◌, String, ◌≡◌, refl, sym, ap, ◌∙◌, ◌≢◌, ◌⊎◌, inl, inr, Bool,
  true, false, ◌&&◌, ◌||◌, not, Option, none, some, List, [], ◌∷◌, ◌++◌, map, arith, ◌==◌, eq_iff,
  ltb, leb, eqb, if◌then◌else◌, Bool-cases, Option-cases, or_else, is_some, length, is_empty, keep,
  any, All, contains,
}
use aegis_capstone.Common.Dict.{Dict}
use aegis_capstone.Json.{Value}
use aegis_capstone.Rbac.{empty_caps, normalize_caps}

pub record RoleRow : Type 0 where
  pub tenant_id : String
  pub role_id : String
  pub capabilities : Dict Value

unfoldable pub find_role : String → String → List RoleRow → Option (Dict Value)
find_role tenant_id role_id [] = none
find_role tenant_id role_id (r ∷ rows) =
    if r.tenant_id == tenant_id && r.role_id == role_id
    then some r.capabilities
    else find_role tenant_id role_id rows

abbrev pub stored_caps : Option (Dict Value) → Dict Value
stored_caps none = empty_caps
stored_caps (some caps) = if is_empty caps then empty_caps else normalize_caps (some caps)

-- `role_capabilities`; `none` is a query that fails.
unfoldable pub role_capabilities : Option (List RoleRow) → String → String → Dict Value
unfolding find_role
role_capabilities none tenant_id role_id = empty_caps
role_capabilities (some rows) tenant_id role_id = stored_caps (find_role tenant_id role_id rows)

-- A row of `user_assignments`; `sub` is null until the row is bound.
pub record Assignment : Type 0 where
  pub user_email : String
  pub sub : Option String
  pub tenant_id : String
  pub team_id : String
  pub role_id : String

-- The columns that the caller gets.
pub record Place : Type 0 where
  pub tenant_id : String
  pub team_id : String
  pub role_id : String

abbrev pub place_of : Assignment → Place
place_of a = record { tenant_id = a.tenant_id; team_id = a.team_id; role_id = a.role_id }

abbrev pub is_sub : String → Option String → Bool
is_sub s none = false
is_sub s (some t) = t == s

-- `WHERE sub=%s`
unfoldable pub bound_to : String → List Assignment → Option Place
bound_to sub [] = none
bound_to sub (a ∷ rows) = if is_sub sub a.sub then some (place_of a) else bound_to sub rows

module _ (lower : String → String) where
  abbrev pub is_unbound : String → Assignment → Bool
  is_unbound email a = not (is_some a.sub) && lower a.user_email == lower email

  -- `WHERE sub IS NULL AND lower(user_email)=lower(%s) ORDER BY assignment_id LIMIT 1`, and the UPDATE
  -- of that row.
  unfoldable pub bind : String → String → List Assignment → Option Place × List Assignment
  bind sub email [] = (none, [])
  bind sub email (a ∷ rows) =
      let rest = bind sub email rows in
      if is_unbound email a
      then (some (place_of a), record a { sub = some sub } ∷ rows)
      else (rest.0, a ∷ rest.1)

  -- What follows the first SELECT; `allow_email_binding` is the setting, no email the empty text.
  abbrev pub or_bind :
      Option Place
      → Bool
      → String
      → String
      → Bool
      → List Assignment
      → Option Place × List Assignment
  or_bind (some p) allow_email_binding sub email email_verified rows = (some p, rows)
  or_bind none allow_email_binding sub email email_verified rows =
      if allow_email_binding && not (email == "") && email_verified
      then bind sub email rows
      else (none, rows)

  unfoldable pub resolve_assignment :
      Bool → String → String → Bool → List Assignment → Option Place × List Assignment
  unfolding bound_to bind
  resolve_assignment allow_email_binding sub email email_verified rows =
      or_bind (bound_to sub rows) allow_email_binding sub email email_verified rows
