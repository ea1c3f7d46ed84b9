-- ===== src/Tenants/Logins.antt =====
-- Resetting and provisioning a user's login, src/aegis_fabric/admin.py. The logins are Keycloak's: what its
-- client src/aegis_fabric/keycloak_admin.py does to them is a parameter.
use aegis_capstone.Common.{
  String, Bool, true, false, ◌&&◌, ◌||◌, Option, none, some, ◌==◌, if◌then◌else◌, any, update_where,
}
use aegis_capstone.Auth.Principal.{AdminPrincipal}
use aegis_capstone.Tenants.{Org, Assignment, audit}
use aegis_capstone.Tenants.Handlers.{tenant_filter_of}

-- How a call of the client ends; `not_found` is its ValueError `login_not_found`.
pub data Reply : Type 0 where
  replied : Bool → Reply
  not_found failed : Reply

pub record Keycloak (K : Type 0) : Type 0 where
  pub lower : String → String
  pub create_login : String → String → K → Reply × K
  pub set_password_by_username : String → String → K → Reply × K

pub record PasswordReset : Type 0 where
  pub email : String
  pub new_password : String

pub record ProvisionLogin : Type 0 where
  pub email : String
  pub password : String
  pub rebind : Bool

-- How a call ends: `none` if it returns, and else the message of what it raises.
abbrev pub Ended : Type 0 → Type 0
Ended K = Option String × Org × K

module _ {K : Type 0} (c : Keycloak K) where
  -- `WHERE lower(user_email)=lower(%s)`, with `AND tenant_id=%s` under a filter.
  unfoldable pub in_scope : String → String → Assignment → Bool
  in_scope email tenant_filter a =
      c.lower a.user_email == c.lower email && (tenant_filter == "" || a.tenant_id == tenant_filter)

  abbrev pub after_reset : String → Org → Reply × K → Ended K
  after_reset tenant db (replied b, k) = (none, audit "admin.user.reset_password" tenant db, k)
  after_reset tenant db (not_found, k) = (some "login_not_found", db, k)
  after_reset tenant db (failed, k) = (some "http_error", db, k)

  -- `tenant_filter or "*"`
  abbrev pub filter_or_star : String → String
  filter_or_star tenant_filter = if tenant_filter == "" then "*" else tenant_filter

  -- `_reset_user_password`
  unfoldable pub reset_user_password : PasswordReset → String → Org → K → Ended K
  reset_user_password p tenant_filter db k =
      if any (in_scope p.email tenant_filter) db.assignments
      then after_reset (filter_or_star tenant_filter) db
          (c.set_password_by_username p.email p.new_password k)
      else (some "assignment_not_found", db, k)

  -- `SET sub=NULL`
  unfoldable pub unbind : ProvisionLogin → String → Org → Org
  unbind p tenant_filter db =
      if p.rebind
      then record db {
        assignments =
            update_where (in_scope p.email tenant_filter) (λ a. record a { sub = none })
              db.assignments;
      }
      else db

  abbrev pub provisioned : String → Org → K → Ended K
  provisioned tenant db k = (none, audit "admin.user.provision_login" tenant db, k)

  -- The password of a login that was there before is set; `login_not_found` is passed over.
  abbrev pub after_set : String → Org → Reply × K → Ended K
  after_set tenant db (failed, k) = (some "http_error", db, k)
  after_set tenant db (r, k) = provisioned tenant db k

  abbrev pub after_create : String → ProvisionLogin → Org → Reply × K → Ended K
  after_create tenant p db (replied true, k) = provisioned tenant db k
  after_create tenant p db (replied false, k) =
      after_set tenant db (c.set_password_by_username p.email p.password k)
  after_create tenant p db (r, k) = (some "http_error", db, k)

  -- `_provision_login`
  unfoldable pub provision_login : ProvisionLogin → String → Org → K → Ended K
  provision_login p tenant_filter db k =
      if any (in_scope p.email tenant_filter) db.assignments
      then after_create (filter_or_star tenant_filter) p (unbind p tenant_filter db)
          (c.create_login p.email p.password k)
      else (some "assignment_not_found", db, k)

  pub data LoginRequest : Type 0 where
    reset : PasswordReset → LoginRequest
    provision : ProvisionLogin → LoginRequest

  abbrev pub email_of : LoginRequest → String
  email_of (reset p) = p.email
  email_of (provision p) = p.email

  abbrev pub run_request : LoginRequest → String → Org → K → Ended K
  run_request (reset p) = reset_user_password p
  run_request (provision p) = provision_login p

  -- The handlers `reset_user_password` and `provision_user_login`
  unfoldable pub handle_login : AdminPrincipal → LoginRequest → Org → K → Ended K
  handle_login p r db k =
      if p.can_manage_users
      then run_request r (tenant_filter_of p) db k
      else (some "missing capability", db, k)
