-- ===== src/Auth/Principal.antt =====
-- The admin principal of src/aegis_fabric/auth.py, its guards, and the freshness of a sensitive call.
-- No `tenant_id` is the empty text.
use aegis_capstone.Common.{
  ℕ, ◌+◌, ◌-◌, String, Bool, true, false, ◌&&◌, not, Option, none, some, List, [], ◌==◌, ltb, eqb,
  if◌then◌else◌, or_else, ◌*◌,
}
use aegis_capstone.Auth.{
  HttpError, Environment, Subject, forbidden, Database, Result, unauthorized, Value, err, ok,
  role_capabilities, text_of, validate_token, lookup, flag_of, texts_of,
}
use aegis_capstone.Common.Dict.{Dict}

pub record AdminPrincipal : Type 0 where
  pub scope : String
  pub tenant_id : String
  pub email : String
  pub can_manage_users : Bool
  pub can_manage_roles : Bool
  pub can_edit_governance : Bool
  pub can_register_skills : Bool
  pub can_delete_tenant : Bool
  pub audit_scope : String
  pub can_approve : String
  pub dual_control_actions : List String
  pub can_rotate_secrets : Bool
  pub can_view_traces : Bool
  pub can_manage_signing_keys : Bool
  pub can_impersonate : String

-- The principal of the shared admin token.
unfoldable pub token_principal : AdminPrincipal
token_principal = record {
  scope = "platform";
  tenant_id = "";
  email = "admin-token";
  can_manage_users = true;
  can_manage_roles = true;
  can_edit_governance = true;
  can_register_skills = true;
  can_delete_tenant = true;
  audit_scope = "all";
  can_approve = "platform";
  dual_control_actions = [];
  can_rotate_secrets = true;
  can_view_traces = true;
  can_manage_signing_keys = true;
  can_impersonate = "full";
}

-- The principal of a subject whose role has these capabilities.
unfoldable pub role_principal : Subject → Dict Value → AdminPrincipal
role_principal subject caps = record {
  scope = text_of (lookup "admin_scope" caps);
  tenant_id = if text_of (lookup "admin_scope" caps) == "platform" then "" else subject.tenant_id;
  email = subject.email;
  can_manage_users = flag_of (lookup "can_manage_users" caps);
  can_manage_roles = flag_of (lookup "can_manage_roles" caps);
  can_edit_governance = flag_of (lookup "can_edit_governance" caps);
  can_register_skills = flag_of (lookup "can_register_skills" caps);
  can_delete_tenant = flag_of (lookup "can_delete_tenant" caps);
  audit_scope = text_of (lookup "audit_scope" caps);
  can_approve = text_of (lookup "can_approve" caps);
  dual_control_actions = texts_of (lookup "dual_control_actions" caps);
  can_rotate_secrets = flag_of (lookup "can_rotate_secrets" caps);
  can_view_traces = flag_of (lookup "can_view_traces" caps);
  can_manage_signing_keys = flag_of (lookup "can_manage_signing_keys" caps);
  can_impersonate = text_of (lookup "can_impersonate" caps);
}

module _ {Keys : Type 0} (env : Environment Keys) where
  -- `x_admin_token and hmac.compare_digest(x_admin_token, settings.admin_token)`
  unfoldable pub is_admin_token : String → Bool
  is_admin_token x = not (x == "") && x == env.settings.admin_token

  unfoldable pub scoped : Subject → Dict Value → Result AdminPrincipal
  unfolding role_principal
  scoped subject caps =
      if text_of (lookup "admin_scope" caps) == "none"
      then err (forbidden "this role has no administrative scope")
      else ok (role_principal subject caps)

  abbrev pub principal_of : Result Subject × Database → Result AdminPrincipal × Database
  principal_of (err e, db) = (err e, db)
  principal_of (ok subject, db) =
      (scoped subject (role_capabilities db.roles subject.tenant_id subject.role), db)

  -- `creds` is the bearer token, empty where there is none.
  unfoldable pub admin_principal : String → String → Database → Result AdminPrincipal × Database
  unfolding is_admin_token scoped
  admin_principal creds x_admin_token db =
      if is_admin_token x_admin_token
      then (ok token_principal, db)
      else if creds == ""
      then (err (unauthorized "admin authentication required"), db)
      else principal_of (validate_token env creds db)

  -- The check of the token's age: `none` is a token or claim that does not parse, which passes.
  unfoldable pub too_old : Option ℕ → Bool
  too_old none = false
  too_old (some iat) = ltb (iat + env.settings.sensitive_action_max_age_minutes * 60) env.now

  unfoldable pub recently_authenticated_principal :
      String → String → Database → Result AdminPrincipal × Database
  unfolding too_old is_admin_token
  recently_authenticated_principal creds x_admin_token db =
      if is_admin_token x_admin_token
      then (ok token_principal, db)
      else if creds == ""
      then (err (unauthorized "admin authentication required"), db)
      else if too_old (env.unverified_iat creds)
      then (err (unauthorized "re-authentication required for sensitive action"), db)
      else admin_principal creds x_admin_token db

  -- The token's age against the limit; a token from the future has age 0.
  abbrev pub check_age : ℕ → Option ℕ → Option HttpError
  check_age n none =
      some (unauthorized "token has no iat claim; re-login required for sensitive action")
  check_age n (some iat) =
      if ltb (n * 60) (env.now - iat)
      then some (unauthorized "re-authentication required")
      else none

  -- `require_recent_auth`; `none` is a `max_age_minutes` that is left out.
  unfoldable pub require_recent_auth : Subject → Option ℕ → Option HttpError
  require_recent_auth subject max_age_minutes =
      let n = or_else max_age_minutes env.settings.sensitive_action_max_age_minutes in
      if eqb n 0 then none else check_age n subject.token_claims.iat

unfoldable pub require_platform : AdminPrincipal → Option HttpError
require_platform p =
    if not (p.scope == "platform") then some (forbidden "platform admin scope required") else none

unfoldable pub scope_tenant : AdminPrincipal → String → Option HttpError
scope_tenant p tenant_id =
    if p.scope == "platform"
    then none
    else if not (p.tenant_id == tenant_id)
    then some (forbidden "not authorized for tenant")
    else none
