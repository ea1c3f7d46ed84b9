-- ===== src/Auth/Admin.antt =====
-- Who becomes an admin principal in src/aegis_fabric/auth.py, and for which tenant.
use aegis_capstone.Common.{
  String, ◌≡◌, refl, sym, ap, ◌≢◌, inl, inr, true, arith, ◌==◌, eq_iff, Bool-cases, ◌∙◌,
}
use aegis_capstone.Auth.{
  Environment, Subject, Result, ok, err, Database, validate_token, Value, role_capabilities,
  text_of, lookup, unauthorized, forbidden, none,
}
use aegis_capstone.Auth.Principal.{
  admin_principal, scoped, AdminPrincipal, role_principal, is_admin_token, principal_of,
  token_principal, scope_tenant,
}
use aegis_capstone.Auth.Token.{ok-inj, Validated, validate_token-Validated}
use aegis_capstone.Common.Dict.{Dict}

module _ {Keys : Type 0} (env : Environment Keys) where
  -- Why a caller is an admin principal.
  pub data Admitted (creds x_admin_token : String) (db : Database) (p : AdminPrincipal)
      : Type 0 where
    by_token :
        is_admin_token env x_admin_token ≡ true
        → p ≡ token_principal
        → Admitted creds x_admin_token db p
    by_role :
        (s : Subject) (after : Database)
        → validate_token env creds db ≡ (ok s, after)
        → p ≡ role_principal s (role_capabilities after.roles s.tenant_id s.role)
        → p.scope ≢ "none"
        → Admitted creds x_admin_token db p

  scoped-ok :
      (s : Subject) (caps : Dict Value) (p : AdminPrincipal)
      → scoped env s caps ≡ ok p
      → (p ≡ role_principal s caps) × (p.scope ≢ "none")
  unfolding scoped role_principal
  scoped-ok s caps p h = elim (Bool-cases (text_of (lookup "admin_scope" caps) == "none")) [
    | inl e ↦
        absurd
          (let z : err (forbidden "this role has no administrative scope") ≡ ok p = rw e at h in cc)
    | inr e ↦
        let q : role_principal s caps ≡ p = ok-inj env (role_principal s caps) p (rw e at h) in
        (
          sym q,
          λ n.
              grind
                (arith, ap (λ x. x.scope) q, eq_iff (text_of (lookup "admin_scope" caps)) "none"),
        )
  ]

  principal_of-Admitted :
      (creds x_admin_token : String) (db after : Database) (p : AdminPrincipal)
      (r : Result Subject × Database)
      → validate_token env creds db ≡ r
      → principal_of env r ≡ (ok p, after)
      → Admitted creds x_admin_token db p
  principal_of-Admitted creds x db after p (err e, t) v h =
      absurd (let z : err e ≡ ok p = ap (λ y. y.0) h in cc)
  principal_of-Admitted creds x db after p (ok s, t) v h =
      let (q, n) = scoped-ok s (role_capabilities t.roles s.tenant_id s.role) p (ap (λ y. y.0) h) in
      by_role s t v q n

  -- A caller becomes an admin principal only with the admin token, or by a valid bearer token of a
  -- subject whose role has an admin scope; then the principal has exactly the role's capabilities.
  pub admin_principal-Admitted :
      (creds x_admin_token : String) (db after : Database) (p : AdminPrincipal)
      → admin_principal env creds x_admin_token db ≡ (ok p, after)
      → Admitted creds x_admin_token db p
  unfolding admin_principal
  admin_principal-Admitted creds x db after p h = elim (Bool-cases (is_admin_token env x)) [
    | inl e ↦
        let z : ok token_principal ≡ ok p = ap (λ y. y.0) (rw e at h) in
        by_token e (sym (ok-inj env token_principal p z))
    | inr e ↦ elim (Bool-cases (creds == "")) [
      | inl n ↦ absurd (
          let z : err (unauthorized "admin authentication required") ≡ ok p =
            ap (λ y. y.0) (rw (e, n) at h) in
          cc)
      | inr n ↦
          principal_of-Admitted creds x db after p (validate_token env creds db) refl
            (rw (e, n) at h)
    ]
  ]

  scope_tenant-same :
      (p : AdminPrincipal) (t : String)
      → p.scope ≢ "platform"
      → scope_tenant p t ≡ none
      → p.tenant_id ≡ t
  unfolding scope_tenant
  scope_tenant-same p t n h = grind (arith, eq_iff p.scope "platform", eq_iff p.tenant_id t)

  role_principal-tenant :
      (s : Subject) (caps : Dict Value)
      → (role_principal s caps).scope ≢ "platform"
      → (role_principal s caps).tenant_id ≡ s.tenant_id
  unfolding role_principal
  role_principal-tenant s caps n =
      elim (Bool-cases (text_of (lookup "admin_scope" caps) == "platform")) [
        | inl e ↦ absurd (n ((eq_iff (text_of (lookup "admin_scope" caps)) "platform").0 e))
        | inr e ↦ rw e refl
      ]

  -- An admin principal without platform scope passes `scope_tenant` for no tenant but the one of the
  -- subject that its bearer token validates as, and that tenant is not empty.
  pub scope_tenant_confined :
      (creds x_admin_token t : String) (db after : Database) (p : AdminPrincipal)
      → admin_principal env creds x_admin_token db ≡ (ok p, after)
      → p.scope ≢ "platform"
      → scope_tenant p t ≡ none
      → (s : Subject) × Validated env creds db s × (s.tenant_id ≡ t)
  unfolding token_principal
  scope_tenant_confined creds x t db after p h n c =
      elim (admin_principal-Admitted creds x db after p h) [
        | by_token e q ↦ absurd (n (ap (λ y. y.scope) q))
        | by_role s mid v q m ↦ (
          s,
          validate_token-Validated env creds db mid s v,
          sym (
                role_principal-tenant s (role_capabilities mid.roles s.tenant_id s.role)
                  (λ z. n (ap (λ y. y.scope) q ∙ z)))
              ∙ (sym (ap (λ y. y.tenant_id) q) ∙ scope_tenant-same p t n c),
        )
      ]
