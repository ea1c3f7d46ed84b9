-- ===== src/Tenants/LoginSafety.antt =====
-- Whose logins and bindings an administrator of a tenant can change.
use aegis_capstone.Common.{
  String, ◌≡◌, refl, ◌∙◌, inl, inr, true, false, none, some, arith, ◌==◌, eq_iff, Bool-cases,
  is_some, any, ◌⊎◌,
}
use aegis_capstone.Auth.Principal.{AdminPrincipal}
use aegis_capstone.Tenants.{Org, Assignment, audit}
use aegis_capstone.Tenants.Confined.{of_tenant}
use aegis_capstone.Tenants.Handlers.{tenant_filter_of}
use aegis_capstone.Tenants.Logins.{
  Keycloak, ProvisionLogin, Reply, replied, not_found, failed, LoginRequest, reset, provision,
  email_of, run_request, handle_login, in_scope, unbind, reset_user_password, provision_login,
  after_reset, after_set, after_create, filter_or_star,
}
use aegis_capstone.Tenants.Rows.{keep-update_kept}
use aegis_capstone.Tenants.Safety.{tenant_filter_of-own}

module _ {K : Type 0} (c : Keycloak K) (u : String) where
  after_reset-of_tenant :
      (t : String) (db : Org) (r : Reply × K)
      → of_tenant u (after_reset c t db r).1 ≡ of_tenant u db
  unfolding of_tenant audit
  after_reset-of_tenant t db (replied b, k) = refl
  after_reset-of_tenant t db (not_found, k) = refl
  after_reset-of_tenant t db (failed, k) = refl

  after_set-of_tenant :
      (t : String) (db : Org) (r : Reply × K) → of_tenant u (after_set c t db r).1 ≡ of_tenant u db
  unfolding of_tenant audit
  after_set-of_tenant t db (replied b, k) = refl
  after_set-of_tenant t db (not_found, k) = refl
  after_set-of_tenant t db (failed, k) = refl

  after_create-of_tenant :
      (t : String) (p : ProvisionLogin) (db : Org) (r : Reply × K)
      → of_tenant u (after_create c t p db r).1 ≡ of_tenant u db
  unfolding of_tenant audit
  after_create-of_tenant t p db (replied true, k) = refl
  after_create-of_tenant t p db (replied false, k) =
      after_set-of_tenant t db (c.set_password_by_username p.email p.password k)
  after_create-of_tenant t p db (not_found, k) = refl
  after_create-of_tenant t p db (failed, k) = refl

  in_scope-other :
      (email t : String)
      → (t == "") ≡ false
      → (t == u) ≡ false
      → (a : Assignment) → in_scope c email t a ≡ true
      → (a.tenant_id == u) ≡ false
  unfolding in_scope
  in_scope-other email t e n a h =
      grind (arith, eq_iff a.tenant_id t, eq_iff t u, eq_iff a.tenant_id u)

  unbind-of_tenant :
      (p : ProvisionLogin) (t : String) (db : Org)
      → (t == "") ≡ false
      → (t == u) ≡ false
      → of_tenant u (unbind c p t db) ≡ of_tenant u db
  unfolding unbind of_tenant
  unbind-of_tenant p t db e n = elim (Bool-cases p.rebind) [
    | inr f ↦ rw f refl
    | inl f ↦
        rw
          (
            f,
            keep-update_kept (λ (a : Assignment). a.tenant_id == u) (in_scope c p.email t)
                (λ a. record a { sub = none }) (in_scope-other p.email t e n) (λ a. refl)
                db.assignments,
          )
          refl
  ]

  run_request-of_tenant :
      (r : LoginRequest c) (t : String) (db : Org) (k : K)
      → (t == "") ≡ false
      → (t == u) ≡ false
      → of_tenant u (run_request c r t db k).1 ≡ of_tenant u db
  unfolding reset_user_password provision_login
  run_request-of_tenant (reset p) t db k e n =
      elim (Bool-cases (any (in_scope c p.email t) db.assignments)) [
        | inr f ↦ rw f refl
        | inl f ↦ rw f (
            after_reset-of_tenant (filter_or_star c t) db
              (c.set_password_by_username p.email p.new_password k))
      ]
  run_request-of_tenant (provision p) t db k e n =
      elim (Bool-cases (any (in_scope c p.email t) db.assignments)) [
        | inr f ↦ rw f refl
        | inl f ↦ rw f (
            after_create-of_tenant (filter_or_star c t) p (unbind c p t db)
              (c.create_login p.email p.password k)
            ∙ unbind-of_tenant p t db e n)
      ]

  run_request-nobody :
      (r : LoginRequest c) (t : String) (db : Org) (k : K)
      → any (in_scope c (email_of c r) t) db.assignments ≡ false
      → run_request c r t db k ≡ (some "assignment_not_found", db, k)
  unfolding reset_user_password provision_login
  run_request-nobody (reset p) t db k h = rw h refl
  run_request-nobody (provision p) t db k h = rw h refl

  -- An administrator of one tenant who resets a password or provisions a login leaves the teams, roles
  -- and assignments of every other tenant as they were; and either an assignment of its own tenant has
  -- the email, or the call raises and the tables and the logins all stay.
  pub handle_login-Confined :
      (p : AdminPrincipal) (r : LoginRequest c) (db : Org) (k : K)
      → p.scope ≡ "tenant"
      → (p.tenant_id == "") ≡ false
      → (p.tenant_id == u) ≡ false
      → (of_tenant u (handle_login c p r db k).1 ≡ of_tenant u db)
        × ((any (in_scope c (email_of c r) p.tenant_id) db.assignments ≡ true)
            ⊎ ((is_some (handle_login c p r db k).0 ≡ true)
                × ((handle_login c p r db k).1 ≡ db)
                × ((handle_login c p r db k).2 ≡ k)))
  unfolding handle_login of_tenant tenant_filter_of
  handle_login-Confined p r db k s e n = elim (Bool-cases p.can_manage_users) [
    | inr m ↦ rw m (refl, inr (refl, refl, refl))
    | inl m ↦
        rw (m, tenant_filter_of-own p s)
          (
            run_request-of_tenant r p.tenant_id db k e n,
            elim (Bool-cases (any (in_scope c (email_of c r) p.tenant_id) db.assignments)) [
              | inl h ↦ inl h
              | inr h ↦ inr (rw (run_request-nobody r p.tenant_id db k h) (refl, refl, refl))
            ],
          )
  ]
