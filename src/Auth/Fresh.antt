-- ===== src/Auth/Fresh.antt =====
-- Sensitive calls of src/aegis_fabric/auth.py: the age of the token.
use aegis_capstone.Common.{
  ℕ, ◌+◌, ◌≤◌, String, ◌≡◌, refl, ap, ◌∙◌, ◌⊎◌, inl, inr, false, Option, none, some, arith, ◌==◌,
  ltb, eqb, Bool-cases, Option-cases, ◌*◌, ◌↔◌,
}
use aegis_capstone.Auth.{Environment, Subject, ok, err, Database, unauthorized}
use aegis_capstone.Auth.Admin.{Admitted, admin_principal-Admitted}
use aegis_capstone.Auth.Principal.{
  recently_authenticated_principal, require_recent_auth, too_old, AdminPrincipal, is_admin_token,
  check_age,
}

module _ {Keys : Type 0} (env : Environment Keys) where
  -- The token is young enough, or its age could not be read.
  pub data Fresh (creds : String) : Type 0 where
    young :
        (iat : ℕ)
        → env.unverified_iat creds ≡ some iat
        → env.now ≤ iat + env.settings.sensitive_action_max_age_minutes * 60
        → Fresh creds
    unread : env.unverified_iat creds ≡ none → Fresh creds

  fresh : (creds : String) → too_old env (env.unverified_iat creds) ≡ false → Fresh creds
  unfolding too_old
  fresh creds h = elim (Option-cases (env.unverified_iat creds)) [
    | inl n ↦ unread n
    | inr (iat, n) ↦
        let z : ltb (iat + env.settings.sensitive_action_max_age_minutes * 60) env.now ≡ false =
          rw n at h in
        young iat n (ground arith)
  ]

  -- A caller without the admin token passes the guard of sensitive calls only as an admin principal
  -- whose token is not older than the setting, or whose age could not be read: an exception in the
  -- age check lets the caller through to `admin_principal`.
  pub recently_authenticated_principal-Fresh :
      (creds x_admin_token : String) (db after : Database) (p : AdminPrincipal)
      → recently_authenticated_principal env creds x_admin_token db ≡ (ok p, after)
      → is_admin_token env x_admin_token ≡ false
      → Fresh creds × Admitted env creds x_admin_token db p
  unfolding recently_authenticated_principal
  recently_authenticated_principal-Fresh creds x db after p h n = elim (Bool-cases (creds == "")) [
    | inl e ↦ absurd (
        let z : err (unauthorized "admin authentication required") ≡ ok p =
          ap (λ y. y.0) (rw (n, e) at h) in
        cc)
    | inr e ↦ elim (Bool-cases (too_old env (env.unverified_iat creds))) [
      | inl o ↦ absurd (
          let z : err (unauthorized "re-authentication required for sensitive action") ≡ ok p =
            ap (λ y. y.0) (rw (n, e, o) at h) in
          cc)
      | inr o ↦ (fresh creds o, admin_principal-Admitted env creds x db after p (rw (n, e, o) at h))
    ]
  ]

  check_age-none :
      (n : ℕ) (o : Option ℕ)
      → check_age env n o ≡ none
      → (iat : ℕ) × (o ≡ some iat) × (env.now ≤ iat + n * 60)
  check_age-none n none h = cc
  check_age-none n (some iat) h = (iat, refl, ground arith)

  young-check_age : (n iat : ℕ) → env.now ≤ iat + n * 60 → check_age env n (some iat) ≡ none
  young-check_age n iat h = ground arith

  -- `require_recent_auth` lets a subject go on exactly when the limit is 0, or the token has an issue
  -- time and it lies at most the limit back.
  pub require_recent_auth_iff :
      (s : Subject) (n : ℕ)
      → (require_recent_auth env s (some n) ≡ none)
        ↔ ((n ≡ 0) ⊎ ((iat : ℕ) × (s.token_claims.iat ≡ some iat) × (env.now ≤ iat + n * 60)))
  unfolding require_recent_auth
  require_recent_auth_iff s n = elim (Bool-cases (eqb n 0)) [
    | inl e ↦ (λ h. inl (ground arith), λ h. rw e refl)
    | inr e ↦ (
      λ h. inr (check_age-none n s.token_claims.iat (rw e at h)),
      λ h. rw e (elim h [
        | inl z ↦ absurd (ground arith)
        | inr (iat, q, l) ↦ ap (check_age env n) q ∙ young-check_age n iat l
      ]),
    )
  ]
