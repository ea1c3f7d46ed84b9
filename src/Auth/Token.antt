-- ===== src/Auth/Token.antt =====
-- What a validated token of src/aegis_fabric/auth.py guarantees.
use aegis_capstone.Common.{
  if◌then◌else◌, Bool, String, ◌≡◌, refl, sym, ap, ◌∙◌, ◌≢◌, inl, inr, true, false, Option, none,
  some, List, arith, ◌==◌, eq_iff, Bool-cases, Option-cases, ◌↔◌, ◌≤◌, ◌+◌, ◌*◌, zero,
}
use aegis_capstone.Auth.{
  Environment, Subject, Result, ok, err, Claims, Database, authenticate, authorize, subject_at,
  validate_token, Place, authorized, session_expired, unauthorized, with_fresh_keys, with_keys,
  Assignment, either, forbidden, number_of, resolve_assignment, subject_of, group_place, lookup,
  placed, role_capabilities, HttpError, ℕ, suc, ltb,
}

-- A session within a role's limit in minutes, at the time `now`, by the claim `iat`. A limit of 0 is
-- none, and a token without an issue time, or issued at 0, has no age.
pub data WithinLimit (now minutes : ℕ) : Option ℕ → Type 0 where
  unlimited : (iat : Option ℕ) → minutes ≡ 0 → WithinLimit now minutes iat
  undated : WithinLimit now minutes none
  dated_zero : WithinLimit now minutes (some 0)
  recent : (iat : ℕ) → now ≤ iat + minutes * 60 → WithinLimit now minutes (some iat)

module _ {Keys : Type 0} (env : Environment Keys) where
  not_expired :
      (iat minutes : ℕ)
      → WithinLimit env.now minutes (some iat)
      → session_expired env (some iat) minutes ≡ false
  unfolding session_expired
  not_expired iat minutes (unlimited _ e) = ground arith
  not_expired _ minutes dated_zero = ground arith
  not_expired _ minutes (recent iat l) = ground arith

  -- `session_expired` refuses exactly the sessions beyond the limit.
  session_expired-WithinLimit :
      (iat : Option ℕ) (minutes : ℕ)
      → (session_expired env iat minutes ≡ false) ↔ WithinLimit env.now minutes iat
  unfolding session_expired
  session_expired-WithinLimit none minutes = (λ h. undated, λ w. refl)
  session_expired-WithinLimit (some zero) minutes = (λ h. dated_zero, λ w. ground arith)
  session_expired-WithinLimit (some (suc n)) minutes = (
    λ h. elim (Bool-cases (ltb 0 minutes)) [
      | inl e ↦ recent (suc n) (ground arith)
      | inr e ↦ unlimited (some (suc n)) (ground arith)
    ],
    not_expired (suc n) minutes,
  )

  -- The claims are the token's under keys of the identity provider, cached or fetched again.
  pub data Genuine (token : String) (c : Claims) : Type 0 where
    genuine :
        (force : Bool) (k : Keys)
        → env.jwks force ≡ some k
        → env.decode token k ≡ some c
        → Genuine token c

  with_fresh_keys-Genuine :
      (token : String) (c : Claims) (o : Option Keys)
      → env.jwks true ≡ o
      → with_fresh_keys env token o ≡ ok c
      → Genuine token c
  with_fresh_keys-Genuine token c none e h = cc
  with_fresh_keys-Genuine token c (some k) e h = elim (Option-cases (env.decode token k)) [
    | inl n ↦ absurd (let z : err (unauthorized "invalid token") ≡ ok c = rw n at h in cc)
    | inr (d, n) ↦ let z : ok d ≡ ok c = rw n at h in genuine true k e (n ∙ cc)
  ]

  with_keys-Genuine :
      (token : String) (c : Claims) (o : Option Keys)
      → env.jwks false ≡ o
      → with_keys env token o ≡ ok c
      → Genuine token c
  with_keys-Genuine token c none e h = cc
  with_keys-Genuine token c (some k) e h = elim (Option-cases (env.decode token k)) [
    | inl n ↦ with_fresh_keys-Genuine token c (env.jwks true) refl (rw n at h)
    | inr (d, n) ↦ let z : ok d ≡ ok c = rw n at h in genuine false k e (n ∙ cc)
  ]

  -- Where the subject's place comes from.
  pub data Placed (db : Database) (c : Claims) (p : Place) : Type 0 where
    assigned :
        (rows : List Assignment)
        → resolve_assignment env.lower env.settings.allow_email_binding c.sub
            (either c.email c.preferred_username)
            c.email_verified
            db.assignments
          ≡ (some p, rows)
        → Placed db c p
    from_groups :
        env.settings.allow_group_fallback ≡ true → p ≡ group_place env c.groups → Placed db c p

  -- What holds of a subject that `validate_token` returns.
  pub record Validated (token : String) (db : Database) (s : Subject) : Type 0 where
    pub signed : Genuine token s.token_claims
    pub named : (s.sub ≡ s.token_claims.sub) × (s.sub ≢ "")
    pub placed_at :
        Placed db s.token_claims
          (record { tenant_id = s.tenant_id; team_id = s.team_id; role_id = s.role })
    pub has_tenant : s.tenant_id ≢ ""
    pub in_session :
        WithinLimit env.now
          (number_of (lookup "session_max_minutes" (role_capabilities db.roles s.tenant_id s.role)))
          s.token_claims.iat

  -- What `subject_at` guarantees.
  record Seated (db : Database) (c : Claims) (p : Place) (s : Subject) : Type 0 where
    same_claims : s.token_claims ≡ c
    same_sub : s.sub ≡ c.sub
    same_place : record { tenant_id = s.tenant_id; team_id = s.team_id; role_id = s.role } ≡ p
    tenant : s.tenant_id ≢ ""
    session :
        session_expired env s.token_claims.iat
          (number_of (lookup "session_max_minutes" (role_capabilities db.roles s.tenant_id s.role)))
        ≡ false

  seat : Claims → Place → Subject
  seat c p = record {
    sub = c.sub;
    email = either (either c.email c.preferred_username) c.sub;
    tenant_id = p.tenant_id;
    team_id = p.team_id;
    role = p.role_id;
    token_claims = c;
  }

  seat-Seated :
      (db : Database) (c : Claims) (p : Place)
      → (p.tenant_id == "") ≡ false
      → session_expired env c.iat (
          number_of
            (lookup "session_max_minutes" (role_capabilities db.roles p.tenant_id p.role_id)))
        ≡ false
      → Seated db c p (seat c p)
  unfolding seat
  seat-Seated db c p e x = record {
    same_claims = refl;
    same_sub = refl;
    same_place = refl;
    tenant = λ q. grind (arith, eq_iff p.tenant_id "");
    session = x;
  }

  pub ok-inj : {A : Type 0} (a b : A) → ok a ≡ ok b → a ≡ b
  ok-inj a b h = cc

  subject_at-Seated :
      (db : Database) (c : Claims) (p : Place) (s : Subject)
      → subject_at env db c p ≡ ok s
      → Seated db c p s
  unfolding subject_at seat
  subject_at-Seated db c p s h = elim (Bool-cases (p.tenant_id == "")) [
    | inl e ↦ absurd (let z : err (forbidden "tenant assignment missing") ≡ ok s = rw e at h in cc)
    | inr e ↦
        elim (Bool-cases (
          session_expired env c.iat (
            number_of
              (lookup "session_max_minutes" (role_capabilities db.roles p.tenant_id p.role_id))))) [
                | inl x ↦ absurd (
                    let z : err (unauthorized "session expired (exceeds session_max_minutes)")
                        ≡ ok s =
                      rw (e, x) at h in
                    cc)
                | inr x ↦
                    let q : seat c p ≡ s = ok-inj (seat c p) s (rw (e, x) at h) in
                    rw (sym q) (seat-Seated db c p e x)
              ]
  ]

  allowed :
      (b : Bool) (x p : Place) (e : HttpError)
      → (if b then ok x else err e) ≡ ok p
      → (b ≡ true) × (p ≡ x)
  allowed true x p e h = (refl, sym (ok-inj x p h))
  allowed false x p e h = cc

  placed-Placed :
      (db : Database) (c : Claims) (o : Option Place) (rows : List Assignment) (p : Place)
      → resolve_assignment env.lower env.settings.allow_email_binding c.sub
          (either c.email c.preferred_username)
          c.email_verified
          db.assignments
        ≡ (o, rows)
      → placed env o c ≡ ok p
      → Placed db c p
  placed-Placed db c (some q) rows p h k =
      assigned rows (h ∙ ap (λ x. (some x, rows)) (ok-inj q p k))
  placed-Placed db c none rows p h k =
      let (e, q) = allowed env.settings.allow_group_fallback (group_place env c.groups) p _ k in
      from_groups e q

  subject_of-ok :
      (db : Database) (c : Claims) (r : Result Place) (s : Subject)
      → subject_of env db c r ≡ ok s
      → (p : Place) × (r ≡ ok p) × Seated db c p s
  subject_of-ok db c (err e) s h = cc
  subject_of-ok db c (ok p) s h = (p, refl, subject_at-Seated db c p s h)

  Validated-Seated :
      (token : String) (db : Database) (c : Claims) (p : Place) (s : Subject)
      → Genuine token c
      → c.sub ≢ ""
      → Placed db c p
      → Seated db c p s
      → Validated token db s
  Validated-Seated token db c p s g n m x = record {
    signed = rw x.same_claims g;
    named = (x.same_sub ∙ sym (ap (λ d. d.sub) x.same_claims), λ q. n (sym x.same_sub ∙ q));
    placed_at = rw (x.same_claims, x.same_place) m;
    has_tenant = x.tenant;
    in_session = (session_expired-WithinLimit s.token_claims.iat _).0 x.session;
  }

  authorize-Validated :
      (token : String) (db after : Database) (c : Claims) (s : Subject)
      → Genuine token c
      → authorize env db c ≡ (ok s, after)
      → Validated token db s
  unfolding authorize
  authorize-Validated token db after c s g h = elim (Bool-cases (c.sub == "")) [
    | inl e ↦ absurd (
        let z : err (unauthorized "token missing subject (sub)") ≡ ok s =
          ap (λ r. r.0) (rw e at h) in
        cc)
    | inr e ↦
        let r =
          resolve_assignment env.lower env.settings.allow_email_binding c.sub
            (either c.email c.preferred_username) c.email_verified db.assignments in
        let z : subject_of env db c (placed env r.0 c) ≡ ok s = ap (λ y. y.0) (rw e at h) in
        let (p, q, x) = subject_of-ok db c (placed env r.0 c) s z in
        Validated-Seated token db c p s g (λ y. grind (arith, eq_iff c.sub ""))
          (placed-Placed db c r.0 r.1 p refl q) x
  ]

  authorized-Validated :
      (token : String) (db after : Database) (r : Result Claims) (s : Subject)
      → authenticate env token ≡ r
      → authorized env db r ≡ (ok s, after)
      → Validated token db s
  unfolding authenticate
  authorized-Validated token db after (err e) s g h =
      absurd (let z : err e ≡ ok s = ap (λ y. y.0) h in cc)
  authorized-Validated token db after (ok c) s g h =
      authorize-Validated token db after c s (with_keys-Genuine token c (env.jwks false) refl g) h

  -- When `validate_token` returns a subject, its claims are those of the token under keys of the
  -- identity provider, its id is the claims' and not empty, its place comes from the assignments or,
  -- where the setting allows it, from the token's groups, its tenant is not empty, and its session is
  -- not older than the role's session_max_minutes, unless that is 0 or the token has no issue time or
  -- the issue time 0.
  pub validate_token-Validated :
      (token : String) (db after : Database) (s : Subject)
      → validate_token env token db ≡ (ok s, after)
      → Validated token db s
  unfolding validate_token
  validate_token-Validated token db after s h =
      authorized-Validated token db after (authenticate env token) s refl h
