-- ===== src/Tenants/Confined.antt =====
-- A tenant's administrator changes no other tenant.
use aegis_capstone.Common.{
  String, ◌≡◌, refl, inl, inr, true, false, List, [], ◌∷◌, arith, ◌==◌, eq_iff, eqb, Bool-cases,
  keep, any, All, contains, ℕ, ◌&&◌, Option, not, some, ◌∙◌, none,
}
use aegis_capstone.Tenants.{
  Assignment, Outcome, Org, Team, add_role, add_team, delete_role, delete_team, is_role, is_team,
  update_role_caps, RoleRow, audit, Dict, RoleCreate, uses_team, Value, new_role, new_team,
  set_caps,
}
use aegis_capstone.Tenants.Handlers.{
  after_insert, create_assignment, delete_found, insert_assignment, is_assignment, AssignmentCreate,
  Services, has_email, new_assignment,
}
use aegis_capstone.Tenants.Rows.{keep-append_other, keep-keep_other, keep-update_kept}

-- What the tables say about one tenant.
abbrev pub View : Type 0
View = List Team × List RoleRow × List Assignment

unfoldable pub of_tenant : String → Org → View
of_tenant u db = (
  keep (λ (t : Team). t.tenant_id == u) db.teams,
  keep (λ (r : RoleRow). r.tenant_id == u) db.roles,
  keep (λ (a : Assignment). a.tenant_id == u) db.assignments,
)

-- The primary key of the assignments.
unfoldable pub IsKeyed : List Assignment → Type 0
IsKeyed [] = Unit
IsKeyed (a ∷ rest) =
    All (λ (b : Assignment). eqb b.assignment_id a.assignment_id ≡ false) rest × IsKeyed rest

module _ (u : String) where
  -- An outcome that leaves the tenant `u` as it was.
  abbrev pub Leaves : Org → Outcome → Type 0
  Leaves db o = of_tenant u o.1 ≡ of_tenant u db

  other_role :
      (t id : String)
      → (t == u) ≡ false
      → (r : RoleRow) → is_role t id r ≡ true
      → (r.tenant_id == u) ≡ false
  unfolding is_role
  other_role t id n r h = grind (arith, eq_iff r.tenant_id t, eq_iff t u, eq_iff r.tenant_id u)

  other_team :
      (t id : String)
      → (t == u) ≡ false
      → (m : Team) → is_team t id m ≡ true
      → (m.tenant_id == u) ≡ false
  unfolding is_team
  other_team t id n m h = grind (arith, eq_iff m.tenant_id t, eq_iff t u, eq_iff m.tenant_id u)

  pub add_role-Leaves :
      (t : String) (r : RoleCreate) (db : Org) → (t == u) ≡ false → Leaves db (add_role t r db)
  unfolding add_role of_tenant audit
  add_role-Leaves t r db n = elim (Bool-cases (contains t db.tenants)) [
    | inl e ↦ elim (Bool-cases (any (is_role t r.role_id) db.roles)) [
      | inl k ↦ rw (e, k) refl
      | inr k ↦
          rw (e, k, keep-append_other (λ (x : RoleRow). x.tenant_id == u) db.roles (new_role t r) n)
            refl
    ]
    | inr e ↦ rw e refl
  ]

  pub delete_role-Leaves :
      (t id : String) (db : Org) → (t == u) ≡ false → Leaves db (delete_role t id db)
  unfolding delete_role of_tenant audit
  delete_role-Leaves t id db n = elim (Bool-cases (any (is_role t id) db.roles)) [
    | inl e ↦ rw (e, keep-keep_other _ (is_role t id) (other_role t id n) db.roles) refl
    | inr e ↦ rw e refl
  ]

  pub update_role_caps-Leaves :
      (t id : String) (c : Dict Value) (db : Org)
      → (t == u) ≡ false
      → Leaves db (update_role_caps t id c db)
  unfolding update_role_caps of_tenant audit
  update_role_caps-Leaves t id c db n = elim (Bool-cases (any (is_role t id) db.roles)) [
    | inl e ↦
        rw
          (
            e,
            keep-update_kept (λ (x : RoleRow). x.tenant_id == u) (is_role t id) (set_caps c)
                (other_role t id n) (λ x. refl) db.roles,
          )
          refl
    | inr e ↦ rw e refl
  ]

  pub add_team-Leaves : (t id : String) (db : Org) → (t == u) ≡ false → Leaves db (add_team t id db)
  unfolding add_team of_tenant audit
  add_team-Leaves t id db n = elim (Bool-cases (contains t db.tenants)) [
    | inl e ↦ elim (Bool-cases (any (is_team t id) db.teams)) [
      | inl k ↦ rw (e, k) refl
      | inr k ↦
          rw (e, k, keep-append_other (λ (x : Team). x.tenant_id == u) db.teams (new_team t id) n)
            refl
    ]
    | inr e ↦ rw e refl
  ]

  pub delete_team-Leaves :
      (t id : String) (db : Org) → (t == u) ≡ false → Leaves db (delete_team t id db)
  unfolding delete_team of_tenant audit
  delete_team-Leaves t id db n = elim (Bool-cases (any (uses_team t id) db.roles)) [
    | inl k ↦ rw k refl
    | inr k ↦ elim (Bool-cases (any (is_team t id) db.teams)) [
      | inl e ↦ rw (k, e, keep-keep_other _ (is_team t id) (other_team t id n) db.teams) refl
      | inr e ↦ rw (k, e) refl
    ]
  ]

  after_insert-org :
      (s : Services) (a : AssignmentCreate) (db : Org)
      → of_tenant u (after_insert s a db).1 ≡ of_tenant u db
  unfolding after_insert of_tenant audit
  after_insert-org s a db = elim (Bool-cases (a.create_login && a.password == "")) [
    | inl e ↦ rw e refl
    | inr e ↦ elim (Bool-cases (a.create_login && not (s.create_login a.email a.password))) [
      | inl k ↦ rw (e, k) refl
      | inr k ↦ rw (e, k) refl
    ]
  ]

  insert_assignment-org :
      (a : AssignmentCreate) (db : Org)
      → (a.tenant_id == u) ≡ false
      → of_tenant u (insert_assignment a db) ≡ of_tenant u db
  unfolding insert_assignment of_tenant
  insert_assignment-org a db n =
      rw
        (keep-append_other (λ (x : Assignment). x.tenant_id == u) db.assignments
          (new_assignment a db.next_id) n)
        refl

  pub create_assignment-Leaves :
      (s : Services) (a : AssignmentCreate) (db : Org)
      → (a.tenant_id == u) ≡ false
      → Leaves db (create_assignment s a db)
  unfolding create_assignment
  create_assignment-Leaves s a db n =
      elim (Bool-cases (any (is_role a.tenant_id a.role_id) db.roles)) [
        | inl e ↦ elim (Bool-cases (any (has_email s a.email a.tenant_id) db.assignments)) [
          | inl k ↦ rw (e, k) refl
          | inr k ↦
              rw (e, k)
                (after_insert-org s a (insert_assignment a db) ∙ insert_assignment-org a db n)
        ]
        | inr e ↦ rw e refl
      ]

  other_assignment :
      (t : String) (id : ℕ)
      → (t == "") ≡ false
      → (t == u) ≡ false
      → (b : Assignment) → is_assignment id t b ≡ true
      → (b.tenant_id == u) ≡ false
  unfolding is_assignment
  other_assignment t id e n b h =
      grind (arith, eq_iff b.tenant_id t, eq_iff t u, eq_iff b.tenant_id u)

  pub delete_found-Leaves :
      (t : String) (id : ℕ) (o : Option Assignment) (db : Org)
      → (t == "") ≡ false
      → (t == u) ≡ false
      → Leaves db (delete_found id t o db)
  unfolding delete_found of_tenant audit
  delete_found-Leaves t id none db e n = refl
  delete_found-Leaves t id (some a) db e n =
      rw
        (keep-keep_other (λ (x : Assignment). x.tenant_id == u) (is_assignment id t)
          (other_assignment t id e n) db.assignments)
        refl
