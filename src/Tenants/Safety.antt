-- ===== src/Tenants/Safety.antt =====
-- A tenant's administrator changes no other tenant, whatever it asks the handlers for.
use aegis_capstone.Common.{
  ℕ, String, ◌≡◌, refl, sym, ◌∙◌, inl, inr, Bool, true, false, not, Option, none, some, List, [],
  ◌∷◌, arith, ◌==◌, eq_iff, eqb, if◌then◌else◌, Bool-cases, Option-cases, any, All, eq_refl,
  All-map,
}
use aegis_capstone.Auth.{HttpError}
use aegis_capstone.Auth.Principal.{AdminPrincipal, scope_tenant}
use aegis_capstone.Tenants.{Assignment, Outcome, Org, audit, is_role}
use aegis_capstone.Tenants.Confined.{
  IsKeyed, of_tenant, delete_found-Leaves, add_role-Leaves, delete_role-Leaves,
  update_role_caps-Leaves, add_team-Leaves, delete_team-Leaves, create_assignment-Leaves,
}
use aegis_capstone.Tenants.Handlers.{
  is_assignment, update_assignment, update_found, AssignmentUpdate, find_assignment, move, or_old,
  guarded, moved_to, delete_assignment, handle, tenant_filter_of, Services, Request, post_role,
  remove_role, put_role_caps, post_team, remove_team, post_user, put_user, may_move, remove_user,
}
use aegis_capstone.Tenants.Rows.{keep-update_other}

same_id :
    (id : ℕ) (a b : Assignment)
    → eqb b.assignment_id a.assignment_id ≡ false
    → eqb a.assignment_id id ≡ true
    → eqb b.assignment_id id ≡ true
    → b.tenant_id ≡ a.tenant_id
same_id id a b n h k = absurd (ground arith)

is_assignment-id : (id : ℕ) (a : Assignment) → is_assignment id "" a ≡ eqb a.assignment_id id
unfolding is_assignment
is_assignment-id id a = ground arith

-- The rows with the id of the one that was found are in its tenant.
found_alone :
    (id : ℕ) (xs : List Assignment) (a : Assignment)
    → IsKeyed xs
    → find_assignment id "" xs ≡ some a
    → All (λ (b : Assignment). eqb b.assignment_id id ≡ true → b.tenant_id ≡ a.tenant_id) xs
unfolding IsKeyed find_assignment
found_alone id [] a k h = tt
found_alone id (c ∷ rest) a k h = elim (Bool-cases (eqb c.assignment_id id)) [
  | inl e ↦
      let q : is_assignment id "" c ≡ true = is_assignment-id id c ∙ e in
      let z : some c ≡ some a = rw q at h in
      let same : c.tenant_id ≡ a.tenant_id = cc in
      (
        λ m. same,
        All-map _ (λ b. eqb b.assignment_id id ≡ true → b.tenant_id ≡ a.tenant_id)
            (λ b n m. same_id id c b n e m ∙ same) rest k.0,
      )
  | inr e ↦
      let q : is_assignment id "" c ≡ false = is_assignment-id id c ∙ e in
      ((λ m. let z = sym e ∙ m in cc), found_alone id rest a k.1 (rw q at h))
]

pub tenant_filter_of-own :
    (p : AdminPrincipal) → p.scope ≡ "tenant" → tenant_filter_of p ≡ p.tenant_id
unfolding tenant_filter_of
tenant_filter_of-own p h =
    let e : (p.scope == "tenant") ≡ true = rw h (eq_refl "tenant") in rw e refl

module _ (u : String) where
  update_found-Leaves :
      (t : String) (id : ℕ) (v : AssignmentUpdate) (a : Assignment) (db : Org)
      → (t == "") ≡ false
      → (t == u) ≡ false
      → IsKeyed db.assignments
      → find_assignment id "" db.assignments ≡ some a
      → of_tenant u (update_found id v t (some a) db).1 ≡ of_tenant u db
  unfolding update_found of_tenant audit move moved_to
  update_found-Leaves t id v a db e n k h = elim (Bool-cases (a.tenant_id == t)) [
    | inl p ↦ elim (Bool-cases (or_old v.tenant_id a.tenant_id == t)) [
      | inl q ↦
          let other : (or_old v.tenant_id a.tenant_id == u) ≡ false = grind (
            arith,
            eq_iff (or_old v.tenant_id a.tenant_id) t,
            eq_iff t u,
            eq_iff (or_old v.tenant_id a.tenant_id) u,
          ) in
          let old : (a.tenant_id == u) ≡ false =
            grind (arith, eq_iff a.tenant_id t, eq_iff t u, eq_iff a.tenant_id u) in
          let rows =
            All-map _ (λ b. eqb b.assignment_id id ≡ true → (b.tenant_id == u) ≡ false)
              (λ b f m. rw (f m) old) db.assignments (found_alone id db.assignments a k h) in
          elim (Bool-cases (any (is_role (move v a).tenant_id (move v a).role_id) db.roles)) [
            | inl r ↦
                rw
                  (
                    e,
                    p,
                    q,
                    r,
                    keep-update_other (λ (x : Assignment). x.tenant_id == u)
                        (λ (b : Assignment). eqb b.assignment_id id) (moved_to (move v a))
                        (λ x. other) db.assignments rows,
                  )
                  refl
            | inr r ↦ rw (e, p, q, r) refl
          ]
      | inr q ↦ rw (e, p, q) refl
    ]
    | inr p ↦ rw (e, p) refl
  ]

  update_assignment-Leaves :
      (t : String) (id : ℕ) (v : AssignmentUpdate) (db : Org)
      → (t == "") ≡ false
      → (t == u) ≡ false
      → IsKeyed db.assignments
      → of_tenant u (update_assignment id v t db).1 ≡ of_tenant u db
  unfolding update_assignment update_found
  update_assignment-Leaves t id v db e n k =
      elim (Option-cases (find_assignment id "" db.assignments)) [
        | inl h ↦ rw h refl
        | inr (a, h) ↦ rw h (update_found-Leaves t id v a db e n k h)
      ]

  delete_assignment-Leaves :
      (t : String) (id : ℕ) (db : Org)
      → (t == "") ≡ false
      → (t == u) ≡ false
      → of_tenant u (delete_assignment id t db).1 ≡ of_tenant u db
  unfolding delete_assignment
  delete_assignment-Leaves t id db e n =
      delete_found-Leaves u t id (find_assignment id t db.assignments) db e n

  guarded-Leaves :
      (g : Option HttpError) (cap : Bool) (o : Outcome) (db : Org)
      → (g ≡ none → of_tenant u o.1 ≡ of_tenant u db)
      → of_tenant u (guarded g cap o db).1.1 ≡ of_tenant u db
  unfolding guarded
  guarded-Leaves (some e) cap o db h = refl
  guarded-Leaves none false o db h = refl
  guarded-Leaves none true o db h = h refl

  -- What the guard of a tenant lets a tenant's administrator do.
  scope_tenant-own :
      (p : AdminPrincipal) (t : String)
      → p.scope ≡ "tenant"
      → (p.tenant_id == u) ≡ false
      → scope_tenant p t ≡ none
      → (t == u) ≡ false
  unfolding scope_tenant
  scope_tenant-own p t s n h = elim (Bool-cases (p.tenant_id == t)) [
    | inl e ↦ grind (arith, eq_iff p.tenant_id t, eq_iff p.tenant_id u, eq_iff t u)
    | inr e ↦ let z = rw (s, e) at h in cc
  ]

  guarded_scope-Leaves :
      (p : AdminPrincipal) (t : String) (cap : Bool) (o : Outcome) (db : Org)
      → p.scope ≡ "tenant"
      → (p.tenant_id == u) ≡ false
      → ((t == u) ≡ false → of_tenant u o.1 ≡ of_tenant u db)
      → of_tenant u (guarded (scope_tenant p t) cap o db).1.1 ≡ of_tenant u db
  guarded_scope-Leaves p t cap o db s n h =
      guarded-Leaves (scope_tenant p t) cap o db (λ g. h (scope_tenant-own p t s n g))

  put_user-Leaves :
      (p : AdminPrincipal) (id : ℕ) (v : AssignmentUpdate) (db : Org) (g : Option HttpError)
      (o : Outcome)
      → of_tenant u o.1 ≡ of_tenant u db
      → of_tenant u
          (if not p.can_manage_users
            then guarded none false (none, db) db
            else guarded g true o db).1.1
        ≡ of_tenant u db
  unfolding guarded
  put_user-Leaves p id v db g o h = elim (Bool-cases p.can_manage_users) [
    | inl e ↦ rw e (guarded-Leaves g true o db (λ q. h))
    | inr e ↦ rw e refl
  ]

  -- An administrator of one tenant leaves the teams, roles and assignments of every other tenant as they
  -- were, whichever handler it calls and however the call ends, while the ids of assignments are unique.
  pub handle-of_tenant :
      (s : Services) (p : AdminPrincipal) (r : Request) (db : Org)
      → p.scope ≡ "tenant"
      → (p.tenant_id == "") ≡ false
      → (p.tenant_id == u) ≡ false
      → IsKeyed db.assignments
      → of_tenant u (handle s p r db).1.1 ≡ of_tenant u db
  unfolding handle
  handle-of_tenant s p (post_role t r) db sc e n k =
      guarded_scope-Leaves p t p.can_manage_roles _ db sc n (add_role-Leaves u t r db)
  handle-of_tenant s p (remove_role t r) db sc e n k =
      guarded_scope-Leaves p t p.can_manage_roles _ db sc n (delete_role-Leaves u t r db)
  handle-of_tenant s p (put_role_caps t r c) db sc e n k =
      guarded_scope-Leaves p t p.can_edit_governance _ db sc n (update_role_caps-Leaves u t r c db)
  handle-of_tenant s p (post_team t m) db sc e n k =
      guarded_scope-Leaves p t p.can_manage_roles _ db sc n (add_team-Leaves u t m db)
  handle-of_tenant s p (remove_team t m) db sc e n k =
      guarded_scope-Leaves p t p.can_manage_roles _ db sc n (delete_team-Leaves u t m db)
  handle-of_tenant s p (post_user a) db sc e n k =
      guarded_scope-Leaves p a.tenant_id p.can_manage_users _ db sc n
        (create_assignment-Leaves u s a db)
  handle-of_tenant s p (put_user id v) db sc e n k = rw (tenant_filter_of-own p sc) (
      put_user-Leaves p id v db (may_move p v) (update_assignment id v p.tenant_id db)
        (update_assignment-Leaves p.tenant_id id v db e n k))
  handle-of_tenant s p (remove_user id) db sc e n k = rw (tenant_filter_of-own p sc) (
      guarded-Leaves none p.can_manage_users (delete_assignment id p.tenant_id db) db
        (λ q. delete_assignment-Leaves p.tenant_id id db e n))
