-- ===== src/Tenants/RoundTrip.antt =====
-- A tenant that is created and deleted leaves the tables as they were, and a deletion under dual control
-- is only queued.
use aegis_capstone.Common.{
  String, ◌≡◌, refl, ◌∙◌, inl, inr, Bool, true, false, not, none, List, [], ◌∷◌, ◌++◌, arith, ◌==◌,
  eq_iff, Bool-cases, or_else, keep, any, All, contains, eq_refl, keep-All, All-map, update_where,
  All-every, contains-append, ℕ, is_some, ◌||◌,
}
use aegis_capstone.Approvals.{create_pending, State}
use aegis_capstone.Auth.Principal.{AdminPrincipal, require_platform}
use aegis_capstone.Tenants.{
  Assignment, Org, RoleRow, Team, is_role, RoleCreate, is_team, new_team, audit, new_role,
}
use aegis_capstone.Tenants.Lifecycle.{
  create_tenant, insert_teams, upsert_roles, delete_tenant, cascade, TenantCreate, teams_or_default,
  default_specs, first_or_research, delete_tenant_handler,
}
use aegis_capstone.Tenants.Rows.{keep-append_other, keep-update_other}

-- The tables without the calls of the audit.
abbrev pub Tables : Type 0
Tables = List String × List Team × List RoleRow × List Assignment

abbrev pub tables : Org → Tables
tables db = (db.tenants, db.teams, db.roles, db.assignments)

-- No table has a row of the tenant.
pub record IsAbsent (id : String) (db : Org) : Type 0 where
  pub no_tenant : All (λ (t : String). (t == id) ≡ false) db.tenants
  pub no_team : All (λ (t : Team). (t.tenant_id == id) ≡ false) db.teams
  pub no_role : All (λ (r : RoleRow). (r.tenant_id == id) ≡ false) db.roles
  pub no_assignment : All (λ (a : Assignment). (a.tenant_id == id) ≡ false) db.assignments

not-false : (b : Bool) → b ≡ false → not b ≡ true
not-false b h = rw h refl

keep_absent {ℓ} :
    {A : Type ℓ} (key : A → String) (id : String) (xs : List A)
    → All (λ x. (key x == id) ≡ false) xs
    → keep (λ x. not (key x == id)) xs ≡ xs
keep_absent key id xs h =
    keep-All (λ x. not (key x == id)) xs
      (All-map (λ x. (key x == id) ≡ false) (λ x. not (key x == id) ≡ true)
        (λ x. not-false (key x == id)) xs h)

contains_absent :
    (id : String) (xs : List String) → All (λ t. (t == id) ≡ false) xs → contains id xs ≡ false
contains_absent id [] h = refl
contains_absent id (x ∷ xs) h =
    grind (arith, eq_iff id x, eq_iff x id, contains_absent id xs h.1, h.0)

module _ (id : String) where
  abbrev other_team : Team → Bool
  other_team t = not (t.tenant_id == id)

  abbrev other_role : RoleRow → Bool
  other_role r = not (r.tenant_id == id)

  own_false : not (id == id) ≡ false
  own_false = rw (eq_refl id) refl

  keep-insert_teams :
      (ts : List String) (teams : List Team)
      → keep other_team (insert_teams id ts teams) ≡ keep other_team teams
  unfolding insert_teams
  keep-insert_teams [] teams = refl
  keep-insert_teams (t ∷ ts) teams = elim (Bool-cases (any (is_team id t) teams)) [
    | inl e ↦ rw e (keep-insert_teams ts teams)
    | inr e ↦ rw e (
        keep-insert_teams ts (teams ++ new_team id t ∷ [])
        ∙ keep-append_other other_team teams (new_team id t) own_false)
  ]

  is_role-own : (k : String) (r : RoleRow) → is_role id k r ≡ true → other_role r ≡ false
  unfolding is_role
  is_role-own k r h = ground arith

  keep-upsert_roles :
      (rs : List RoleCreate) (roles : List RoleRow)
      → keep other_role (upsert_roles id rs roles) ≡ keep other_role roles
  unfolding upsert_roles
  keep-upsert_roles [] roles = refl
  keep-upsert_roles (r ∷ rs) roles = elim (Bool-cases (any (is_role id r.role_id) roles)) [
    | inl e ↦ rw e (
        keep-upsert_roles rs (update_where (is_role id r.role_id) (λ o. new_role id r) roles)
        ∙ keep-update_other other_role (is_role id r.role_id) (λ o. new_role id r) (λ o. own_false)
            roles
            (All-every (λ o. is_role id r.role_id o ≡ true → other_role o ≡ false)
              (is_role-own r.role_id) roles))
    | inr e ↦ rw e (
        keep-upsert_roles rs (roles ++ new_role id r ∷ [])
        ∙ keep-append_other other_role roles (new_role id r) own_false)
  ]

-- A tenant that no table knows, once created and deleted again, leaves the tenants, teams, roles and
-- assignments as they were, and both calls return.
pub delete_tenant-create_tenant :
    (p : TenantCreate) (db : Org)
    → IsAbsent p.tenant_id db
    → ((create_tenant p db).0 ≡ none)
      × ((delete_tenant p.tenant_id (create_tenant p db).1).0 ≡ none)
      × (tables (delete_tenant p.tenant_id (create_tenant p db).1).1 ≡ tables db)
unfolding create_tenant delete_tenant cascade audit
delete_tenant-create_tenant p db a =
    let id = p.tenant_id in
    let new = contains_absent id db.tenants a.no_tenant in
    let there : contains id (db.tenants ++ id ∷ []) ≡ true =
      rw (contains-append id db.tenants (id ∷ []), new, eq_refl id) refl in
    rw (new, there)
      (
        refl,
        refl,
        rw
            (
              keep-append_other (λ (t : String). not (t == id)) db.tenants id (own_false id),
              keep_absent (λ (t : String). t) id db.tenants a.no_tenant,
              keep-insert_teams id (teams_or_default p.teams) db.teams,
              keep_absent (λ (t : Team). t.tenant_id) id db.teams a.no_team,
              keep-upsert_roles id
                  (or_else p.roles (default_specs (first_or_research (teams_or_default p.teams))))
                  db.roles,
              keep_absent (λ (r : RoleRow). r.tenant_id) id db.roles a.no_role,
              keep_absent (λ (x : Assignment). x.tenant_id) id db.assignments a.no_assignment,
            )
            refl,
      )

-- Under dual control, deleting a tenant leaves the tables as they are, whatever the answer is.
delete_tenant_handler-dual :
    (p : AdminPrincipal) (id confirm : String) (now day : ℕ) (s : State Org)
    → contains "tenant.delete" p.dual_control_actions ≡ true
    → (delete_tenant_handler p id confirm now day s).1.world ≡ s.world
unfolding delete_tenant_handler create_pending
delete_tenant_handler-dual p id confirm now day s h =
    rw h (elim (Bool-cases (is_some (require_platform p) || not p.can_delete_tenant)) [
      | inl e ↦ rw e refl
      | inr e ↦ rw e (elim (Bool-cases (confirm == id)) [ inl e ↦ rw e refl | inr e ↦ rw e refl ])
    ])
