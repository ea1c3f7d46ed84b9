-- ===== src/Budgets/Totals.antt =====
-- The levels of the budget hierarchy of src/aegis_fabric/token_budgets.py add up.
use aegis_capstone.Common.{
  ℕ, ◌+◌, String, ◌≡◌, refl, sym, ◌∙◌, inl, inr, Bool, true, false, List, [], ◌∷◌, ◌++◌, arith,
  eq_iff, if◌then◌else◌, Bool-cases, eq_refl, ◌==◌, ◌||◌, ◌≤◌,
}
use aegis_capstone.Budgets.{
  Counter, UserBudget, add, same_key, sum_values, Hierarchy, Setting, count_user,
  platform_budget_monthly, Assignment, build_user_budget_hierarchy, count_assignment, no_budgets,
  user_monthly_token_budget, Dict, RoleRow, Scalar, number, or_value, caps_get,
}

sum_values-add : (k : List String) (n : ℕ) (c : Counter) → sum_values (add k n c) ≡ sum_values c + n
unfolding sum_values add
sum_values-add k n [] = omega arith
sum_values-add k n ((j, m) ∷ c) = elim (Bool-cases (same_key j k)) [
  | inl e ↦ rw e (omega arith)
  | inr e ↦ rw e (omega (arith, sum_values-add k n c))
]

-- The budgets of the users that the test selects, together.
unfoldable pub users_total : (UserBudget → Bool) → List UserBudget → ℕ
users_total p [] = 0
users_total p (u ∷ us) = (if p u then u.monthly_token_budget else 0) + users_total p us

users_total-snoc :
    (p : UserBudget → Bool) (u : UserBudget) (us : List UserBudget)
    → users_total p (us ++ u ∷ []) ≡ users_total p us + (if p u then u.monthly_token_budget else 0)
unfolding users_total
users_total-snoc p u [] = omega arith
users_total-snoc p u (v ∷ us) = omega (arith, users_total-snoc p u us)

-- `counter[key]`
unfoldable pub value : List String → Counter → ℕ
value k [] = 0
value k ((j, m) ∷ c) = if same_key j k then m else value k c

same_key-eq : (j k : List String) → same_key j k ≡ true → j ≡ k
same_key-eq [] [] h = refl
same_key-eq [] (y ∷ ys) h = cc
same_key-eq (x ∷ xs) [] h = cc
same_key-eq (x ∷ xs) (y ∷ ys) h =
    let a : x ≡ y = (eq_iff x y).0 (ground arith) in
    let b : xs ≡ ys = same_key-eq xs ys (ground arith) in cc

same_key_refl : (k : List String) → same_key k k ≡ true
same_key_refl [] = refl
same_key_refl (x ∷ xs) = rw (eq_refl x, same_key_refl xs) refl

value-add :
    (k j : List String) (n : ℕ) (c : Counter)
    → value j (add k n c) ≡ value j c + (if same_key k j then n else 0)
unfolding value add
value-add k j n [] = elim (Bool-cases (same_key k j)) [
  | inl e ↦ rw e (omega arith)
  | inr e ↦ rw e (omega arith)
]
value-add k j n ((i, m) ∷ c) = elim (Bool-cases (same_key i k)) [
  | inl e ↦ let q : i ≡ k = same_key-eq i k e in rw (e, q) (ground arith)
  | inr e ↦ elim (Bool-cases (same_key i j)) [
    | inl f ↦
        let q : i ≡ j = same_key-eq i j f in
        let z : same_key k j ≡ false = elim (Bool-cases (same_key k j)) [
          | inl y ↦ absurd (
              let r : k ≡ j = same_key-eq k j y in
              let w : same_key i k ≡ true = rw (q, r) (same_key_refl j) in
              let v : true ≡ false = sym w ∙ e in cc)
          | inr y ↦ y
        ] in
        rw (e, f, z) (omega arith)
    | inr f ↦ rw (e, f) (value-add k j n c)
  ]
]

abbrev pub everyone : UserBudget → Bool
everyone u = true

-- Every level adds up to the users' budgets, and each tenant's, team's and role's budget is the sum of
-- its own users'.
pub record Balanced (h : Hierarchy) : Type 0 where
  pub by_key : sum_values h.user_budget_monthly_by_key ≡ users_total everyone h.users
  pub by_tenant_team_role :
      sum_values h.tenant_team_role_budget_monthly ≡ users_total everyone h.users
  pub by_tenant_team : sum_values h.tenant_team_budget_monthly ≡ users_total everyone h.users
  pub by_tenant : platform_budget_monthly h ≡ users_total everyone h.users
  pub by_team : sum_values h.team_budget_monthly ≡ users_total everyone h.users
  pub by_role : sum_values h.role_budget_monthly ≡ users_total everyone h.users
  pub tenant_is :
      (t : String)
      → value (t ∷ []) h.tenant_budget_monthly
        ≡ users_total (λ u. same_key (u.tenant_id ∷ []) (t ∷ [])) h.users
  pub team_is :
      (t : String)
      → value (t ∷ []) h.team_budget_monthly
        ≡ users_total (λ u. same_key (u.team_id ∷ []) (t ∷ [])) h.users
  pub role_is :
      (r : String)
      → value (r ∷ []) h.role_budget_monthly
        ≡ users_total (λ u. same_key (u.role_id ∷ []) (r ∷ [])) h.users

Balanced-no_budgets : Balanced no_budgets
unfolding users_total value platform_budget_monthly sum_values
Balanced-no_budgets = record {
  by_key = refl;
  by_tenant_team_role = refl;
  by_tenant_team = refl;
  by_tenant = refl;
  by_team = refl;
  by_role = refl;
  tenant_is = λ t. refl;
  team_is = λ t. refl;
  role_is = λ r. refl;
}

-- One level after a user has been added.
level :
    (k : List String) (n : ℕ) (c : Counter) (u : UserBudget) (us : List UserBudget)
    → u.monthly_token_budget ≡ n
    → sum_values c ≡ users_total everyone us
    → sum_values (add k n c) ≡ users_total everyone (us ++ u ∷ [])
level k n c u us e h = omega (arith, sum_values-add k n c, users_total-snoc everyone u us)

entry :
    (k j : List String) (c : Counter) (p : UserBudget → Bool) (u : UserBudget)
    (us : List UserBudget)
    → p u ≡ same_key k j
    → value j c ≡ users_total p us
    → value j (add k u.monthly_token_budget c) ≡ users_total p (us ++ u ∷ [])
entry k j c p u us q h =
    let a = value-add k j u.monthly_token_budget c in
    let b = users_total-snoc p u us in let d = rw q at b in omega arith

Balanced-count_user :
    (tenant team role email : String) (n : ℕ) (h : Hierarchy)
    → Balanced h
    → Balanced (count_user tenant team role email n h)
unfolding count_user platform_budget_monthly
Balanced-count_user tenant team role email n h b =
    let u : UserBudget = record {
      tenant_id = tenant;
      team_id = team;
      role_id = role;
      user_email = email;
      monthly_token_budget = n;
    } in
    record {
      by_key =
          level (tenant ∷ team ∷ role ∷ email ∷ []) n h.user_budget_monthly_by_key u h.users refl
            b.by_key;
      by_tenant_team_role =
          level (tenant ∷ team ∷ role ∷ []) n h.tenant_team_role_budget_monthly u h.users refl
            b.by_tenant_team_role;
      by_tenant_team =
          level (tenant ∷ team ∷ []) n h.tenant_team_budget_monthly u h.users refl b.by_tenant_team;
      by_tenant = level (tenant ∷ []) n h.tenant_budget_monthly u h.users refl b.by_tenant;
      by_team = level (team ∷ []) n h.team_budget_monthly u h.users refl b.by_team;
      by_role = level (role ∷ []) n h.role_budget_monthly u h.users refl b.by_role;
      tenant_is = λ t.
          entry (tenant ∷ []) (t ∷ []) h.tenant_budget_monthly
            (λ v. same_key (v.tenant_id ∷ []) (t ∷ [])) u h.users refl (b.tenant_is t);
      team_is = λ t.
          entry (team ∷ []) (t ∷ []) h.team_budget_monthly (λ v. same_key (v.team_id ∷ []) (t ∷ []))
            u h.users refl (b.team_is t);
      role_is = λ r.
          entry (role ∷ []) (r ∷ []) h.role_budget_monthly (λ v. same_key (v.role_id ∷ []) (r ∷ []))
            u h.users refl (b.role_is r);
    }

module _ (g : Setting) where
  Balanced-count_assignment :
      (roles : List RoleRow) (days : ℕ) (a : Assignment) (h : Hierarchy)
      → Balanced h
      → Balanced (count_assignment g roles days a h)
  unfolding count_assignment
  Balanced-count_assignment roles days a h b =
      elim (Bool-cases (a.tenant_id == "" || g.lower a.user_email == "")) [
        | inl e ↦ rw e b
        | inr e ↦ rw e (Balanced-count_user a.tenant_id _ _ (g.lower a.user_email) _ h b)
      ]

  Balanced-build :
      (assignments : List Assignment) (roles : List RoleRow) (days : ℕ) (h : Hierarchy)
      → Balanced h
      → Balanced (build_user_budget_hierarchy g assignments roles days h)
  unfolding build_user_budget_hierarchy
  Balanced-build [] roles days h b = b
  Balanced-build (a ∷ assignments) roles days h b =
      Balanced-build assignments roles days (count_assignment g roles days a h)
        (Balanced-count_assignment roles days a h b)

  -- For every list of assignments and roles, the platform's budget is the sum of the users' budgets;
  -- so is the sum of each level (by tenant, by team, by role, and by their combinations); and the
  -- budget of each tenant, team and role is the sum of its own users' budgets.
  pub build_user_budget_hierarchy-Balanced :
      (assignments : List Assignment) (roles : List RoleRow) (days : ℕ)
      → Balanced (build_user_budget_hierarchy g assignments roles days no_budgets)
  build_user_budget_hierarchy-Balanced assignments roles days =
      Balanced-build assignments roles days no_budgets Balanced-no_budgets

  -- Every user has a budget: whatever the role's capabilities say, and whatever the rounding gives,
  -- the monthly budget is at least 1, and at least 5000 unless a monthly cap is configured.
  pub user_monthly_token_budget_le :
      (tenant team role : String) (caps : Dict Scalar) (days : ℕ)
      → (1 ≤ user_monthly_token_budget g tenant team role caps days)
        × (number g (
                or_value
                  (caps_get "monthly_token_budget" caps)
                  (caps_get "user_monthly_token_budget" caps))
              ≡ 0
            → 5000 ≤ user_monthly_token_budget g tenant team role caps days)
  unfolding user_monthly_token_budget
  user_monthly_token_budget_le tenant team role caps days = (ground arith, λ h. ground arith)
