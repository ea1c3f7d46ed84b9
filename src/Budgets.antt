-- ===== src/Budgets.antt =====
-- The monthly token budgets of src/aegis_fabric/token_budgets.py. A multiplier is written in
-- hundredths; the product of a base with two multipliers and its rounding, which are floating-point
-- arithmetic, are one parameter. Capabilities are dictionaries, not JSON texts.
pub mod Totals
mod Examples
use aegis_capstone.Common.{
  ◌<>◌, ℕ, zero, suc, ◌+◌, ◌-◌, ◌≤◌, ◌<◌, String, ◌≡◌, refl, sym, ap, ◌∙◌, ◌≢◌, ◌⊎◌, inl, inr, Bool,
  true, false, ◌&&◌, ◌||◌, not, Option, none, some, List, [], ◌∷◌, ◌++◌, map, arith, ◌==◌, eq_iff,
  ltb, leb, eqb, if◌then◌else◌, Bool-cases, Option-cases, or_else, is_some, length, is_empty, keep,
  any, All, contains, max, ◌*◌,
}
use aegis_capstone.Common.Dict.{Dict, insert, lookup}
use aegis_capstone.Common.Integer.{pos, negsuc}
use aegis_capstone.Json.{Scalar, flag, truthy, int, null, text}

unfoldable pub role_monthly_token_budgets : Dict ℕ
role_monthly_token_budgets =
    ("viewer", 120000)
    ∷ ("restricted-reader", 120000)
    ∷ ("auditor", 180000)
    ∷ ("analyst-no-egress", 210000)
    ∷ ("analyst", 300000)
    ∷ ("analyst-low-budget", 3000)
    ∷ ("approval-reviewer", 300000)
    ∷ ("engineer", 420000)
    ∷ ("runtime-denied-engineer", 180000)
    ∷ ("runtime-python-engineer", 480000)
    ∷ ("lead", 600000)
    ∷ ("tenant-admin", 720000)
    ∷ ("platform-admin", 1200000)
    ∷ []

unfoldable pub tenant_multipliers : Dict ℕ
tenant_multipliers =
    ("tenant-acmecp", 110)
    ∷ ("tenant-betago", 90)
    ∷ ("tenant-gammac", 100)
    ∷ ("tenant-finsvc", 110)
    ∷ ("tenant-hrops", 95)
    ∷ ("tenant-saleseu", 100)
    ∷ ("tenant-engcore", 115)
    ∷ ("tenant-legalco", 90)
    ∷ ("tenant-it", 120)
    ∷ []

unfoldable pub team_multipliers : Dict ℕ
team_multipliers =
    ("data-science", 115)
    ∷ ("engineering", 110)
    ∷ ("finance", 100)
    ∷ ("hr", 85)
    ∷ ("infrastructure", 110)
    ∷ ("legal", 90)
    ∷ ("marketing", 90)
    ∷ ("ml-platform", 115)
    ∷ ("operations", 100)
    ∷ ("platform", 120)
    ∷ ("research", 115)
    ∷ ("sales", 100)
    ∷ ("security", 115)
    ∷ []

-- `str.lower`; `max(0, int(s))` of a text, 0 where it raises; and `_round_budget` of the base times the
-- tenant's and the team's multiplier.
pub record Setting : Type 0 where
  pub lower : String → String
  pub parse : String → ℕ
  pub scaled : ℕ → ℕ → ℕ → ℕ

abbrev pub caps_get : String → Dict Scalar → Scalar
caps_get k caps = or_else (lookup k caps) null

-- `a or b`
abbrev pub or_value : Scalar → Scalar → Scalar
or_value a b = if truthy a then a else b

-- A row of `user_assignments`; a missing text is the empty one.
pub record Assignment : Type 0 where
  pub tenant_id : String
  pub user_email : String
  pub team_id : String
  pub role_id : String

pub record RoleRow : Type 0 where
  pub tenant_id : String
  pub role_id : String
  pub capabilities : Dict Scalar

pub record UserBudget : Type 0 where
  pub tenant_id : String
  pub team_id : String
  pub role_id : String
  pub user_email : String
  pub monthly_token_budget : ℕ

-- A `Counter`: its keys are texts or tuples of texts.
abbrev pub Counter : Type 0
Counter = List (List String × ℕ)

abbrev pub same_key : List String → List String → Bool
same_key [] [] = true
same_key [] (y ∷ ys) = false
same_key (x ∷ xs) [] = false
same_key (x ∷ xs) (y ∷ ys) = x == y && same_key xs ys

-- `counter[key] += n`
unfoldable pub add : List String → ℕ → Counter → Counter
add k n [] = (k, n) ∷ []
add k n ((j, m) ∷ c) = if same_key j k then (j, m + n) ∷ c else (j, m) ∷ add k n c

-- `sum(counter.values())`
unfoldable pub sum_values : Counter → ℕ
sum_values [] = 0
sum_values ((k, n) ∷ c) = n + sum_values c

pub record Hierarchy : Type 0 where
  pub users : List UserBudget
  pub user_budget_monthly : Dict ℕ
  pub user_budget_monthly_by_key : Counter
  pub tenant_team_role_budget_monthly : Counter
  pub tenant_team_budget_monthly : Counter
  pub tenant_budget_monthly : Counter
  pub team_budget_monthly : Counter
  pub role_budget_monthly : Counter

abbrev pub no_budgets : Hierarchy
no_budgets = record {
  users = [];
  user_budget_monthly = [];
  user_budget_monthly_by_key = [];
  tenant_team_role_budget_monthly = [];
  tenant_team_budget_monthly = [];
  tenant_budget_monthly = [];
  team_budget_monthly = [];
  role_budget_monthly = [];
}

-- `platform_budget_monthly`
unfoldable pub platform_budget_monthly : Hierarchy → ℕ
unfolding sum_values
platform_budget_monthly h = sum_values h.tenant_budget_monthly

-- `role_caps.get((tenant, role), {})`: the last row of a role counts.
unfoldable pub role_caps : String → String → Dict Scalar → List RoleRow → Dict Scalar
role_caps tenant role found [] = found
role_caps tenant role found (r ∷ rows) =
    if r.tenant_id == tenant && r.role_id == role
    then role_caps tenant role r.capabilities rows
    else role_caps tenant role found rows

-- The rest of the loop's body, for an assignment that has a tenant and an email.
unfoldable pub count_user : String → String → String → String → ℕ → Hierarchy → Hierarchy
unfolding add
count_user tenant team role email budget h = record {
  users =
      h.users
      ++ record {
        tenant_id = tenant;
        team_id = team;
        role_id = role;
        user_email = email;
        monthly_token_budget = budget;
      }
        ∷ [];
  user_budget_monthly = insert email budget h.user_budget_monthly;
  user_budget_monthly_by_key =
      add (tenant ∷ team ∷ role ∷ email ∷ []) budget h.user_budget_monthly_by_key;
  tenant_team_role_budget_monthly =
      add (tenant ∷ team ∷ role ∷ []) budget h.tenant_team_role_budget_monthly;
  tenant_team_budget_monthly = add (tenant ∷ team ∷ []) budget h.tenant_team_budget_monthly;
  tenant_budget_monthly = add (tenant ∷ []) budget h.tenant_budget_monthly;
  team_budget_monthly = add (team ∷ []) budget h.team_budget_monthly;
  role_budget_monthly = add (role ∷ []) budget h.role_budget_monthly;
}

module _ (g : Setting) where
  -- `_positive_int`
  unfoldable pub number : Scalar → ℕ
  number null = 0
  number (flag b) = if b then 1 else 0
  number (int (pos n)) = n
  number (int (negsuc n)) = 0
  number (text s) = g.parse s

  unfoldable pub base_budget : String → Dict Scalar → ℕ → ℕ
  unfolding number role_monthly_token_budgets
  base_budget role_id caps days_in_month =
      if eqb (number (caps_get "token_budget_per_day" caps)) 0
      then or_else (lookup role_id role_monthly_token_budgets) 180000
      else number (caps_get "token_budget_per_day" caps) * max days_in_month 1

  unfoldable pub user_monthly_token_budget : String → String → String → Dict Scalar → ℕ → ℕ
  unfolding number base_budget tenant_multipliers team_multipliers
  user_monthly_token_budget tenant_id team_id role_id caps days_in_month =
      let configured = number (
        or_value (caps_get "monthly_token_budget" caps)
          (caps_get "user_monthly_token_budget" caps)) in
      if eqb configured 0
      then max 5000 (
          g.scaled (base_budget role_id caps days_in_month)
            (or_else (lookup tenant_id tenant_multipliers) 100)
            (or_else (lookup team_id team_multipliers) 100))
      else configured

  abbrev pub or_unknown : String → String
  or_unknown s = if s == "" then "unknown" else s

  unfoldable pub count_assignment : List RoleRow → ℕ → Assignment → Hierarchy → Hierarchy
  unfolding count_user user_monthly_token_budget role_caps
  count_assignment roles days_in_month a h =
      let email = g.lower a.user_email in
      let team = or_unknown a.team_id in
      let role = or_unknown a.role_id in
      if a.tenant_id == "" || email == ""
      then h
      else count_user a.tenant_id team role email
          (user_monthly_token_budget a.tenant_id team role (role_caps a.tenant_id role [] roles)
            days_in_month)
          h

  unfoldable pub build_user_budget_hierarchy :
      List Assignment → List RoleRow → ℕ → Hierarchy → Hierarchy
  unfolding count_assignment
  build_user_budget_hierarchy [] roles days_in_month h = h
  build_user_budget_hierarchy (a ∷ assignments) roles days_in_month h =
      build_user_budget_hierarchy assignments roles days_in_month
        (count_assignment roles days_in_month a h)
