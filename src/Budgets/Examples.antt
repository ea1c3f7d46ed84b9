-- ===== src/Budgets/Examples.antt =====
-- The theorems on src/aegis_fabric/token_budgets.py at three assignments.
use aegis_capstone.Common.{◌≡◌, refl, List, [], ◌∷◌, ◌*◌, ◌/◌}
use aegis_capstone.Budgets.{
  platform_budget_monthly, user_monthly_token_budget, Assignment, RoleRow, Setting,
  build_user_budget_hierarchy, number, sum_values, count_assignment, int, no_budgets, count_user,
  pos, add, base_budget, role_caps, role_monthly_token_budgets, tenant_multipliers,
  team_multipliers,
}
use aegis_capstone.Budgets.Totals.{Balanced, build_user_budget_hierarchy-Balanced}

abbrev setting : Setting
setting = record { lower = λ s. s; parse = λ s. 0; scaled = λ base a b. base * a * b / 10000 }

abbrev people : List Assignment
people =
    record { tenant_id = "acme"; user_email = "ann"; team_id = "sales"; role_id = "viewer" }
    ∷ record { tenant_id = "acme"; user_email = "bob"; team_id = ""; role_id = "lead" }
    ∷ record { tenant_id = "zeta"; user_email = ""; team_id = "sales"; role_id = "lead" }
    ∷ []

abbrev lead_row : RoleRow
lead_row = record {
  tenant_id = "acme";
  role_id = "lead";
  capabilities = ("token_budget_per_day", int (pos 1000)) ∷ [];
}

platform_total :
    platform_budget_monthly
      (build_user_budget_hierarchy setting people (lead_row ∷ []) 30 no_budgets)
    ≡ 150000
unfolding platform_budget_monthly sum_values build_user_budget_hierarchy count_assignment count_user
    add user_monthly_token_budget base_budget number role_caps role_monthly_token_budgets
    tenant_multipliers team_multipliers
platform_total = refl

build_user_budget_hierarchy-Balanced_example :
    Balanced (build_user_budget_hierarchy setting people (lead_row ∷ []) 30 no_budgets)
build_user_budget_hierarchy-Balanced_example =
    build_user_budget_hierarchy-Balanced setting people (lead_row ∷ []) 30
