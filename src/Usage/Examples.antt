-- ===== src/Usage/Examples.antt =====
-- The theorems on src/aegis_fabric/usage.py at fresh counters.
use aegis_capstone.Common.{◌+◌, ◌≤◌, String, ◌≡◌, refl, true, List, [], ◌∷◌, arith, max}
use aegis_capstone.Usage.{
  Clock, Settings, minute_count, check_request, no_usage, check_minute, check_quota,
  incr_minute_memory,
}
use aegis_capstone.Usage.Budget.{Use, spent, spend_all, spend_all-spent}
use aegis_capstone.Usage.Requests.{accepted_calls, Call, accepted_calls_le}
use aegis_capstone.Usage.Slots.{SlotCall, enter, leave}

abbrev cfg : Settings
cfg = record { rate_limit_enabled = true; rate_limit_per_minute = 60; budget_fail_open = true }

abbrev noon : Clock
noon = record { minute = 720; day = "20250101" }

abbrev call : String → Call
call sub = record { tenant = "acme"; sub = sub; per_minute = 2; daily_quota = 0 }

abbrev burst : List Call
burst = call "ann" ∷ call "ann" ∷ call "bob" ∷ call "ann" ∷ []

third_refused : accepted_calls cfg noon "acme:ann" burst no_usage ≡ 2
unfolding accepted_calls check_request check_minute check_quota incr_minute_memory minute_count
third_refused = refl

fresh : minute_count "acme:ann" 720 no_usage ≡ 0
unfolding minute_count
fresh = refl

accepted_calls_le_example :
    minute_count "acme:ann" 720 no_usage + accepted_calls cfg noon "acme:ann" burst no_usage
    ≤ max 2 (minute_count "acme:ann" 720 no_usage)
accepted_calls_le_example =
    accepted_calls_le cfg noon "acme:ann" 2 burst no_usage refl
      (λ q. omega arith, (λ q. omega arith, (λ q. omega arith, (λ q. omega arith, tt))))

abbrev rush : List SlotCall
rush = enter "acme" "ann" ∷ enter "acme" "ann" ∷ leave "acme" "ann" ∷ enter "acme" "bob" ∷ []

abbrev uses : List Use
uses =
    record { projected = 60; used = 50 }
    ∷ record { projected = 60; used = 60 }
    ∷ record { projected = 50; used = 40 }
    ∷ []

nothing_spent : spent noon "acme" "analyst" no_usage ≤ 100
unfolding spent
nothing_spent = omega arith

spend_all-spent_example :
    spent noon "acme" "analyst" (spend_all cfg noon "acme" "analyst" 100 uses no_usage) ≤ 100
spend_all-spent_example =
    spend_all-spent cfg noon "acme" "analyst" 100 uses no_usage (omega arith)
      (omega arith, (omega arith, (omega arith, tt))) nothing_spent
