-- ===== src/RateLimit/Examples.antt =====
-- Runs of the limiters, and the theorems about them at those runs.
use aegis_capstone.Common.{
  ℕ, suc, ◌≤◌, String, ◌≡◌, refl, true, false, Option, none, some, List, [], ◌∷◌, map, arith, ◌==◌,
  eqb, if◌then◌else◌, or_else, eq_refl,
}
use aegis_capstone.Common.Dict.{Dict, insert, lookup, lookup-insert}
use aegis_capstone.RateLimit.{
  Hit, serve, allow, granted, new_limiter, put_window, admit, pop_stale, is_stale, window_of,
}
use aegis_capstone.RateLimit.Bound.{within_minute, granted-le_per_minute}
use aegis_capstone.RateLimit.Redis.{
  build_limiter, redis_allow, redis_serve, in_process, within_limit,
}
use aegis_capstone.RateLimit.Refines.{serve-refines_log}
use aegis_capstone.RateLimit.Spec.{Ascends, serve_log, times}

abbrev alice : ℕ → Hit
alice t = record { at = t; key = "alice" }

abbrev bob : ℕ → Hit
bob t = record { at = t; key = "bob" }

-- Two a minute: the third of alice is refused, bob's is not, and at 61 her hit at 0 is stale.
abbrev calls : List Hit
calls = alice 0 ∷ alice 10 ∷ alice 20 ∷ bob 30 ∷ alice 60 ∷ alice 61 ∷ []

calls-Ascends : Ascends 0 calls
unfolding Ascends
calls-Ascends =
    (omega arith, (omega arith, (omega arith, (omega arith, (omega arith, (omega arith, tt))))))

serve_calls :
    map (λ a. a.1) (serve (new_limiter 2) calls) ≡ true ∷ true ∷ false ∷ true ∷ false ∷ true ∷ []
unfolding serve allow new_limiter put_window admit pop_stale is_stale window_of
serve_calls = refl

-- Without rate limits everything passes and no hit is kept.
disabled : allow false 0 (new_limiter 0) "alice" ≡ (true, new_limiter 0)
unfolding allow
disabled = refl

serve-refines_log_example : serve (new_limiter 2) calls ≡ serve_log 2 [] calls
serve-refines_log_example = serve-refines_log 2 calls calls-Ascends

granted-le_per_minute_example :
    within_minute 1 (times "alice" (granted (serve (new_limiter 2) calls))) ≤ 2
granted-le_per_minute_example = granted-le_per_minute 2 calls calls-Ascends "alice" 1

-- A Redis of counters by key.
abbrev counter : String → Dict ℕ → ℕ
counter k d = or_else (lookup k d) 0

abbrev pipeline : String → Dict ℕ → Option ℕ × Dict ℕ
pipeline k d = (some (suc (counter k d)), insert k (suc (counter k d)) d)

-- The first two windows are printed.
abbrev digits : ℕ → String
digits n = if eqb n 0 then "0" else "1"

counter_same : (k : String) (d : Dict ℕ) → counter k (pipeline k d).1 ≡ suc (counter k d)
counter_same k d = rw (lookup-insert k k (suc (counter k d)) d, eq_refl k) refl

counter_other :
    (k j : String) (d : Dict ℕ) → (k == j) ≡ false → counter j (pipeline k d).1 ≡ counter j d
counter_other k j d e = rw (lookup-insert k j (suc (counter k d)) d, e) refl

-- A window of Redis is the clock's minute, so that limits of two of them meet at its boundary.
redis_calls :
    map (λ a. a.1) (redis_serve digits pipeline 1 [] (alice 58 ∷ alice 59 ∷ alice 60 ∷ []))
    ≡ true ∷ false ∷ true ∷ []
unfolding redis_serve redis_allow within_limit
redis_calls = refl

-- An outage of Redis lets everything pass.
outage : redis_allow digits (λ k (d : Dict ℕ). (none, d)) true 0 0 [] "alice" ≡ (true, [])
unfolding redis_allow within_limit
outage = refl

-- `build_limiter`
build_without_redis : build_limiter {Client = Dict ℕ} "redis" none 60 ≡ in_process (new_limiter 60)
unfolding build_limiter
build_without_redis = refl
