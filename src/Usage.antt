-- ===== src/Usage.antt =====
-- Usage governance, src/aegis_fabric/usage.py: `UsageLimiter` over a counter store, and the in-process
-- store `_MemoryUsage`. The Redis store is a parameter of the same interface. The clock is the number
-- of the minute and the text of the day; an operation that raises gives `none`.
pub mod Requests
pub mod Budget
pub mod Slots
mod Examples
use aegis_capstone.Common.{
  ◌<>◌, ℕ, zero, suc, ◌+◌, ◌-◌, ◌≤◌, ◌<◌, String, ◌≡◌, refl, sym, ap, ◌∙◌, ◌≢◌, ◌⊎◌, inl, inr, Bool,
  true, false, ◌&&◌, ◌||◌, not, Option, none, some, List, [], ◌∷◌, ◌++◌, map, arith, ◌==◌, eq_iff,
  ltb, leb, eqb, if◌then◌else◌, Bool-cases, Option-cases, or_else, is_some, length, is_empty, keep,
  any, All, contains, max, ◌/◌,
}
use aegis_capstone.Common.Dict.{Dict, insert, lookup}

-- `int(time.time() // 60)` and `_day()`.
pub record Clock : Type 0 where
  pub minute : ℕ
  pub day : String

-- `settings`
pub record Settings : Type 0 where
  pub rate_limit_enabled : Bool
  pub rate_limit_per_minute : ℕ
  pub budget_fail_open : Bool

-- The operations of a counter store.
pub record Backend (S : Type 0) : Type 0 where
  pub incr_minute : Clock → String → S → Option ℕ × S
  pub get_day : Clock → String → S → Option ℕ
  pub incr_day : Clock → String → ℕ → S → Option ℕ × S
  pub incr_conc : String → S → Option ℕ × S
  pub decr_conc : String → S → Option ℕ × S

-- `estimate_tokens`, on the length of the text.
unfoldable pub estimate_tokens : ℕ → ℕ
estimate_tokens len = max 1 (len / 4)

-- `_MemoryUsage`
pub record MemoryUsage : Type 0 where
  pub minutes : Dict (ℕ × ℕ)
  pub days : Dict ℕ
  pub conc : Dict ℕ

abbrev pub no_usage : MemoryUsage
no_usage = record { minutes = []; days = []; conc = [] }

-- The count of a minute's window: an entry of another minute counts for nothing.
abbrev pub count_in : ℕ → Option (ℕ × ℕ) → ℕ
count_in w none = 0
count_in w (some (win, c)) = if eqb win w then c else 0

unfoldable pub minute_count : String → ℕ → MemoryUsage → ℕ
minute_count key w s = count_in w (lookup key s.minutes)

abbrev pub counter : String → Dict ℕ → ℕ
counter k d = or_else (lookup k d) 0

abbrev pub day_key : Clock → String → String
day_key clock key = key <> (":" <> clock.day)

unfoldable pub incr_minute_memory : Clock → String → MemoryUsage → Option ℕ × MemoryUsage
unfolding minute_count
incr_minute_memory clock key s =
    let c = minute_count key clock.minute s + 1 in
    (some c, record s { minutes = insert key (clock.minute, c) s.minutes })

unfoldable pub get_day_memory : Clock → String → MemoryUsage → Option ℕ
get_day_memory clock key s = some (counter (day_key clock key) s.days)

unfoldable pub incr_day_memory : Clock → String → ℕ → MemoryUsage → Option ℕ × MemoryUsage
incr_day_memory clock key by s =
    let c = counter (day_key clock key) s.days + by in
    (some c, record s { days = insert (day_key clock key) c s.days })

unfoldable pub incr_conc_memory : String → MemoryUsage → Option ℕ × MemoryUsage
incr_conc_memory key s =
    let c = counter key s.conc + 1 in (some c, record s { conc = insert key c s.conc })

-- `max(0, … - 1)`
unfoldable pub decr_conc_memory : String → MemoryUsage → Option ℕ × MemoryUsage
decr_conc_memory key s =
    let c = counter key s.conc - 1 in (some c, record s { conc = insert key c s.conc })

abbrev pub memory_backend : Backend MemoryUsage
memory_backend = record {
  incr_minute = incr_minute_memory;
  get_day = get_day_memory;
  incr_day = incr_day_memory;
  incr_conc = incr_conc_memory;
  decr_conc = decr_conc_memory;
}

-- `_guard`: the default where the store raises and budgets fail open.
abbrev pub guard {ℓ} : {A : Type ℓ} → Settings → Option A → A → Option A
guard cfg none default = if cfg.budget_fail_open then some default else none
guard cfg (some a) default = some a

pub data Refusal : Type 0 where
  rate_limited daily_quota_exceeded token_budget_exceeded : Refusal

-- What a check answers: it accepts, refuses, or raises.
pub data Answer : Type 0 where
  accepted raised : Answer
  refused : Refusal → Answer

abbrev pub user_key : String → String → String
user_key tenant sub = tenant <> (":" <> sub)

abbrev pub token_key : String → String → String
token_key tenant role = "tok:" <> (tenant <> (":" <> role))

-- `per_minute if per_minute and per_minute > 0 else settings.rate_limit_per_minute`
abbrev pub minute_limit : Settings → ℕ → ℕ
minute_limit cfg per_minute = if eqb per_minute 0 then cfg.rate_limit_per_minute else per_minute

abbrev pub above : Option ℕ → ℕ → Refusal → Answer
above none limit r = raised
above (some n) limit r = if ltb limit n then refused r else accepted

module _ {S : Type 0} (cfg : Settings) (b : Backend S) where
  -- The part of `check_request` on the daily quota.
  unfoldable pub check_quota : Clock → String → ℕ → S → Answer × S
  check_quota clock key daily_quota s =
      if eqb daily_quota 0
      then (accepted, s)
      else let (n, t) = b.incr_day clock ("req:" <> key) 1 s in
        (above (guard cfg n 1) daily_quota daily_quota_exceeded, t)

  abbrev pub and_quota : Clock → String → ℕ → Answer × S → Answer × S
  and_quota clock key daily_quota (accepted, s) = check_quota clock key daily_quota s
  and_quota clock key daily_quota (raised, s) = (raised, s)
  and_quota clock key daily_quota (refused r, s) = (refused r, s)

  unfoldable pub check_minute : Clock → String → ℕ → S → Answer × S
  check_minute clock key limit s =
      let (n, t) = b.incr_minute clock key s in (above (guard cfg n 1) limit rate_limited, t)

  unfoldable pub check_request : Clock → String → String → ℕ → ℕ → S → Answer × S
  unfolding check_minute check_quota
  check_request clock tenant sub per_minute daily_quota s =
      if not cfg.rate_limit_enabled
      then (accepted, s)
      else and_quota clock (user_key tenant sub) daily_quota
          (check_minute clock (user_key tenant sub) (minute_limit cfg per_minute) s)

  abbrev pub within : ℕ → ℕ → Option ℕ → Option Bool
  within projected budget none = none
  within projected budget (some n) = some (leb (n + projected) budget)

  abbrev pub budget_answer : Option Bool → Answer
  budget_answer none = raised
  budget_answer (some true) = accepted
  budget_answer (some false) = refused token_budget_exceeded

  unfoldable pub check_token_budget : Clock → String → String → ℕ → ℕ → S → Answer
  check_token_budget clock tenant role budget projected s =
      if eqb budget 0
      then accepted
      else budget_answer
          (guard cfg (within projected budget (b.get_day clock (token_key tenant role) s)) true)

  -- `add_tokens`, with whether it returns.
  unfoldable pub add_tokens : Clock → String → String → ℕ → S → Bool × S
  add_tokens clock tenant role tokens s =
      if eqb tokens 0
      then (true, s)
      else let (n, t) = b.incr_day clock (token_key tenant role) tokens s in
        (is_some (guard cfg n 0), t)

  -- `acquire_slot`: above the maximum the count is taken back.
  abbrev pub take_back : String → ℕ → Option ℕ × S → Option Bool × S
  take_back key max_concurrent (none, s) = (none, s)
  take_back key max_concurrent (some cur, s) =
      if ltb max_concurrent cur
      then (let (n, t) = b.decr_conc key s in
          (elim (guard cfg n 0) [ none ↦ none | some k ↦ some false ], t))
      else (some true, s)

  unfoldable pub acquire_slot : String → String → ℕ → S → Option Bool × S
  acquire_slot tenant sub max_concurrent s =
      if eqb max_concurrent 0
      then (some true, s)
      else let (n, t) = b.incr_conc (user_key tenant sub) s in
        take_back (user_key tenant sub) max_concurrent (guard cfg n 1, t)

  -- `release_slot`, with whether it returns.
  unfoldable pub release_slot : String → String → ℕ → S → Bool × S
  release_slot tenant sub max_concurrent s =
      if eqb max_concurrent 0
      then (true, s)
      else let (n, t) = b.decr_conc (user_key tenant sub) s in (is_some (guard cfg n 0), t)
