-- ===== src/Usage/Budget.antt =====
-- The daily token budget of src/aegis_fabric/usage.py with the in-process counters.
use aegis_capstone.Common.{
  ℕ, ◌+◌, ◌≤◌, String, ◌≡◌, refl, inl, inr, false, List, [], ◌∷◌, arith, leb, eqb, Bool-cases, All,
  eq_refl,
}
use aegis_capstone.Common.Dict.{lookup-insert}
use aegis_capstone.Usage.{
  Clock, Settings, Answer, MemoryUsage, add_tokens, check_token_budget, accepted, counter,
  get_day_memory, incr_day_memory, memory_backend, day_key, refused, raised, token_key,
  token_budget_exceeded,
}

-- The tokens counted for a role on a day.
unfoldable pub spent : Clock → String → String → MemoryUsage → ℕ
spent clock tenant role s = counter (day_key clock (token_key tenant role)) s.days

-- One call of a model: what it is projected to use, and what it used.
pub record Use : Type 0 where
  pub projected : ℕ
  pub used : ℕ

module _ (cfg : Settings) (clock : Clock) (tenant role : String) (budget : ℕ) where
  -- The check before the call, and the count after it.
  abbrev pub count_if : Answer → ℕ → MemoryUsage → MemoryUsage
  count_if accepted used s = (add_tokens cfg memory_backend clock tenant role used s).1
  count_if raised used s = s
  count_if (refused r) used s = s

  unfoldable pub spend_all : List Use → MemoryUsage → MemoryUsage
  spend_all [] s = s
  spend_all (u ∷ us) s = spend_all us (
      count_if (check_token_budget cfg memory_backend clock tenant role budget u.projected s) u.used
        s)

  spent-add_tokens :
      (used : ℕ) (s : MemoryUsage)
      → spent clock tenant role (add_tokens cfg memory_backend clock tenant role used s).1
        ≡ spent clock tenant role s + used
  unfolding add_tokens spent incr_day_memory
  spent-add_tokens used s = elim (Bool-cases (eqb used 0)) [
    | inl e ↦ rw e (ground arith)
    | inr e ↦
        let k = day_key clock (token_key tenant role) in
        rw (e, lookup-insert k k (counter k s.days + used) s.days, eq_refl k) refl
  ]

  spent-count_if :
      (a : Answer) (u : Use) (s : MemoryUsage)
      → (a ≡ accepted → spent clock tenant role s + u.projected ≤ budget)
      → u.used ≤ u.projected
      → spent clock tenant role s ≤ budget
      → spent clock tenant role (count_if a u.used s) ≤ budget
  spent-count_if accepted u s h l m = omega (arith, spent-add_tokens u.used s, h refl)
  spent-count_if raised u s h l m = m
  spent-count_if (refused r) u s h l m = m

  check-accepted :
      (projected : ℕ) (s : MemoryUsage)
      → 1 ≤ budget
      → check_token_budget cfg memory_backend clock tenant role budget projected s ≡ accepted
      → spent clock tenant role s + projected ≤ budget
  unfolding check_token_budget get_day_memory spent
  check-accepted projected s b h =
      let z : eqb budget 0 ≡ false = ground arith in
      elim (Bool-cases
        (leb (counter (day_key clock (token_key tenant role)) s.days + projected) budget)) [
          | inl e ↦ ground arith
          | inr e ↦ absurd (let k : refused token_budget_exceeded ≡ accepted = rw (z, e) at h in cc)
        ]

  -- With the counters of one process, when calls follow one another, each checked before and counted after, and none uses more than was
  -- projected for it, the tokens counted for the role on the day never exceed a budget above 0.
  pub spend_all-spent :
      (us : List Use) (s : MemoryUsage)
      → 1 ≤ budget
      → All (λ u. u.used ≤ u.projected) us
      → spent clock tenant role s ≤ budget
      → spent clock tenant role (spend_all us s) ≤ budget
  unfolding spend_all
  spend_all-spent [] s b l h = h
  spend_all-spent (u ∷ us) s b l h =
      let a = check_token_budget cfg memory_backend clock tenant role budget u.projected s in
      spend_all-spent us (count_if a u.used s) b l.1
        (spent-count_if a u s (check-accepted u.projected s b) l.0 h)
