-- ===== src/Usage/Requests.antt =====
-- The request rate of src/aegis_fabric/usage.py with the in-process counters.
use aegis_capstone.Common.{
  ℕ, ◌+◌, ◌≤◌, String, ◌≡◌, refl, ◌≢◌, inl, inr, Bool, true, false, ◌&&◌, List, [], ◌∷◌, arith,
  ◌==◌, if◌then◌else◌, Bool-cases, All, ap, max, ◌∙◌, eq_iff, some, sym, not,
}
use aegis_capstone.Common.Dict.{lookup-insert, lookup}
use aegis_capstone.Usage.{
  Answer, Settings, Clock, refused, MemoryUsage, accepted, check_quota, minute_count, user_key,
  check_request, incr_day_memory, insert, minute_limit, raised, memory_backend, Refusal, and_quota,
  check_minute, above, count_in, incr_minute_memory, rate_limited,
}

-- The arguments of one call of `check_request`.
pub record Call : Type 0 where
  pub tenant : String
  pub sub : String
  pub per_minute : ℕ
  pub daily_quota : ℕ

abbrev pub is_accepted : Answer → Bool
is_accepted accepted = true
is_accepted raised = false
is_accepted (refused r) = false

module _ (cfg : Settings) (clock : Clock) where
  -- The calls one after another: how many of those under the key are accepted.
  unfoldable pub accepted_calls : String → List Call → MemoryUsage → ℕ
  accepted_calls key [] s = 0
  accepted_calls key (c ∷ cs) s =
      let (answer, t) =
        check_request cfg memory_backend clock c.tenant c.sub c.per_minute c.daily_quota s in
      (if user_key c.tenant c.sub == key && is_accepted answer then 1 else 0)
      + accepted_calls key cs t

  -- No call under the key asks for more than `limit` a minute.
  abbrev pub IsLimited : String → ℕ → List Call → Type 0
  IsLimited key limit =
      All (λ c. user_key c.tenant c.sub ≡ key → minute_limit cfg c.per_minute ≤ limit)

  minutes-check_quota :
      (k : String) (quota : ℕ) (s : MemoryUsage)
      → (check_quota cfg memory_backend clock k quota s).1.minutes ≡ s.minutes
  unfolding check_quota incr_day_memory
  minutes-check_quota k quota s = ground arith

  -- What one call does to the minute's counter of a key, and what an accepted call has found.
  record Counted (key : String) (c : Call) (s : MemoryUsage) (r : Answer × MemoryUsage)
      : Type 0 where
    own :
        user_key c.tenant c.sub ≡ key
        → minute_count key clock.minute r.1 ≡ minute_count key clock.minute s + 1
    other :
        user_key c.tenant c.sub ≢ key
        → minute_count key clock.minute r.1 ≡ minute_count key clock.minute s
    free :
        is_accepted r.0 ≡ true
        → user_key c.tenant c.sub ≡ key
        → minute_count key clock.minute s + 1 ≤ minute_limit cfg c.per_minute

  count-insert :
      (k key : String) (n : ℕ) (s : MemoryUsage)
      → minute_count key clock.minute (record s { minutes = insert k (clock.minute, n) s.minutes })
        ≡ (if k == key then n else minute_count key clock.minute s)
  unfolding minute_count
  count-insert k key n s = elim (Bool-cases (k == key)) [
    | inl e ↦ rw (lookup-insert k key (clock.minute, n) s.minutes, e) (ground arith)
    | inr e ↦ rw (lookup-insert k key (clock.minute, n) s.minutes, e) refl
  ]

  minute_count-minutes :
      (key : String) (s t : MemoryUsage)
      → s.minutes ≡ t.minutes
      → minute_count key clock.minute s ≡ minute_count key clock.minute t
  unfolding minute_count
  minute_count-minutes key s t h = ap (λ m. count_in clock.minute (lookup key m)) h

  -- The state after the minute's counter of the caller has gone up.
  abbrev ticked : String → MemoryUsage → MemoryUsage
  ticked k s = record s {
    minutes = insert k (clock.minute, minute_count k clock.minute s + 1) s.minutes;
  }

  Counted-ticked :
      (key : String) (c : Call) (s : MemoryUsage) (r : Answer × MemoryUsage)
      → r.1.minutes ≡ (ticked (user_key c.tenant c.sub) s).minutes
      → (is_accepted r.0 ≡ true
          → minute_count (user_key c.tenant c.sub) clock.minute s + 1
            ≤ minute_limit cfg c.per_minute)
      → Counted key c s r
  Counted-ticked key c s r m f =
      let k = user_key c.tenant c.sub in
      let q =
        minute_count-minutes key r.1 (ticked k s) m
        ∙ count-insert k key (minute_count k clock.minute s + 1) s in
      record {
        own = λ e. q ∙ (rw ((eq_iff k key).1 e) (ap (λ x. minute_count x clock.minute s + 1) e));
        other = λ n. q ∙ (let z : (k == key) ≡ false = grind (arith, eq_iff k key) in rw z refl);
        free = λ a e. rw (sym e) (f a);
      }

  Counted-and_quota :
      (key : String) (c : Call) (s : MemoryUsage) (a : Answer)
      → (is_accepted a ≡ true
          → minute_count (user_key c.tenant c.sub) clock.minute s + 1
            ≤ minute_limit cfg c.per_minute)
      → Counted key c s (
          and_quota cfg memory_backend clock
            (user_key c.tenant c.sub)
            c.daily_quota
            (a, ticked (user_key c.tenant c.sub) s))
  Counted-and_quota key c s accepted f =
      Counted-ticked key c s
        (check_quota cfg memory_backend clock (user_key c.tenant c.sub) c.daily_quota
          (ticked (user_key c.tenant c.sub) s))
        (minutes-check_quota (user_key c.tenant c.sub) c.daily_quota
          (ticked (user_key c.tenant c.sub) s))
        (λ q. f refl)
  Counted-and_quota key c s raised f =
      Counted-ticked key c s (raised, ticked (user_key c.tenant c.sub) s) refl (λ q. cc)
  Counted-and_quota key c s (refused r) f =
      Counted-ticked key c s (refused r, ticked (user_key c.tenant c.sub) s) refl (λ q. cc)

  accepted-above :
      (n limit : ℕ) (r : Refusal) → is_accepted (above (some n) limit r) ≡ true → n ≤ limit
  accepted-above n limit r h = ground arith

  gate :
      (key : String) (c : Call) (s : MemoryUsage) (x : Answer × MemoryUsage) (b : Bool)
      → b ≡ true
      → Counted key c s x
      → Counted key c s (if not b then (accepted, s) else x)
  gate key c s x true h k = k
  gate key c s x false h k = cc

  Counted-check_request :
      (key : String) (c : Call) (s : MemoryUsage)
      → cfg.rate_limit_enabled ≡ true
      → Counted key c s
          (check_request cfg memory_backend clock c.tenant c.sub c.per_minute c.daily_quota s)
  unfolding check_request check_minute incr_minute_memory
  Counted-check_request key c s h = gate key c s _ cfg.rate_limit_enabled h (
      Counted-and_quota key c s
        (above (some (minute_count (user_key c.tenant c.sub) clock.minute s + 1))
          (minute_limit cfg c.per_minute) rate_limited)
        (accepted-above (minute_count (user_key c.tenant c.sub) clock.minute s + 1)
          (minute_limit cfg c.per_minute) rate_limited))

  -- With rate limiting on and the counters of one process, whatever calls come in one minute, in whatever order and from whichever
  -- users, those accepted under one key, together with the requests counted there before, are at most
  -- the limit, or as many as were counted before if that is more; the limit is any that no call under
  -- the key exceeds.
  pub accepted_calls_le :
      (key : String) (limit : ℕ) (cs : List Call) (s : MemoryUsage)
      → cfg.rate_limit_enabled ≡ true
      → IsLimited key limit cs
      → minute_count key clock.minute s + accepted_calls key cs s
        ≤ max limit (minute_count key clock.minute s)
  unfolding accepted_calls
  accepted_calls_le key limit [] s h l = omega arith
  accepted_calls_le key limit (c ∷ cs) s h l =
      let r = check_request cfg memory_backend clock c.tenant c.sub c.per_minute c.daily_quota s in
      let k = Counted-check_request key c s h in
      let ih = accepted_calls_le key limit cs r.1 h l.1 in
      elim (Bool-cases (user_key c.tenant c.sub == key)) [
        | inl e ↦
            let q : user_key c.tenant c.sub ≡ key = (eq_iff (user_key c.tenant c.sub) key).0 e in
            elim (Bool-cases (is_accepted r.0)) [
              | inl a ↦ rw (e, a) (omega (arith, k.own q, k.free a q, l.0 q, ih))
              | inr a ↦ rw (e, a) (omega (arith, k.own q, ih))
            ]
        | inr e ↦
            rw e (
              omega (arith, k.other (λ q. grind (arith, eq_iff (user_key c.tenant c.sub) key)), ih))
      ]
