-- ===== src/RateLimit/Redis.antt =====
-- The fixed window of `RedisLimiter.allow`, and the choice of a limiter by `build_limiter`. Redis is a
-- parameter: a store of its own type, and the pipeline INCR, EXPIRE on one key of it, which answers
-- with the counter or fails. `str` prints a number as an f-string does.
use aegis_capstone.Common.{
  ◌<>◌, ℕ, suc, ◌+◌, ◌-◌, String, ◌≡◌, inl, inr, Bool, true, false, Option, none, some, List, [],
  ◌∷◌, arith, ◌==◌, eq_iff, leb, if◌then◌else◌, Bool-cases, ◌/◌, eq_refl, min,
}
use aegis_capstone.RateLimit.{Hit, granted, SlidingWindowLimiter, new_limiter}

module _ {ℓ} {Store : Type ℓ} (str : ℕ → String) (execute : String → Store → Option ℕ × Store) where
  -- `f"aegis:rl:{key}:{window}"` with `window = int(time.time() // 60)`
  abbrev pub window_key : String → ℕ → String
  window_key key now = "aegis:rl:" <> key <> ":" <> str (now / 60)

  -- `int(count) <= self.per_minute`; an error of the pipeline lets the request pass.
  unfoldable pub within_limit : ℕ → Option ℕ → Bool
  within_limit per_minute none = true
  within_limit per_minute (some count) = leb count per_minute

  -- `RedisLimiter.allow`
  unfoldable pub redis_allow : Bool → ℕ → ℕ → Store → String → Bool × Store
  redis_allow enabled per_minute now store key =
      if enabled
      then (
        within_limit per_minute (execute (window_key key now) store).0,
        (execute (window_key key now) store).1,
      )
      else (true, store)

  -- The answers to a sequence of requests, in their order.
  unfoldable pub redis_serve : ℕ → Store → List Hit → List (Hit × Bool)
  redis_serve per_minute store [] = []
  redis_serve per_minute store (h ∷ calls) =
      (h, (redis_allow true per_minute h.at store h.key).0)
      ∷ redis_serve per_minute (redis_allow true per_minute h.at store h.key).1 calls

  -- The requests let through that Redis counts under one key.
  unfoldable pub counted : String → List Hit → ℕ
  counted k [] = 0
  counted k (h ∷ calls) = (if window_key h.key h.at == k then 1 else 0) + counted k calls

  module _ (count : String → Store → ℕ)
      (incr : (k : String) (s : Store) → (execute k s).0 ≡ some (suc (count k s)))
      (incr_same : (k : String) (s : Store) → count k (execute k s).1 ≡ suc (count k s))
      (incr_other : (k j : String) (s : Store)
        → (k == j) ≡ false
        → count j (execute k s).1 ≡ count j s) where
    -- While the pipeline INCR, EXPIRE answers with a key's counter raised by one, a fixed window lets
    -- through as many of its requests as come, up to what the limit leaves of the counter.
    pub counted-redis_serve :
        (per_minute : ℕ) (s : Store) (calls : List Hit) (k : String)
        → counted k (granted (redis_serve per_minute s calls))
          ≡ min (counted k calls) (per_minute - count k s)
    unfolding counted granted redis_serve redis_allow within_limit
    counted-redis_serve per s [] k = omega arith
    counted-redis_serve per s (h ∷ calls) k = elim (Bool-cases (window_key h.key h.at == k)) [
      | inl e ↦
          let q : window_key h.key h.at ≡ k = grind (arith, eq_iff (window_key h.key h.at) k) in
          let rest = counted-redis_serve per (execute k s).1 calls k in
          let c = incr_same k s in rw (q, incr k s) (ground (arith, eq_refl k, rest, c, q))
      | inr e ↦
          let rest = counted-redis_serve per (execute (window_key h.key h.at) s).1 calls k in
          let c = incr_other (window_key h.key h.at) k s e in
          rw (incr (window_key h.key h.at) s) (ground (arith, e, rest, c))
    ]

-- `build_limiter`: Redis when it is configured and answers the ping, else the process's own window.
pub data Limiter {ℓ} (Client : Type ℓ) : Type ℓ where
  redis_limiter : ℕ → Client → Limiter Client
  in_process : SlidingWindowLimiter → Limiter Client

unfoldable pub build_limiter {ℓ} : {Client : Type ℓ} → String → Option Client → ℕ → Limiter Client
build_limiter backend connected per_minute =
    if backend == "redis"
    then elim connected [
      | none ↦ in_process (new_limiter per_minute)
      | some client ↦ redis_limiter per_minute client
    ]
    else in_process (new_limiter per_minute)
