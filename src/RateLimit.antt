-- ===== src/RateLimit.antt =====
-- The API's rate limiters, src/aegis_fabric/ratelimit.py: the sliding window of one process and the
-- fixed window that Redis counts for every replica. The clock is a parameter of a call, in whole
-- seconds; `settings.rate_limit_enabled` is another. A deque of hits is a list, oldest first.
pub mod Spec
pub mod Window
pub mod Refines
pub mod Bound
pub mod Redis
mod Examples
use aegis_capstone.Common.{
  ◌<>◌, ℕ, zero, suc, ◌+◌, ◌-◌, ◌≤◌, ◌<◌, String, ◌≡◌, refl, sym, ap, ◌∙◌, ◌≢◌, ◌⊎◌, inl, inr, Bool,
  true, false, ◌&&◌, ◌||◌, not, Option, none, some, List, [], ◌∷◌, ◌++◌, map, arith, ◌==◌, eq_iff,
  ltb, leb, eqb, if◌then◌else◌, Bool-cases, Option-cases, or_else, is_some, length, is_empty, keep,
  any, All, contains,
}
use aegis_capstone.Common.Dict.{Dict, insert, lookup}

-- `SlidingWindowLimiter`: its limit and its deques by key.
pub record SlidingWindowLimiter : Type 0 where
  pub per_minute : ℕ
  pub hits : Dict (List ℕ)

-- `window[0] < cutoff` with `cutoff = now - 60.0`
unfoldable pub is_stale : ℕ → ℕ → Bool
is_stale now t = ltb (t + 60) now

-- `while window and window[0] < cutoff: window.popleft()`
unfoldable pub pop_stale : ℕ → List ℕ → List ℕ
pop_stale now [] = []
pop_stale now (t ∷ window) = if is_stale now t then pop_stale now window else t ∷ window

-- `self._hits[key]` of a defaultdict
unfoldable pub window_of : String → Dict (List ℕ) → List ℕ
window_of key hits = or_else (lookup key hits) []

-- `if len(window) >= self.per_minute: return False`, else the hit is appended.
unfoldable pub admit : ℕ → ℕ → List ℕ → Bool × List ℕ
admit per_minute now window =
    if leb per_minute (length window) then (false, window) else (true, window ++ now ∷ [])

-- The deque is the limiter's own: what was popped stays popped on a refusal too.
unfoldable pub put_window :
    SlidingWindowLimiter → String → Bool × List ℕ → Bool × SlidingWindowLimiter
put_window limiter key (granted, window) =
    (granted, record { per_minute = limiter.per_minute; hits = insert key window limiter.hits })

-- `SlidingWindowLimiter.allow`
unfoldable pub allow : Bool → ℕ → SlidingWindowLimiter → String → Bool × SlidingWindowLimiter
allow enabled now limiter key =
    if enabled
    then put_window limiter key
        (admit limiter.per_minute now (pop_stale now (window_of key limiter.hits)))
    else (true, limiter)

-- `SlidingWindowLimiter(per_minute)`
unfoldable pub new_limiter : ℕ → SlidingWindowLimiter
new_limiter per_minute = record { per_minute = per_minute; hits = [] }

-- One request that the limiter sees: when, and under which key.
pub record Hit : Type 0 where
  pub at : ℕ
  pub key : String

-- The limiter's answers to a sequence of requests, in their order, with rate limiting on.
unfoldable pub serve : SlidingWindowLimiter → List Hit → List (Hit × Bool)
serve limiter [] = []
serve limiter (h ∷ calls) =
    (h, (allow true h.at limiter h.key).0) ∷ serve (allow true h.at limiter h.key).1 calls

-- The requests that were let through.
unfoldable pub granted : List (Hit × Bool) → List Hit
granted [] = []
granted ((h, ok) ∷ answers) = if ok then h ∷ granted answers else granted answers
