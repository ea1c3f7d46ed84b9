-- ===== src/RateLimit/Bound.antt =====
-- How much the sliding window lets through: in no minute more than the limit, wherever it starts.
use aegis_capstone.Common.{
  ℕ, ◌+◌, ◌≤◌, String, ◌≡◌, inl, inr, true, ◌&&◌, List, [], ◌∷◌, ◌++◌, arith, ◌==◌, eq_iff, ltb,
  leb, if◌then◌else◌, Bool-cases, length, le_or_lt,
}
use aegis_capstone.RateLimit.{Hit, granted, is_stale, serve, new_limiter}
use aegis_capstone.RateLimit.Refines.{serve-refines_log}
use aegis_capstone.RateLimit.Spec.{recent, times, Ascends, passes, serve_log, logged}
use aegis_capstone.RateLimit.Window.{times-append_same, times-append_other}
use mathlib.Core.List.{append_assoc, append-nil}

-- How many of the times fall in the sixty seconds from `t` on.
unfoldable pub within_minute : ℕ → List ℕ → ℕ
within_minute t [] = 0
within_minute t (u ∷ us) = (if leb t u && leb u (t + 60) then 1 else 0) + within_minute t us

within_minute-append :
    (t : ℕ) (us vs : List ℕ) → within_minute t (us ++ vs) ≡ within_minute t us + within_minute t vs
unfolding within_minute
within_minute-append t [] vs = omega arith
within_minute-append t (u ∷ us) vs = grind (arith, within_minute-append t us vs)

-- What falls in a minute that has not ended yet is recent.
within_minute-le_recent :
    (t now : ℕ) (us : List ℕ) → now ≤ t + 60 → within_minute t us ≤ length (recent now us)
unfolding within_minute recent is_stale
within_minute-le_recent t now [] le = omega arith
within_minute-le_recent t now (u ∷ us) le = ground (arith, within_minute-le_recent t now us le)

-- No key has more than the limit in any minute.
Spaced : ℕ → List Hit → Type 0
Spaced per log = (key : String) (t : ℕ) → within_minute t (times key log) ≤ per

within_minute-hit :
    (per t now : ℕ) (ts : List ℕ)
    → within_minute t ts ≤ per
    → ltb (length (recent now ts)) per ≡ true
    → within_minute t (ts ++ now ∷ []) ≤ per
unfolding within_minute
within_minute-hit per t now ts h room =
    rw (within_minute-append t ts (now ∷ [])) (elim (le_or_lt now (t + 60)) [
      | inl le ↦ ground (arith, within_minute-le_recent t now ts le)
      | inr lt ↦ ground arith
    ])

Spaced-logged :
    (per : ℕ) (log : List Hit) (h : Hit)
    → Spaced per log
    → passes per log h ≡ true
    → Spaced per (log ++ h ∷ [])
unfolding Spaced passes
Spaced-logged per log h s room key t = elim (Bool-cases (h.key == key)) [
  | inl e ↦
      let q : h.key ≡ key = grind (arith, eq_iff h.key key) in
      rw (← q, times-append_same log h)
        (within_minute-hit per t h.at (times h.key log) (s h.key t) room)
  | inr e ↦ rw (times-append_other key log h e) (s key t)
]

Spaced-granted :
    (per : ℕ) (log calls : List Hit)
    → Spaced per log
    → Spaced per (log ++ granted (serve_log per log calls))
unfolding granted serve_log logged
Spaced-granted per log [] s = rw (append-nil log) s
Spaced-granted per log (h ∷ calls) s = elim (Bool-cases (passes per log h)) [
  | inl e ↦
      let rest = Spaced-granted per (log ++ h ∷ []) calls (Spaced-logged per log h s e) in
      rw e (rw (append_assoc log (h ∷ [])) at rest)
  | inr e ↦ rw e (Spaced-granted per log calls s)
]

-- With rate limiting on, for requests that come in the order of a monotonic clock, a new sliding window
-- limiter of one process grants at most `per_minute` requests of a key in any sixty seconds, whenever those start.
pub granted-le_per_minute :
    (per_minute : ℕ) (calls : List Hit)
    → Ascends 0 calls
    → (key : String) (t : ℕ)
    → within_minute t (times key (granted (serve (new_limiter per_minute) calls))) ≤ per_minute
unfolding Spaced within_minute times
granted-le_per_minute per_minute calls up key t =
    rw (serve-refines_log per_minute calls up)
      (Spaced-granted per_minute [] calls (λ key t. omega arith) key t)
