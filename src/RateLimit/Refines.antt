-- ===== src/RateLimit/Refines.antt =====
-- The sliding window does what the log does: its deques hold enough of the log to count the recent
-- requests of a key, so that popping stale hits from the front loses nothing.
use aegis_capstone.Common.{
  ℕ, ◌≤◌, String, ◌≡◌, refl, ap, inl, inr, true, false, List, [], ◌∷◌, ◌++◌, arith, ◌==◌, eq_iff,
  ltb, leb, Bool-cases, length, eq_refl, le_or_lt,
}
use aegis_capstone.Common.Dict.{Dict, insert, lookup-insert}
use aegis_capstone.RateLimit.{
  admit, new_limiter, serve, window_of, Hit, allow, put_window, SlidingWindowLimiter, pop_stale,
}
use aegis_capstone.RateLimit.Spec.{serve_log, passes, logged, Ascends, recent, times}
use aegis_capstone.RateLimit.Window.{
  View-pop, View, times-append_same, Sorted, View-hit, View-wait, times-append_other,
}

-- Every key's deque and its times in the log agree.
Holds : ℕ → Dict (List ℕ) → List Hit → Type 0
Holds last hits log = (k : String) → View last (window_of k hits) (times k log)

window_of-insert_same :
    (k : String) (w : List ℕ) (hits : Dict (List ℕ)) → window_of k (insert k w hits) ≡ w
unfolding window_of
window_of-insert_same k w hits = rw (lookup-insert k k w hits, eq_refl k) refl

window_of-insert_other :
    (k j : String) (w : List ℕ) (hits : Dict (List ℕ))
    → (k == j) ≡ false
    → window_of j (insert k w hits) ≡ window_of j hits
unfolding window_of
window_of-insert_other k j w hits e = rw (lookup-insert k j w hits, e) refl

-- A deque is put back under its key: the other keys only see time pass.
Holds-insert :
    (last : ℕ) (hits : Dict (List ℕ)) (log log' : List Hit) (h : Hit) (w : List ℕ)
    → last ≤ h.at
    → Holds last hits log
    → View h.at w (times h.key log')
    → ((k : String) → (h.key == k) ≡ false → times k log' ≡ times k log)
    → Holds h.at (insert h.key w hits) log'
unfolding Holds
Holds-insert last hits log log' h w le holds view others k = elim (Bool-cases (h.key == k)) [
  | inl e ↦
      let q : h.key ≡ k = grind (arith, eq_iff h.key k) in
      rw (← q, window_of-insert_same h.key w hits) view
  | inr e ↦
      rw (window_of-insert_other h.key k w hits e, others k e)
        (View-wait last h.at (window_of k hits) (times k log) le (holds k))
]

Holds-admit :
    (last per : ℕ) (hits : Dict (List ℕ)) (log : List Hit) (h : Hit)
    → last ≤ h.at
    → Holds last hits log
    → (admit per h.at (recent h.at (times h.key log))).0 ≡ passes per log h
      × Holds h.at
          (insert h.key (admit per h.at (recent h.at (times h.key log))).1 hits)
          (logged (passes per log h) log h)
unfolding Holds admit passes logged
Holds-admit last per hits log h le holds =
    elim (le_or_lt per (length (recent h.at (times h.key log)))) [
      | inl full ↦
          let e : leb per (length (recent h.at (times h.key log))) ≡ true = ground arith in
          let f : ltb (length (recent h.at (times h.key log))) per ≡ false = ground arith in
          rw (e, f)
            (
              refl,
              Holds-insert last hits log log h _ le holds
                  (View-pop last h.at (window_of h.key hits) (times h.key log) le (holds h.key))
                  (λ k other. refl),
            )
      | inr room ↦
          let e : leb per (length (recent h.at (times h.key log))) ≡ false = ground arith in
          let f : ltb (length (recent h.at (times h.key log))) per ≡ true = ground arith in
          rw (e, f)
            (
              refl,
              Holds-insert last hits log (log ++ h ∷ []) h _ le holds
                  (rw (times-append_same log h)
                    (View-hit last h.at (window_of h.key hits) (times h.key log) le (holds h.key)))
                  (λ k other. times-append_other k log h other),
            )
    ]

serve-Holds :
    (last : ℕ) (limiter : SlidingWindowLimiter) (log : List Hit) (calls : List Hit)
    → Ascends last calls
    → Holds last limiter.hits log
    → serve limiter calls ≡ serve_log limiter.per_minute log calls
unfolding serve serve_log allow put_window Ascends Holds View
serve-Holds last limiter log [] up holds = refl
serve-Holds last limiter log (h ∷ calls) up holds =
    let popped : pop_stale h.at (window_of h.key limiter.hits) ≡ recent h.at (times h.key log) =
      (holds h.key).2 h.at up.0 in
    let q = Holds-admit last limiter.per_minute limiter.hits log h up.0 holds in
    rw (popped, q.0)
      (ap (λ rest. (h, passes limiter.per_minute log h) ∷ rest)
        (serve-Holds h.at _ _ calls up.1 q.1))

-- With rate limiting on, for requests that come in the order of a monotonic clock, a new sliding window
-- limiter of one process gives each the answer that the log of granted requests gives: yes exactly when fewer than `per_minute`
-- requests with the same key were granted in the sixty seconds before it.
pub serve-refines_log :
    (per_minute : ℕ) (calls : List Hit)
    → Ascends 0 calls
    → serve (new_limiter per_minute) calls ≡ serve_log per_minute [] calls
unfolding new_limiter Holds View window_of times recent pop_stale Sorted
serve-refines_log per_minute calls up =
    serve-Holds 0 (new_limiter per_minute) [] calls up (λ k. (tt, tt, λ now le. refl))
