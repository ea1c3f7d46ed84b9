-- ===== src/RateLimit/Window.antt =====
-- The deque of one key beside the full list of the key's granted times: which of them a pop or an
-- append leaves to be counted.
use aegis_capstone.Common.{
  ℕ, ◌+◌, ◌≤◌, String, ◌≡◌, refl, inl, inr, false, List, [], ◌∷◌, ◌++◌, arith, ◌==◌, All,
  All-append, eq_refl, le_or_lt,
}
use aegis_capstone.RateLimit.{Hit, is_stale, pop_stale}
use aegis_capstone.RateLimit.Spec.{recent, times}

-- Every hit of the list is at least as late as `t`.
abbrev pub From : ℕ → List ℕ → Type 0
From t ts = All (λ u. t ≤ u) ts

unfoldable pub Sorted : List ℕ → Type 0
Sorted [] = Unit
Sorted (t ∷ ts) = From t ts × Sorted ts

From-mono : (s t : ℕ) (ts : List ℕ) → s ≤ t → From t ts → From s ts
From-mono s t [] le h = tt
From-mono s t (u ∷ ts) le h = (omega arith, From-mono s t ts le h.1)

-- Nothing is stale in a list that starts with a fresh hit.
recent-From : (now t : ℕ) (ts : List ℕ) → now ≤ t + 60 → From t ts → recent now ts ≡ ts
unfolding recent is_stale
recent-From now t [] le h = refl
recent-From now t (u ∷ ts) le h = grind (arith, recent-From now t ts le h.1)

-- Popping at a later time what an earlier look kept is looking at the later time.
pub pop_stale-recent :
    (last now : ℕ) (ts : List ℕ)
    → last ≤ now
    → Sorted ts
    → pop_stale now (recent last ts) ≡ recent now ts
unfolding recent pop_stale is_stale Sorted
pop_stale-recent last now [] le s = refl
pop_stale-recent last now (t ∷ ts) le s = elim (le_or_lt now (t + 60)) [
  | inl f ↦
      let a : recent last ts ≡ ts = recent-From last t ts (omega arith) s.0 in
      let b : recent now ts ≡ ts = recent-From now t ts f s.0 in grind (arith, a, b)
  | inr f ↦ grind (arith, pop_stale-recent last now ts le s.1)
]

pub recent-append :
    (now : ℕ) (ts : List ℕ) → recent now (ts ++ now ∷ []) ≡ recent now ts ++ now ∷ []
unfolding recent is_stale
recent-append now [] = grind arith
recent-append now (t ∷ ts) = grind (arith, recent-append now ts)

-- Every hit of the list is at most as late as `t`.
abbrev pub Until : ℕ → List ℕ → Type 0
Until t ts = All (λ u. u ≤ t) ts

pub Sorted-append : (t : ℕ) (ts : List ℕ) → Sorted ts → Until t ts → Sorted (ts ++ t ∷ [])
unfolding Sorted
Sorted-append t [] s h = (tt, tt)
Sorted-append t (u ∷ ts) s h =
    (All-append (λ v. u ≤ v) ts (t ∷ []) s.0 (h.0, tt), Sorted-append t ts s.1 h.1)

pub Until-mono : (s t : ℕ) (ts : List ℕ) → s ≤ t → Until s ts → Until t ts
Until-mono s t [] le h = tt
Until-mono s t (u ∷ ts) le h = (omega arith, Until-mono s t ts le h.1)

pub times-append_same :
    (log : List Hit) (h : Hit) → times h.key (log ++ h ∷ []) ≡ times h.key log ++ h.at ∷ []
unfolding times
times-append_same [] h = grind (arith, eq_refl h.key)
times-append_same (g ∷ log) h = grind (arith, times-append_same log h)

pub times-append_other :
    (k : String) (log : List Hit) (h : Hit)
    → (h.key == k) ≡ false
    → times k (log ++ h ∷ []) ≡ times k log
unfolding times
times-append_other k [] h e = rw e
times-append_other k (g ∷ log) h e = grind (arith, times-append_other k log h e)

-- What a deque last used at `last` has to do with all granted times of its key: they are sorted and
-- past, and from now on they count as the deque does.
unfoldable pub View : ℕ → List ℕ → List ℕ → Type 0
View last window ts =
    Sorted ts × Until last ts × ((now : ℕ) → last ≤ now → pop_stale now window ≡ recent now ts)

pub View-wait : (last now : ℕ) (w ts : List ℕ) → last ≤ now → View last w ts → View now w ts
unfolding View
View-wait last now w ts le (s, u, v) =
    (s, Until-mono last now ts le u, λ later h. v later (omega arith))

pub View-pop :
    (last now : ℕ) (w ts : List ℕ) → last ≤ now → View last w ts → View now (recent now ts) ts
unfolding View
View-pop last now w ts le (s, u, v) =
    (s, Until-mono last now ts le u, λ later h. pop_stale-recent now later ts h s)

pub View-hit :
    (last now : ℕ) (w ts : List ℕ)
    → last ≤ now
    → View last w ts
    → View now (recent now ts ++ now ∷ []) (ts ++ now ∷ [])
unfolding View
View-hit last now w ts le (s, u, v) =
    let s' : Sorted (ts ++ now ∷ []) = Sorted-append now ts s (Until-mono last now ts le u) in
    (
      s',
      All-append (λ v. v ≤ now) ts (now ∷ []) (Until-mono last now ts le u) (omega arith, tt),
      λ later h. rw (← recent-append now ts) (pop_stale-recent now later (ts ++ now ∷ []) h s'),
    )
