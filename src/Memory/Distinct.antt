-- ===== src/Memory/Distinct.antt =====
-- What a read of the memory returns has no row twice, and is not too long.
use aegis_capstone.Common.{
  ℕ, zero, suc, ◌≤◌, String, ◌≡◌, sym, ◌∙◌, inl, inr, true, false, ◌||◌, List, [], ◌∷◌, arith, ◌==◌,
  eq_iff, Bool-cases, length, All, contains, take, eq_refl, length-take-le, All-take,
}
use aegis_capstone.Memory.{Memory, Search, read, unseen, QueryTerms, groups}

-- No two rows have one id, and none has an empty one.
unfoldable pub IsDistinct : {V : Type 0} → List (Memory V) → Type 0
IsDistinct [] = Unit
IsDistinct (m ∷ ms) = ((m.id == "") ≡ false) × All (λ n. (n.id == m.id) ≡ false) ms × IsDistinct ms

module _ {V : Type 0} (x : Search V) where
  unseen-not_in :
      (k : String) (seen : List String) (ms : List (Memory V))
      → contains k seen ≡ true
      → All (λ (n : Memory V). (n.id == k) ≡ false) (unseen x seen ms)
  unfolding unseen
  unseen-not_in k seen [] h = tt
  unseen-not_in k seen (m ∷ ms) h = elim (Bool-cases (m.id == "" || contains m.id seen)) [
    | inl e ↦ rw e (unseen-not_in k seen ms h)
    | inr e ↦ rw e (
      not_same k m.id seen h (ground arith),
      unseen-not_in k (m.id ∷ seen) ms (ground (arith, h)),
    )
  ]
    where
      not_same :
          (k j : String) (seen : List String)
          → contains k seen ≡ true
          → contains j seen ≡ false
          → (j == k) ≡ false
      not_same k j seen h n = elim (Bool-cases (j == k)) [
        | inl e ↦
            let q : j ≡ k = grind (arith, eq_iff j k) in
            let z = rw q at n in let y = sym h ∙ z in cc
        | inr e ↦ e
      ]

  unseen-IsDistinct : (seen : List String) (ms : List (Memory V)) → IsDistinct (unseen x seen ms)
  unfolding unseen IsDistinct
  unseen-IsDistinct seen [] = tt
  unseen-IsDistinct seen (m ∷ ms) = elim (Bool-cases (m.id == "" || contains m.id seen)) [
    | inl e ↦ rw e (unseen-IsDistinct seen ms)
    | inr e ↦ rw e (
      ground arith,
      unseen-not_in m.id (m.id ∷ seen) ms (ground (arith, eq_refl m.id)),
      unseen-IsDistinct (m.id ∷ seen) ms,
    )
  ]

  take-IsDistinct : (n : ℕ) (ms : List (Memory V)) → IsDistinct ms → IsDistinct (take n ms)
  unfolding IsDistinct
  take-IsDistinct zero ms h = tt
  take-IsDistinct (suc n) [] h = tt
  take-IsDistinct (suc n) (m ∷ ms) h =
      (h.0, All-take (λ k. (k.id == m.id) ≡ false) n ms h.1, take-IsDistinct n ms h.2)

  -- A read returns at most `limit` rows, no two of them with one id, though it searches four times.
  pub read-IsDistinct :
      (tenant_id namespace query : String) (terms : QueryTerms) (limit : ℕ) (allowed : List String)
      (table : List (Memory V))
      → (length (read x tenant_id namespace query terms limit allowed table) ≤ limit)
        × IsDistinct (read x tenant_id namespace query terms limit allowed table)
  unfolding read
  read-IsDistinct tenant_id namespace query terms limit allowed table =
      let found = groups x tenant_id namespace query terms limit allowed table in
      (
        length-take-le limit (unseen x [] found),
        take-IsDistinct limit (unseen x [] found) (unseen-IsDistinct [] found),
      )
