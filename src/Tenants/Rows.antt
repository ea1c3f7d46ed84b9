-- ===== src/Tenants/Rows.antt =====
-- Rows that an operation on other rows leaves alone.
use aegis_capstone.Common.{
  ◌≡◌, refl, ap, ◌∙◌, inl, inr, Bool, true, false, not, List, [], ◌∷◌, ◌++◌, Bool-cases, keep, All,
  update_where,
}

module _ {ℓ} {A : Type ℓ} (p : A → Bool) where
  pub keep-append_other : (xs : List A) (y : A) → p y ≡ false → keep p (xs ++ y ∷ []) ≡ keep p xs
  keep-append_other [] y h = rw h refl
  keep-append_other (x ∷ xs) y h = elim (Bool-cases (p x)) [
    | inl e ↦ rw e (ap (λ l. x ∷ l) (keep-append_other xs y h))
    | inr e ↦ rw e (keep-append_other xs y h)
  ]

  pub keep-keep_other :
      (q : A → Bool)
      → ((x : A) → q x ≡ true → p x ≡ false)
      → (xs : List A) → keep p (keep (λ x. not (q x)) xs) ≡ keep p xs
  keep-keep_other q k [] = refl
  keep-keep_other q k (x ∷ xs) = elim (Bool-cases (q x)) [
    | inl e ↦ let h = k x e in rw (e, h) (keep-keep_other q k xs)
    | inr e ↦ elim (Bool-cases (p x)) [
      | inl h ↦ rw (e, h) (ap (λ l. x ∷ l) (keep-keep_other q k xs))
      | inr h ↦ rw (e, h) (keep-keep_other q k xs)
    ]
  ]

  pub keep-update_other :
      (q : A → Bool) (f : A → A)
      → ((x : A) → p (f x) ≡ false)
      → (xs : List A) → All (λ x. q x ≡ true → p x ≡ false) xs
      → keep p (update_where q f xs) ≡ keep p xs
  keep-update_other q f m [] k = refl
  keep-update_other q f m (x ∷ xs) k = elim (Bool-cases (q x)) [
    | inl e ↦ let h = k.0 e in let g = m x in rw (e, h, g) (keep-update_other q f m xs k.1)
    | inr e ↦ elim (Bool-cases (p x)) [
      | inl h ↦ rw (e, h) (ap (λ l. x ∷ l) (keep-update_other q f m xs k.1))
      | inr h ↦ rw (e, h) (keep-update_other q f m xs k.1)
    ]
  ]

  -- Rows that an update leaves in their tenant, each one.
  pub keep-update_kept :
      (q : A → Bool) (f : A → A)
      → ((x : A) → q x ≡ true → p x ≡ false)
      → ((x : A) → p (f x) ≡ p x)
      → (xs : List A) → keep p (update_where q f xs) ≡ keep p xs
  keep-update_kept q f k m [] = refl
  keep-update_kept q f k m (x ∷ xs) = elim (Bool-cases (q x)) [
    | inl e ↦
        let h = k x e in
        let g : p (f x) ≡ false = m x ∙ h in rw (e, h, g) (keep-update_kept q f k m xs)
    | inr e ↦ elim (Bool-cases (p x)) [
      | inl h ↦ rw (e, h) (ap (λ l. x ∷ l) (keep-update_kept q f k m xs))
      | inr h ↦ rw (e, h) (keep-update_kept q f k m xs)
    ]
  ]
