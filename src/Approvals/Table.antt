-- ===== src/Approvals/Table.antt =====
-- Loads and updates of the table of src/aegis_fabric/approvals.py.
use aegis_capstone.Common.{
  ℕ, String, ◌≡◌, ◌≢◌, inl, inr, ◌&&◌, ◌||◌, some, List, [], ◌∷◌, arith, ◌==◌, eq_iff, eqb,
  if◌then◌else◌, Bool-cases,
}
use aegis_capstone.Approvals.{Action, load, update}
use mathlib.Core.Option

pub load-id :
    (i : ℕ) (tf : String) (t : List Action) (a : Action)
    → load i tf t ≡ some a
    → (a.id ≡ i) × (tf ≢ "" → a.tenant_id ≡ tf)
unfolding load
load-id i tf [] a h = cc
load-id i tf (b ∷ t) a h = elim (Bool-cases (eqb b.id i && (tf == "" || b.tenant_id == tf))) [
  | inl e ↦ (ground arith, λ ne. ground (arith, eq_iff tf "", eq_iff b.tenant_id tf))
  | inr e ↦ load-id i tf t a (rw e at h)
]

-- A row is found again after an update that keeps ids and tenants.
pub load-update :
    (i j : ℕ) (tf : String) (f : Action → Action) (t : List Action)
    → ((a : Action) → ((f a).id ≡ a.id) × ((f a).tenant_id ≡ a.tenant_id))
    → load j tf (update i f t) ≡ (if eqb i j then Option.map f (load j tf t) else load j tf t)
unfolding load update
load-update i j tf f [] k = ground arith
load-update i j tf f (a ∷ t) k = ground (arith, load-update i j tf f t k, k a)
