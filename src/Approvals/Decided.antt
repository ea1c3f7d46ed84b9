-- ===== src/Approvals/Decided.antt =====
-- Rows of src/aegis_fabric/approvals.py that no longer wait for a decision, and updates that decide.
use aegis_capstone.Common.{
  ℕ, String, ◌≡◌, refl, inl, inr, false, ◌&&◌, ◌||◌, some, List, [], ◌∷◌, arith, ◌==◌, eqb,
  Bool-cases, All,
}
use aegis_capstone.Approvals.{Action, Status, load, is_pending, update, decide, set_status}

abbrev pub IsDecided : ℕ → List Action → Type 0
IsDecided i t = All (λ a. a.id ≡ i → is_pending a.status ≡ false) t

-- An update that leaves a row decided, whatever it was, and keeps its id.
unfoldable pub Decides : (Action → Action) → Type 0
Decides f = (a : Action) → ((f a).id ≡ a.id) × (is_pending (f a).status ≡ false)

pub IsDecided-updated :
    (i : ℕ) (f : Action → Action) (t : List Action) → Decides f → IsDecided i (update i f t)
unfolding update Decides
IsDecided-updated i f [] k = tt
IsDecided-updated i f (a ∷ t) k = elim (Bool-cases (eqb a.id i)) [
  | inl e ↦ rw e (λ q. (k a).1, IsDecided-updated i f t k)
  | inr e ↦ rw e (λ q. absurd (ground arith), IsDecided-updated i f t k)
]

pub IsDecided-update :
    (i j : ℕ) (f : Action → Action) (t : List Action)
    → Decides f
    → IsDecided j t
    → IsDecided j (update i f t)
unfolding update Decides
IsDecided-update i j f [] k h = tt
IsDecided-update i j f (a ∷ t) k h = elim (Bool-cases (eqb a.id i)) [
  | inl e ↦ rw e (λ q. (k a).1, IsDecided-update i j f t k h.1)
  | inr e ↦ rw e (h.0, IsDecided-update i j f t k h.1)
]

pub load-IsDecided :
    (i : ℕ) (tf : String) (t : List Action) (row : Action)
    → load i tf t ≡ some row
    → IsDecided i t
    → is_pending row.status ≡ false
unfolding load
load-IsDecided i tf [] row h d = cc
load-IsDecided i tf (a ∷ t) row h d =
    elim (Bool-cases (eqb a.id i && (tf == "" || a.tenant_id == tf))) [
      | inl e ↦ let q : some a ≡ some row = rw e at h in let z = d.0 (ground arith) in cc
      | inr e ↦ load-IsDecided i tf t row (rw e at h) d.1
    ]

pub Decides-set_status : (x : Status) → is_pending x ≡ false → Decides (set_status x)
unfolding Decides
Decides-set_status x h a = (refl, h)

pub Decides-decide : (x : Status) (who : String) → is_pending x ≡ false → Decides (decide x who)
unfolding Decides
Decides-decide x who h a = (refl, h)
