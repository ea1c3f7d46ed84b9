-- ===== src/Approvals/Ran.antt =====
-- What the runs of the executors of src/aegis_fabric/approvals.py have in common with the table.
use aegis_capstone.Common.{
  ℕ, ◌+◌, ◌≤◌, ◌<◌, String, ◌≡◌, refl, inl, inr, true, some, List, [], ◌∷◌, ◌++◌, arith, eqb,
  if◌then◌else◌, Bool-cases, le_or_lt,
}
use aegis_capstone.Approvals.{Action, load, update, State, is_pending}
use aegis_capstone.Approvals.Decided.{Decides, IsDecided, IsDecided-update, load-IsDecided}

-- How often `i` occurs.
unfoldable pub count : ℕ → List ℕ → ℕ
count i [] = 0
count i (j ∷ js) = (if eqb j i then 1 else 0) + count i js

-- What the calls keep: an action that has run is decided, and has run once.
pub record Good {W : Type 0} (s : State W) : Type 0 where
  pub at_most_once : (i : ℕ) → count i s.runs ≤ 1
  pub run_decided : (i : ℕ) → 1 ≤ count i s.runs → IsDecided i s.table
  pub run_known : (i : ℕ) → s.next_id ≤ i → count i s.runs ≡ 0
  pub row_known : (i : ℕ) → s.next_id ≤ i → IsDecided i s.table

pub count-snoc :
    (i j : ℕ) (js : List ℕ) → count i (js ++ j ∷ []) ≡ count i js + (if eqb j i then 1 else 0)
unfolding count
count-snoc i j [] = omega arith
count-snoc i j (k ∷ js) = omega (arith, count-snoc i j js)

pub Good-empty : {W : Type 0} (s : State W) → s.runs ≡ [] → s.table ≡ [] → Good s
unfolding count
Good-empty s h t = record {
  at_most_once = λ i. rw h (omega arith);
  run_decided = λ i c. absurd (let k : 1 ≤ count i [] = rw h at c in omega arith);
  run_known = λ i l. rw h refl;
  row_known = λ i l. rw t tt;
}

-- Deciding rows without a run.
pub Good-update :
    {W : Type 0} (i : ℕ) (f : Action → Action) (s u : State W)
    → Decides f
    → Good s
    → u.next_id ≡ s.next_id
    → u.runs ≡ s.runs
    → u.table ≡ update i f s.table
    → Good u
Good-update i f s u k g n r t = record {
  at_most_once = λ j. rw r (g.at_most_once j);
  run_decided = λ j c. rw t (IsDecided-update i j f s.table k (g.run_decided j (rw r at c)));
  run_known = λ j l. rw r (g.run_known j (rw n at l));
  row_known = λ j l. rw t (IsDecided-update i j f s.table k (g.row_known j (rw n at l)));
}

-- A run of an action that is decided and has not run.
pub Good-run :
    {W : Type 0} (i : ℕ) (s u : State W)
    → Good s
    → count i s.runs ≡ 0
    → IsDecided i s.table
    → i < s.next_id
    → u.next_id ≡ s.next_id
    → u.runs ≡ s.runs ++ i ∷ []
    → u.table ≡ s.table
    → Good u
Good-run i s u g z d l n r t = record {
  at_most_once = λ j. rw (r, count-snoc j i s.runs) (let a = g.at_most_once j in ground arith);
  run_decided = λ j c. rw t (elim (Bool-cases (eqb i j)) [
    | inl e ↦ let q : i ≡ j = ground arith in rw q at d
    | inr e ↦ g.run_decided j (let y = rw (r, count-snoc j i s.runs) at c in ground arith)
  ]);
  run_known =
      λ j m. rw (r, count-snoc j i s.runs) (let a = g.run_known j (rw n at m) in ground arith);
  row_known = λ j m. rw t (g.row_known j (rw n at m));
}

pub pending-known :
    {W : Type 0} (i : ℕ) (tf : String) (s : State W) (row : Action)
    → Good s
    → load i tf s.table ≡ some row
    → is_pending row.status ≡ true
    → (count i s.runs ≡ 0) × (i < s.next_id)
pending-known i tf s row g h p = (
  elim (le_or_lt 1 (count i s.runs)) [
    | inl l ↦ let q = load-IsDecided i tf s.table row h (g.run_decided i l) in cc
    | inr l ↦ omega arith
  ],
  elim (le_or_lt s.next_id i) [
    | inl l ↦ let q = load-IsDecided i tf s.table row h (g.row_known i l) in cc
    | inr l ↦ l
  ],
)
