-- ===== src/Approvals/Race.antt =====
-- Two approvals of src/aegis_fabric/approvals.py that both load the row before either updates it: the
-- `SELECT` takes no lock, and the `UPDATE` does not test the status again.
use aegis_capstone.Common.{
  ℕ, String, ◌≡◌, some, List, arith, eq_iff, ◌++◌, ◌∷◌, false, ◌∙◌, refl, true,
}
use aegis_capstone.Approvals.{
  Setting, approve_row, Action, State, Result, finish, proceed, load, ok, claim, update, decide,
  approved, Bool, Executor, after_run, lookup, executors, [], approved_by, ap,
}
use aegis_capstone.Approvals.Outcome.{MayApprove}

module _ {W : Type 0} (g : Setting W) where
  -- Session a loads; session b loads; a commits; b commits; a goes on; b goes on.
  abbrev pub both_claim : ℕ → String → String → String → ℕ → State W → Result Action × State W
  both_claim i a b tf now s =
      finish (approve_row g i b now (load i tf s.table) (claim g i a tf now s).1.table)
        (claim g i a tf now s).1

  abbrev pub overlap : ℕ → String → String → String → ℕ → Action → State W → Result Action × State W
  overlap i a b tf now row s =
      proceed g i (ok row, (proceed g i (ok row, (both_claim i a b tf now s).1)).1)

claim_accepts :
    {W : Type 0} (g : Setting W) (i : ℕ) (who tf : String) (now : ℕ) (row : Action)
    (t : List Action) (s : State W)
    → MayApprove g who now row
    → finish (approve_row g i who now (some row) t) s
      ≡ (ok row, record s { table = update i (decide approved who) t })
unfolding approve_row
claim_accepts g i who tf now row t s m =
    let p = m.is_open in
    let l = m.in_time in
    let n = m.two_persons in ground (arith, eq_iff (g.lower who) (g.lower row.requester))

after_run-runs :
    {W : Type 0} (g : Setting W) (i : ℕ) (row : Action) (u : State W) (b : Bool × W)
    → (after_run g i row u b).1.runs ≡ u.runs ++ i ∷ []
after_run-runs g i row u (false, w) = refl
after_run-runs g i row u (true, w) = refl

proceed-runs :
    {W : Type 0} (g : Setting W) (i : ℕ) (row : Action) (x : Executor) (u : State W)
    → lookup row.action executors ≡ some x
    → (proceed g i (ok row, u)).1.runs ≡ u.runs ++ i ∷ []
unfolding proceed
proceed-runs g i row x u h = rw h (
    after_run-runs g i row (record u { audit = u.audit ++ approved_by i ∷ [] })
      (g.run x row.tenant_id row.resource u.world))

-- When two people other than the requester approve the same pending action in time, and both sessions
-- load the row before either updates it, both first transactions succeed and the executor runs twice.
pub overlap-runs_twice :
    {W : Type 0} (g : Setting W) (i : ℕ) (a b tf : String) (now : ℕ) (row : Action) (x : Executor)
    (s : State W)
    → load i tf s.table ≡ some row
    → MayApprove g a now row
    → MayApprove g b now row
    → lookup row.action executors ≡ some x
    → ((claim g i a tf now s).0 ≡ ok row)
      × ((both_claim g i a b tf now s).0 ≡ ok row)
      × ((overlap g i a b tf now row s).1.runs ≡ (s.runs ++ i ∷ []) ++ i ∷ [])
unfolding claim
overlap-runs_twice g i a b tf now row x s h m n e =
    let p = claim_accepts g i a tf now row s.table s m in
    let u = record s { table = update i (decide approved a) s.table } in
    let q = claim_accepts g i b tf now row u.table u n in
    let v = record u { table = update i (decide approved b) u.table } in
    rw (h, p, q)
      (
        refl,
        refl,
        proceed-runs g i row x (proceed g i (ok row, v)).1 e
            ∙ ap (λ r. r ++ i ∷ []) (proceed-runs g i row x v e),
      )
