-- ===== src/Approvals/Outcome.antt =====
-- What `approve` and `reject` of src/aegis_fabric/approvals.py do on each outcome.
use aegis_capstone.Common.{
  ℕ, ◌≤◌, String, ◌≡◌, ◌≢◌, inl, inr, true, Option, none, some, List, arith, ◌==◌, eq_iff, ltb,
  Bool-cases, false, ◌++◌, ◌∷◌, eqb_refl, refl, ◌⊎◌, ◌<◌, ◌∙◌,
}
use aegis_capstone.Approvals.{
  Action, ok, Setting, approve_row, State, is_pending, finish, update, decide, approved, Error,
  claim, err, load, Bool, Executor, proceed, set_status, Result, after_run, execute, executed, [],
  lookup, executors, approved_by, ap, approve, sym, out_of_time,
}
use aegis_capstone.Approvals.Table.{load-update}

-- What holds of the row when its approval is accepted.
pub record MayApprove {W : Type 0} (g : Setting W) (who : String) (now : ℕ) (row : Action)
    : Type 0 where
  pub is_open : is_pending row.status ≡ true
  pub in_time : now ≤ row.expires_at
  pub two_persons : g.lower who ≢ g.lower row.requester

approve_row-ok :
    {W : Type 0} (g : Setting W) (i : ℕ) (who : String) (now : ℕ) (o : Option Action)
    (t : List Action) (s u : State W) (row : Action)
    → finish (approve_row g i who now o t) s ≡ (ok row, u)
    → (o ≡ some row)
      × MayApprove g who now row
      × (u ≡ record s { table = update i (decide approved who) t })
unfolding approve_row
approve_row-ok g i who now none t s u row h = cc
approve_row-ok g i who now (some r) t s u row h = elim (Bool-cases (is_pending r.status)) [
  | inl e ↦ elim (Bool-cases (ltb r.expires_at now)) [
    | inl l ↦ absurd (grind arith)
    | inr l ↦ elim (Bool-cases (g.lower who == g.lower r.requester)) [
      | inl q ↦ absurd (grind arith)
      | inr q ↦
          let k : (ok r, record s { table = update i (decide approved who) t }) ≡ (ok row, u) =
            rw (e, l, q) at h in
          (
            cc,
            record {
              is_open = cc;
              in_time = grind arith;
              two_persons = λ z. grind (arith, eq_iff (g.lower who) (g.lower r.requester));
            },
            cc,
          )
    ]
  ]
  | inr e ↦ absurd (grind arith)
]

-- An approval's first transaction that returns: it found the row, the row could be approved by this
-- person, and it leaves the row approved.
pub claim-ok :
    {W : Type 0} (g : Setting W) (i : ℕ) (who tf : String) (now : ℕ) (s u : State W) (row : Action)
    → claim g i who tf now s ≡ (ok row, u)
    → (load i tf s.table ≡ some row)
      × MayApprove g who now row
      × (u ≡ record s { table = update i (decide approved who) s.table })
unfolding claim
claim-ok g i who tf now s u row h = approve_row-ok g i who now (load i tf s.table) s.table s u row h

approve_row-err :
    {W : Type 0} (g : Setting W) (i : ℕ) (who : String) (now : ℕ) (o : Option Action)
    (t : List Action) (s u : State W) (e : Error)
    → finish (approve_row g i who now o t) s ≡ (err e, u)
    → u ≡ s
unfolding approve_row
approve_row-err g i who now none t s u e h = cc
approve_row-err g i who now (some r) t s u e h = grind arith

pub claim-err :
    {W : Type 0} (g : Setting W) (i : ℕ) (who tf : String) (now : ℕ) (s u : State W) (e : Error)
    → claim g i who tf now s ≡ (err e, u)
    → u ≡ s
unfolding claim
claim-err g i who tf now s u e h = approve_row-err g i who now (load i tf s.table) s.table s u e h

after_run-ok :
    {W : Type 0} (g : Setting W) (i : ℕ) (r row : Action) (s v : State W) (b : Bool × W)
    → after_run g i r s b ≡ (ok row, v)
    → (r ≡ row) × (v.runs ≡ s.runs ++ i ∷ []) × (v.table ≡ update i (set_status executed) s.table)
after_run-ok g i r row s v (false, w) h = cc
after_run-ok g i r row s v (true, w) h = (cc, cc, cc)

after_run-err :
    {W : Type 0} (g : Setting W) (i : ℕ) (r : Action) (s v : State W) (e : Error) (b : Bool × W)
    → after_run g i r s b ≡ (err e, v)
    → v.table ≡ s.table
after_run-err g i r s v e (false, w) h = cc
after_run-err g i r s v e (true, w) h = cc

execute-ok :
    {W : Type 0} (g : Setting W) (i : ℕ) (r row : Action) (x : Option Executor) (s v : State W)
    → execute g i r x s ≡ (ok row, v)
    → (r ≡ row) × (v.runs ≡ s.runs ++ i ∷ []) × (v.table ≡ update i (set_status executed) s.table)
execute-ok g i r row none s v h = cc
execute-ok g i r row (some x) s v h =
    after_run-ok g i r row s v (g.run x r.tenant_id r.resource s.world) h

execute-err :
    {W : Type 0} (g : Setting W) (i : ℕ) (r : Action) (x : Option Executor) (s v : State W)
    (e : Error)
    → execute g i r x s ≡ (err e, v)
    → v.table ≡ s.table
execute-err g i r none s v e h = cc
execute-err g i r (some x) s v e h =
    after_run-err g i r s v e (g.run x r.tenant_id r.resource s.world) h

-- What an accepted approval leaves: one more run of the executor, and the row executed, with its
-- approver.
pub record Accepted {W : Type 0} (i : ℕ) (who tf : String) (row : Action) (s v : State W)
    : Type 0 where
  pub ran_once : v.runs ≡ s.runs ++ i ∷ []
  pub row_executed :
      load i tf v.table ≡ some (record row { status = executed; approver = some who })

load-decided :
    (i : ℕ) (who tf : String) (row : Action) (t : List Action)
    → load i tf t ≡ some row
    → load i tf (update i (set_status executed) (update i (decide approved who) t))
      ≡ some (record row { status = executed; approver = some who })
load-decided i who tf row t h =
    rw
      (
        load-update i i tf (set_status executed) (update i (decide approved who) t)
            (λ a. (refl, refl)),
        load-update i i tf (decide approved who) t (λ a. (refl, refl)),
        eqb_refl i,
        h,
      )
      refl

proceed-ok :
    {W : Type 0} (g : Setting W) (i : ℕ) (who tf : String) (now : ℕ) (s v : State W) (row : Action)
    (c : Result Action × State W)
    → claim g i who tf now s ≡ c
    → proceed g i c ≡ (ok row, v)
    → (load i tf s.table ≡ some row) × MayApprove g who now row × Accepted i who tf row s v
unfolding proceed
proceed-ok g i who tf now s v row (err e, u) k h = cc
proceed-ok g i who tf now s v row (ok r, u) k h =
    let x =
      execute-ok g i r row (lookup r.action executors)
        (record u { audit = u.audit ++ approved_by i ∷ [] }) v h in
    let c = claim-ok g i who tf now s u row (rw x.0 at k) in
    (
      c.0,
      c.1,
      record {
        ran_once = cc;
        row_executed = rw (x.2, ap (λ w. w.table) c.2, load-decided i who tf row s.table c.0) refl;
      },
    )

-- When `approve` returns, it had found the row under the tenant filter; the row was pending and in
-- time; the approver differs from the requester when both are in lower case (the two-person rule);
-- the executor ran exactly once more; and the row is left executed, under its approver's name.
pub approve-Accepted :
    {W : Type 0} (g : Setting W) (i : ℕ) (who tf : String) (now : ℕ) (s v : State W) (row : Action)
    → approve g i who tf now s ≡ (ok row, v)
    → (load i tf s.table ≡ some row) × MayApprove g who now row × Accepted i who tf row s v
unfolding approve
approve-Accepted g i who tf now s v row h =
    proceed-ok g i who tf now s v row (claim g i who tf now s) refl h

proceed-err :
    {W : Type 0} (g : Setting W) (i : ℕ) (who tf : String) (now : ℕ) (s v : State W) (e : Error)
    (c : Result Action × State W)
    → claim g i who tf now s ≡ c
    → proceed g i c ≡ (err e, v)
    → (v ≡ s)
      ⊎ ((row : Action) × (load i tf s.table ≡ some row)
          × MayApprove g who now row
          × (v.table ≡ update i (decide approved who) s.table))
unfolding proceed
proceed-err g i who tf now s v e (err f, u) k h =
    inl (sym (ap (λ p. p.1) h) ∙ claim-err g i who tf now s u f k)
proceed-err g i who tf now s v e (ok r, u) k h =
    let c = claim-ok g i who tf now s u r k in
    inr (
      r,
      c.0,
      c.1,
      execute-err g i r (lookup r.action executors)
            (record u { audit = u.audit ++ approved_by i ∷ [] }) v e h
          ∙ ap (λ w. w.table) c.2,
    )

-- When `approve` raises, either nothing at all has changed, or the approval itself was sound (the row
-- was found, pending, in time, and the approver is another person) and the table keeps the row
-- approved.
pub approve-refused :
    {W : Type 0} (g : Setting W) (i : ℕ) (who tf : String) (now : ℕ) (s v : State W) (e : Error)
    → approve g i who tf now s ≡ (err e, v)
    → (v ≡ s)
      ⊎ ((row : Action) × (load i tf s.table ≡ some row)
          × MayApprove g who now row
          × (v.table ≡ update i (decide approved who) s.table))
unfolding approve
approve-refused g i who tf now s v e h =
    proceed-err g i who tf now s v e (claim g i who tf now s) refl h

-- On a row whose time has run out, `approve` raises and its transaction is rolled back: the state is
-- as before, so that the row is never recorded as expired and stays pending.
pub approve_out_of_time :
    {W : Type 0} (g : Setting W) (i : ℕ) (who tf : String) (now : ℕ) (s : State W) (row : Action)
    → load i tf s.table ≡ some row
    → is_pending row.status ≡ true
    → row.expires_at < now
    → approve g i who tf now s ≡ (err out_of_time, s)
unfolding approve claim approve_row proceed
approve_out_of_time g i who tf now s row h p l = ground (arith, h)
