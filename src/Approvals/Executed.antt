-- ===== src/Approvals/Executed.antt =====
-- What an accepted approval of src/aegis_fabric/approvals.py does to the world.
use aegis_capstone.Common.{
  ℕ, String, ◌≡◌, refl, sym, ap, ◌∙◌, Bool, true, false, Option, none, some, [], ◌∷◌, ◌++◌,
}
use aegis_capstone.Approvals.{
  approve, claim, proceed, execute, after_run, Action, State, Setting, Executor, Result, ok, err,
  executors, approved_by, lookup,
}
use aegis_capstone.Approvals.Outcome.{claim-ok}

after_run-world :
    {W : Type 0} (g : Setting W) (i : ℕ) (r row : Action) (s v : State W) (b : Bool × W)
    → after_run g i r s b ≡ (ok row, v)
    → (r ≡ row) × (b ≡ (true, v.world))
after_run-world g i r row s v (false, w) h = cc
after_run-world g i r row s v (true, w) h = (cc, cc)

execute-row :
    {W : Type 0} (g : Setting W) (i : ℕ) (r row : Action) (o : Option Executor) (s v : State W)
    → execute g i r o s ≡ (ok row, v)
    → r ≡ row
execute-row g i r row none s v h = cc
execute-row g i r row (some y) s v h =
    (after_run-world g i r row s v (g.run y r.tenant_id r.resource s.world) h).0

execute-world :
    {W : Type 0} (g : Setting W) (i : ℕ) (r row : Action) (o : Option Executor) (x : Executor)
    (s v : State W)
    → o ≡ some x
    → execute g i r o s ≡ (ok row, v)
    → g.run x r.tenant_id r.resource s.world ≡ (true, v.world)
execute-world g i r row none x s v e h = cc
execute-world g i r row (some y) x s v e h =
    let q : y ≡ x = cc in
    ap (λ z. g.run z r.tenant_id r.resource s.world) (sym q)
    ∙ (after_run-world g i r row s v (g.run y r.tenant_id r.resource s.world) h).1

proceed-world :
    {W : Type 0} (g : Setting W) (i : ℕ) (who tf : String) (now : ℕ) (s v : State W) (row : Action)
    (x : Executor) (c : Result Action × State W)
    → lookup row.action executors ≡ some x
    → claim g i who tf now s ≡ c
    → proceed g i c ≡ (ok row, v)
    → g.run x row.tenant_id row.resource s.world ≡ (true, v.world)
unfolding proceed
proceed-world g i who tf now s v row x (err e, u) l k h = cc
proceed-world g i who tf now s v row x (ok r, u) l k h =
    let u2 = record u { audit = u.audit ++ approved_by i ∷ [] } in
    let q = execute-row g i r row (lookup r.action executors) u2 v h in
    let e = ap (λ z. lookup z.action executors) q ∙ l in
    let m = execute-world g i r row (lookup r.action executors) x u2 v e h in
    let w = (claim-ok g i who tf now s u r k).2 in
    ap (λ z. g.run x z.tenant_id z.resource s.world) (sym q)
    ∙ ap (λ z. g.run x r.tenant_id r.resource z.world) (sym w)
    ∙ m

-- The world after an approval that returns is the one that the executor of the row's action leaves.
pub approve-world :
    {W : Type 0} (g : Setting W) (i : ℕ) (who tf : String) (now : ℕ) (s v : State W) (row : Action)
    (x : Executor)
    → lookup row.action executors ≡ some x
    → approve g i who tf now s ≡ (ok row, v)
    → g.run x row.tenant_id row.resource s.world ≡ (true, v.world)
unfolding approve
approve-world g i who tf now s v row x l h =
    proceed-world g i who tf now s v row x (claim g i who tf now s) l refl h
