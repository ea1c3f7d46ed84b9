-- ===== src/Approvals/Once.antt =====
-- The executor of a pending action of src/aegis_fabric/approvals.py runs at most once when the calls
-- follow one another.
use aegis_capstone.Common.{
  ℕ, ◌≤◌, ◌<◌, String, ◌≡◌, refl, ap, inl, inr, Bool, true, false, Option, none, some, List, [],
  ◌∷◌, ◌++◌, arith, Bool-cases, All-append,
}
use aegis_capstone.Approvals.{
  State, reject, update, Setting, Resource, decide, Action, AuditCall, approve, create_pending,
  proceed, reject_row, Executor, Result, after_reject, after_run, claim, load, err, execute, finish,
  is_pending, ok, lookup, rejected, set_status, executed, executors, rejected_by, approved,
  approved_by, ran,
}
use aegis_capstone.Approvals.Decided.{
  IsDecided, Decides-decide, Decides-set_status, IsDecided-updated,
}
use aegis_capstone.Approvals.Outcome.{claim-err, claim-ok}
use aegis_capstone.Approvals.Ran.{Good, count, Good-empty, Good-run, Good-update, pending-known}

-- A call, with its arguments.
pub data Call : Type 0 where
  create : String → String → Resource → String → ℕ → ℕ → Call
  refuse : ℕ → String → String → Call
  accept : ℕ → String → String → ℕ → Call

module _ {W : Type 0} (g : Setting W) where
  unfoldable pub step : Call → State W → State W
  step (create tenant action resource requester now day) s =
      (create_pending tenant action resource requester now day s).1
  step (refuse i who tf) s = (reject i who tf s).1
  step (accept i who tf now) s = (approve g i who tf now s).1

  unfoldable pub steps : List Call → State W → State W
  unfolding step
  steps [] s = s
  steps (c ∷ cs) s = steps cs (step c s)

Good-create :
    {W : Type 0} (tenant action : String) (resource : Resource) (who : String) (now day : ℕ)
    (s : State W)
    → Good s
    → Good (create_pending tenant action resource who now day s).1
unfolding create_pending
Good-create tenant action resource who now day s g = record {
  at_most_once = g.at_most_once;
  run_decided = λ i c.
      All-append (λ a. a.id ≡ i → is_pending a.status ≡ false) s.table _ (g.run_decided i c)
        (λ q. absurd (let z = g.run_known i (omega arith) in omega arith), tt);
  run_known = λ i l. g.run_known i (omega arith);
  row_known = λ i l.
      All-append (λ a. a.id ≡ i → is_pending a.status ≡ false) s.table _
        (g.row_known i (omega arith)) (λ q. absurd (omega arith), tt);
}

Good-reject_row :
    {W : Type 0} (i : ℕ) (who : String) (o : Option Action) (s : State W)
    → Good s
    → Good (after_reject i (finish (reject_row i who o s.table) s)).1
unfolding reject_row
Good-reject_row i who none s g = g
Good-reject_row i who (some row) s g = elim (Bool-cases (is_pending row.status)) [
  | inl e ↦ rw e (
      Good-update i (decide rejected who) s
        (record s {
          table = update i (decide rejected who) s.table;
          audit = s.audit ++ rejected_by i ∷ [];
        })
        (Decides-decide rejected who refl) g refl refl refl)
  | inr e ↦ rw e g
]

-- The state after `approve`'s first transaction, when that returned: the action is decided, known and
-- has not run.
record Claimed {W : Type 0} (i : ℕ) (u : State W) : Type 0 where
  good : Good u
  fresh : count i u.runs ≡ 0
  decided : IsDecided i u.table
  known : i < u.next_id

claim-Claimed :
    {W : Type 0} (g : Setting W) (i : ℕ) (who tf : String) (now : ℕ) (s u : State W) (row : Action)
    → Good s
    → claim g i who tf now s ≡ (ok row, u)
    → Claimed i u
claim-Claimed g i who tf now s u row good h =
    let c = claim-ok g i who tf now s u row h in
    let k = pending-known i tf s row good c.0 c.1.is_open in
    let f = Decides-decide approved who refl in
    record {
      good =
          Good-update i (decide approved who) s u f good (ap (λ w. w.next_id) c.2)
            (ap (λ w. w.runs) c.2) (ap (λ w. w.table) c.2);
      fresh = rw (ap (λ w. w.runs) c.2) k.0;
      decided = rw (ap (λ w. w.table) c.2) (IsDecided-updated i (decide approved who) s.table f);
      known = rw (ap (λ w. w.next_id) c.2) k.1;
    }

Good-after_run :
    {W : Type 0} (g : Setting W) (i : ℕ) (row : Action) (u : State W) (b : Bool × W)
    → Claimed i u
    → Good (after_run g i row u b).1
Good-after_run g i row u (false, w) c =
    Good-run i u (record u { runs = u.runs ++ i ∷ []; world = w }) c.good c.fresh c.decided c.known
      refl refl refl
Good-after_run g i row u (true, w) c =
    let t = record u { runs = u.runs ++ i ∷ []; world = w } in
    Good-update i (set_status executed) t
      (record t { table = update i (set_status executed) u.table; audit = u.audit ++ ran i ∷ [] })
      (Decides-set_status executed refl)
      (Good-run i u t c.good c.fresh c.decided c.known refl refl refl) refl refl refl

Good-execute :
    {W : Type 0} (g : Setting W) (i : ℕ) (row : Action) (x : Option Executor) (u : State W)
    → Claimed i u
    → Good (execute g i row x u).1
Good-execute g i row none u c = c.good
Good-execute g i row (some x) u c =
    Good-after_run g i row u (g.run x row.tenant_id row.resource u.world) c

Claimed-audited :
    {W : Type 0} (i : ℕ) (u : State W) (calls : List AuditCall)
    → Claimed i u
    → Claimed i (record u { audit = calls })
Claimed-audited i u calls c = record {
  good = record {
    at_most_once = c.good.at_most_once;
    run_decided = c.good.run_decided;
    run_known = c.good.run_known;
    row_known = c.good.row_known;
  };
  fresh = c.fresh;
  decided = c.decided;
  known = c.known;
}

Good-proceed :
    {W : Type 0} (g : Setting W) (i : ℕ) (who tf : String) (now : ℕ) (s : State W)
    (c : Result Action × State W)
    → claim g i who tf now s ≡ c
    → Good s
    → Good (proceed g i c).1
unfolding proceed
Good-proceed g i who tf now s (err e, u) h good = rw (claim-err g i who tf now s u e h) good
Good-proceed g i who tf now s (ok row, u) h good =
    Good-execute g i row (lookup row.action executors)
      (record u { audit = u.audit ++ approved_by i ∷ [] })
      (Claimed-audited i u (u.audit ++ approved_by i ∷ [])
        (claim-Claimed g i who tf now s u row good h))

Good-step : {W : Type 0} (g : Setting W) (c : Call) (s : State W) → Good s → Good (step g c s)
unfolding step reject approve
Good-step g (create tenant action resource who now day) s good =
    Good-create tenant action resource who now day s good
Good-step g (refuse i who tf) s good = Good-reject_row i who (load i tf s.table) s good
Good-step g (accept i who tf now) s good =
    Good-proceed g i who tf now s (claim g i who tf now s) refl good

Good-steps :
    {W : Type 0} (g : Setting W) (cs : List Call) (s : State W) → Good s → Good (steps g cs s)
unfolding steps
Good-steps g [] s good = good
Good-steps g (c ∷ cs) s good = Good-steps g cs (step g c s) (Good-step g c s good)

-- After any sequence of requests, rejections and approvals, by whomever and with whatever outcome,
-- that starts from an empty table, the executor of no action has run twice.
pub steps-at_most_once :
    {W : Type 0} (g : Setting W) (cs : List Call) (s : State W)
    → s.runs ≡ []
    → s.table ≡ []
    → (i : ℕ) → count i (steps g cs s).runs ≤ 1
steps-at_most_once g cs s r t = (Good-steps g cs s (Good-empty s r t)).at_most_once
