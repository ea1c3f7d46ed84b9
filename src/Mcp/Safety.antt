-- ===== src/Mcp/Safety.antt =====
-- Who makes a server callable, when dual control is on.
use aegis_capstone.Common.{
  ℕ, String, ◌≡◌, refl, ap, inl, inr, Bool, true, false, Option, none, some, [], ◌∷◌, ◌++◌, ◌==◌,
  Bool-cases, ◌≢◌,
}
use aegis_capstone.Approvals.{
  memory_write, Action, State, Executor, after_run, execute, mcp_register, load, tenant_delete,
  memory_erase, executors, proceed, Result, secret_rotate, claim, err, ok, approved_by, approve,
}
use aegis_capstone.Approvals.Outcome.{MayApprove, claim-err, claim-ok}
use aegis_capstone.Auth.Principal.{AdminPrincipal}
use aegis_capstone.Common.Dict.{lookup}
use aegis_capstone.Json.{text, Scalar, flag, int, null}
use aegis_capstone.Mcp.Callable.{
  callable, callable-approve, approved-launch_row, launch_row-approved,
}
use aegis_capstone.Mcp.Handlers.{
  register_server-callable, quarantine_server-callable, remove_server-callable,
  reject_action-callable,
}
use aegis_capstone.Mcp.Machine.{
  Gateway, run_executor, Request, queue, approve_pending, approval_filter, handle, approve_action,
  register, quarantine, remove, reject_pending,
}
use aegis_capstone.Mcp.Register.{
  Registry, find_server, exec_on, exec_mcp_register, call_tool, LaunchConfig, launched,
}

-- The request approves a pending registration of this server, whose requester is somebody else.
pub record SecondPerson (g : Gateway) (id : String) (s : State Registry) (r : Request)
    : Type 0 where
  pub approver : AdminPrincipal
  pub action_id : ℕ
  pub time : ℕ
  pub row : Action
  pub is_approval : r ≡ approve_pending approver action_id time
  pub found : load action_id (approval_filter approver) s.table ≡ some row
  pub may : MayApprove (queue g) approver.email time row
  pub is_registration : lookup row.action executors ≡ some mcp_register
  pub names_server : lookup "server_id" row.resource ≡ some (text id)

exec_on-callable :
    (id : String) (v : Option Scalar) (w : Registry)
    → callable id (exec_on v w).1.servers ≡ true
    → callable id w.servers ≡ false
    → v ≡ some (text id)
unfolding exec_on
exec_on-callable id (some (text j)) w h n =
    ap (λ t. some (text t)) (callable-approve id j w.servers h n)
exec_on-callable id none w h n = cc
exec_on-callable id (some null) w h n = cc
exec_on-callable id (some (flag b)) w h n = cc
exec_on-callable id (some (int z)) w h n = cc

after_run-world :
    (g : Gateway) (i : ℕ) (row : Action) (s : State Registry) (o : Bool × Registry)
    → (after_run (queue g) i row s o).1.world ≡ o.1
after_run-world g i row s (true, w) = refl
after_run-world g i row s (false, w) = refl

execute-callable :
    (g : Gateway) (i : ℕ) (row : Action) (x : Option Executor) (s : State Registry) (id : String)
    → callable id (execute (queue g) i row x s).1.world.servers ≡ true
    → callable id s.world.servers ≡ false
    → (x ≡ some mcp_register) × (lookup "server_id" row.resource ≡ some (text id))
unfolding run_executor exec_mcp_register
execute-callable g i row none s id h n = cc
execute-callable g i row (some mcp_register) s id h n =
    let q = after_run-world g i row s (exec_mcp_register row.resource s.world) in
    (refl, exec_on-callable id (lookup "server_id" row.resource) s.world (rw q at h) n)
execute-callable g i row (some tenant_delete) s id h n =
    let q =
      after_run-world g i row s (g.returns tenant_delete row.tenant_id row.resource, s.world) in
    let k = rw q at h in cc
execute-callable g i row (some memory_erase) s id h n =
    let q =
      after_run-world g i row s (g.returns memory_erase row.tenant_id row.resource, s.world) in
    let k = rw q at h in cc
execute-callable g i row (some memory_write) s id h n =
    let q =
      after_run-world g i row s (g.returns memory_write row.tenant_id row.resource, s.world) in
    let k = rw q at h in cc
execute-callable g i row (some secret_rotate) s id h n =
    let q =
      after_run-world g i row s (g.returns secret_rotate row.tenant_id row.resource, s.world) in
    let k = rw q at h in cc

proceed-callable :
    (g : Gateway) (p : AdminPrincipal) (i now : ℕ) (s : State Registry) (id : String)
    (c : Result Action × State Registry)
    → claim (queue g) i p.email (approval_filter p) now s ≡ c
    → callable id (proceed (queue g) i c).1.world.servers ≡ true
    → callable id s.world.servers ≡ false
    → SecondPerson g id s (approve_pending p i now)
unfolding proceed
proceed-callable g p i now s id (err e, u) q h n =
    let z : u ≡ s = claim-err (queue g) i p.email (approval_filter p) now s u e q in
    let k : callable id s.world.servers ≡ true = rw z at h in cc
proceed-callable g p i now s id (ok row, u) q h n =
    let z = claim-ok (queue g) i p.email (approval_filter p) now s u row q in
    let w : u.world.servers ≡ s.world.servers = ap (λ (v : State Registry). v.world.servers) z.2 in
    let x =
      execute-callable g i row (lookup row.action executors)
        (record u { audit = u.audit ++ approved_by i ∷ [] }) id h (rw w n) in
    record {
      approver = p;
      action_id = i;
      time = now;
      row = row;
      is_approval = refl;
      found = z.0;
      may = z.1;
      is_registration = x.0;
      names_server = x.1;
    }

approve_action-callable :
    (g : Gateway) (p : AdminPrincipal) (i now : ℕ) (s : State Registry) (id : String)
    → callable id s.world.servers ≡ false
    → callable id (approve_action g p i now s).world.servers ≡ true
    → SecondPerson g id s (approve_pending p i now)
unfolding approve_action approve
approve_action-callable g p i now s id n h = elim (Bool-cases (p.can_approve == "none")) [
  | inl e ↦ let z = rw e at h in cc
  | inr e ↦ proceed-callable g p i now s id _ refl (rw e at h) n
]

-- With dual control on, a server that a request makes callable was named by a pending registration
-- that the request approves, in time, for somebody other than its requester.
pub handle-SecondPerson :
    (g : Gateway) (r : Request) (s : State Registry) (id : String)
    → g.dual_control ≡ true
    → callable id s.world.servers ≡ false
    → callable id (handle g r s).world.servers ≡ true
    → SecondPerson g id s r
unfolding handle
handle-SecondPerson g (register p m now day) s id d n h =
    let z = register_server-callable g p m now day s id d h in cc
handle-SecondPerson g (quarantine p j) s id d n h =
    let z = quarantine_server-callable p j s id h in cc
handle-SecondPerson g (remove p j) s id d n h = let z = remove_server-callable p j s id h in cc
handle-SecondPerson g (approve_pending p i now) s id d n h =
    approve_action-callable g p i now s id n h
handle-SecondPerson g (reject_pending p i) s id d n h =
    let z = reject_action-callable g p i s id h in cc

-- With dual control on, a request after which `call_tool` starts a process of a server, for which it
-- started none before, approves in time a pending registration that names the server and that
-- somebody else requested.
pub call_tool-SecondPerson :
    (g : Gateway) (r : Request) (s : State Registry) (id : String) (c : LaunchConfig)
    → g.dual_control ≡ true
    → ((d : LaunchConfig) → call_tool id s.world ≢ launched d)
    → call_tool id (handle g r s).world ≡ launched c
    → SecondPerson g id s r
unfolding call_tool callable
call_tool-SecondPerson g r s id c d n h = elim (Bool-cases (callable id s.world.servers)) [
  | inl e ↦ let z = approved-launch_row (find_server id s.world.servers) e in absurd (n z.0 z.1)
  | inr e ↦
      handle-SecondPerson g r s id d e
        (launch_row-approved (find_server id (handle g r s).world.servers) c h)
]
