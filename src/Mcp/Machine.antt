-- ===== src/Mcp/Machine.antt =====
-- The registry beside the queue of pending actions: the handlers of src/aegis_fabric/admin.py that
-- change them, run one after another.
use aegis_capstone.Common.{
  ℕ, String, Bool, false, ◌&&◌, not, Option, none, some, [], ◌∷◌, map, ◌==◌, if◌then◌else◌, keep,
}
use aegis_capstone.Approvals.{
  Action, Executor, State, Resource, Setting, approve, reject, create_pending, is_pending,
  mcp_register,
}
use aegis_capstone.Auth.Principal.{AdminPrincipal}
use aegis_capstone.Common.Dict.{lookup}
use aegis_capstone.Json.{Scalar, text}
use aegis_capstone.Mcp.{Libraries, ServerManifest, Verdict, verify_manifest, ToolSpec}
use aegis_capstone.Mcp.Register.{
  Server, Registry, Reply, audit_admin, exec_mcp_register, queued, refused, store_manifest,
  update_server, approve_server, find_server, in_quarantine, removed, repeats, drop_tools,
  quarantined, raised, auto_approved,
}

-- `principal.tenant_id or "*"`
unfoldable pub tenant_or_all : AdminPrincipal → String
tenant_or_all p = if p.tenant_id == "" then "*" else p.tenant_id

-- The filter of the approval handlers.
unfoldable pub approval_filter : AdminPrincipal → String
approval_filter p = if p.scope == "tenant" then p.tenant_id else ""

-- What the handlers are given: the libraries, `str.lower`, whether an executor that does not touch
-- the registry returns, and `mcp_require_dual_control`.
pub record Gateway : Type 0 where
  pub libraries : Libraries
  pub lower : String → String
  pub returns : Executor → String → Resource → Bool
  pub dual_control : Bool

-- A request to one of the handlers, with the time of it and the length of a day.
pub data Request : Type 0 where
  register : AdminPrincipal → ServerManifest → ℕ → ℕ → Request
  quarantine : AdminPrincipal → String → Request
  remove : AdminPrincipal → String → Request
  approve_pending : AdminPrincipal → ℕ → ℕ → Request
  reject_pending : AdminPrincipal → ℕ → Request

-- `resource->>'server_id'` of the orphans that `mcp_remove` deletes.
unfoldable pub is_orphan : String → Action → Bool
is_orphan id a =
    a.action == "mcp.register"
    && is_pending a.status
    && has_server_id id (lookup "server_id" a.resource)
  where
    has_server_id : String → Option Scalar → Bool
    has_server_id id (some (text t)) = t == id
    has_server_id id _ = false

-- The audit call at the end of a queued registration, and the answer.
unfoldable pub after_queue : String → ℕ × State Registry → Reply × State Registry
after_queue id (pending_id, s) =
    (queued pending_id, record s { world = audit_admin "mcp.register.queued" id s.world })

unfoldable pub queue_approval :
    AdminPrincipal → ServerManifest → Verdict → ℕ → ℕ → State Registry → Reply × State Registry
queue_approval p m v now day s = after_queue m.server_id (
    create_pending (tenant_or_all p) "mcp.register"
      (("server_id", text m.server_id)
        ∷ ("version", text m.version)
        ∷ ("manifest_hash", text v.hash)
        ∷ [])
      p.email now day s)

unfoldable pub approve_inline : AdminPrincipal → ServerManifest → Registry → Registry
approve_inline p m w =
    audit_admin "mcp.register.auto-approved" m.server_id
      (record w { servers = update_server m.server_id (approve_server (some p.email)) w.servers })

-- `mcp_quarantine`: a server that is not there is no error.
unfoldable pub quarantine_server : AdminPrincipal → String → State Registry → Reply × State Registry
quarantine_server p id s =
    if not (p.scope == "platform") then (refused 403 "platform-admin scope required", s) else (
      in_quarantine,
      record s {
        world = audit_admin "mcp.quarantine" id (record (s.world) {
          servers =
              update_server id (λ (r : Server). record r { status = quarantined }) s.world.servers;
        });
      },
    )

unfoldable pub remove_found : String → Option Server → State Registry → Reply × State Registry
remove_found id none s = (refused 404 "server not found", s)
remove_found id (some row) s = (
  removed row.status,
  record s {
    table = keep (λ (a : Action). not (is_orphan id a)) s.table;
    world = audit_admin "mcp.server.removed" id (record (s.world) {
      servers = keep (λ (r : Server). not (r.server_id == id)) s.world.servers;
      tools = drop_tools id s.world.tools;
    });
  },
)

-- `mcp_remove`: the tools go by the foreign key's cascade.
unfoldable pub remove_server : AdminPrincipal → String → State Registry → Reply × State Registry
remove_server p id s =
    if not (p.scope == "platform")
    then (refused 403 "platform-admin scope required", s)
    else remove_found id (find_server id s.world.servers) s

module _ (g : Gateway) where
  -- What the executors do to the registry: only `mcp.register` is about it.
  unfoldable pub run_executor : Executor → String → Resource → Registry → Bool × Registry
  run_executor mcp_register tenant_id resource w = exec_mcp_register resource w
  run_executor x tenant_id resource w = (g.returns x tenant_id resource, w)

  abbrev pub queue : Setting Registry
  queue = record { lower = g.lower; run = run_executor }

  -- `mcp_register` from the writing of the rows on.
  unfoldable pub register_verified :
      AdminPrincipal → ServerManifest → Verdict → ℕ → ℕ → State Registry → Reply × State Registry
  register_verified p m v now day s =
      let stored = record s { world = store_manifest m v p.email s.world } in
      if repeats (map (λ (t : ToolSpec). t.tool_id) m.tools)
      then (raised, s)
      else if g.dual_control
      then queue_approval p m v now day stored
      else (auto_approved, record stored { world = approve_inline p m stored.world })

  -- `mcp_register`
  unfoldable pub register_server :
      AdminPrincipal → ServerManifest → ℕ → ℕ → State Registry → Reply × State Registry
  register_server p m now day s =
      let v = verify_manifest g.libraries m in
      if not (p.scope == "platform")
      then (refused 403 "platform-admin scope required", s)
      else if not v.signature_ok
      then (refused 400 "signature_invalid", s)
      else if not v.scan_ok
      then (refused 400 "scan_denied", s)
      else register_verified p m v now day s

  -- `approve_action`
  unfoldable pub approve_action : AdminPrincipal → ℕ → ℕ → State Registry → State Registry
  approve_action p i now s =
      if p.can_approve == "none" then s else (approve queue i p.email (approval_filter p) now s).1

  -- `reject_action`
  unfoldable pub reject_action : AdminPrincipal → ℕ → State Registry → State Registry
  reject_action p i s =
      if p.can_approve == "none" then s else (reject i p.email (approval_filter p) s).1

  -- The state after a request.
  unfoldable pub handle : Request → State Registry → State Registry
  handle (register p m now day) s = (register_server p m now day s).1
  handle (quarantine p id) s = (quarantine_server p id s).1
  handle (remove p id) s = (remove_server p id s).1
  handle (approve_pending p i now) s = approve_action p i now s
  handle (reject_pending p i) s = reject_action p i s
