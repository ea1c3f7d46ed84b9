-- ===== src/Mcp/Handlers.antt =====
-- The handlers of the registry other than the approval make no server callable, with dual control on.
use aegis_capstone.Common.{
  ℕ, String, ◌≡◌, refl, inl, inr, true, Option, none, some, List, map, ◌==◌, Bool-cases, is_some,
}
use aegis_capstone.Approvals.{
  Action, State, load, create_pending, reject_row, after_reject, finish, is_pending, reject,
}
use aegis_capstone.Auth.Principal.{AdminPrincipal}
use aegis_capstone.Mcp.{
  ServerManifest, verify_manifest, Verdict, ToolSpec, verify_signature, none_denied, scan_tools,
}
use aegis_capstone.Mcp.Callable.{
  callable, is_approved, Harmless, callable-keep, callable-update, callable-append,
}
use aegis_capstone.Mcp.Machine.{
  Gateway, approval_filter, register_server, remove_found, register_verified, queue_approval,
  after_queue, quarantine_server, reject_action, remove_server,
}
use aegis_capstone.Mcp.Register.{
  Registry, Server, find_server, again, upsert_server, audit_admin, new_server, quarantined,
  store_manifest, repeats,
}

Harmless-again : (m : ServerManifest) (hash : String) → Harmless (again m hash)
unfolding again is_approved
Harmless-again m hash = record { same_id = λ s. refl; not_more = λ s h. cc }

Harmless-quarantine : Harmless (λ (r : Server). record r { status = quarantined })
unfolding is_approved
Harmless-quarantine = record { same_id = λ s. refl; not_more = λ s h. cc }

upsert_server-callable :
    (id : String) (m : ServerManifest) (hash email : String) (ss : List Server)
    → callable id (upsert_server m hash email ss) ≡ true
    → callable id ss ≡ true
unfolding upsert_server is_approved new_server
upsert_server-callable id m hash email ss h =
    elim (Bool-cases (is_some (find_server m.server_id ss))) [
      | inl e ↦ callable-update id m.server_id (again m hash) ss (Harmless-again m hash) (rw e at h)
      | inr e ↦ callable-append id ss (new_server m hash email) refl (rw e at h)
    ]

register_verified-callable :
    (g : Gateway) (p : AdminPrincipal) (m : ServerManifest) (v : Verdict) (now day : ℕ)
    (s : State Registry) (id : String)
    → g.dual_control ≡ true
    → callable id (register_verified g p m v now day s).1.world.servers ≡ true
    → callable id s.world.servers ≡ true
unfolding register_verified queue_approval after_queue create_pending store_manifest audit_admin
register_verified-callable g p m v now day s id d h =
    elim (Bool-cases (repeats (map (λ (t : ToolSpec). t.tool_id) m.tools))) [
      | inl e ↦ rw e at h
      | inr e ↦ upsert_server-callable id m v.hash p.email s.world.servers (rw (e, d) at h)
    ]

pub register_server-callable :
    (g : Gateway) (p : AdminPrincipal) (m : ServerManifest) (now day : ℕ) (s : State Registry)
    (id : String)
    → g.dual_control ≡ true
    → callable id (register_server g p m now day s).1.world.servers ≡ true
    → callable id s.world.servers ≡ true
unfolding register_server verify_manifest verify_signature none_denied scan_tools register_verified
    store_manifest queue_approval
register_server-callable g p m now day s id d h = elim (Bool-cases (p.scope == "platform")) [
  | inl e ↦ elim (Bool-cases (verify_manifest g.libraries m).signature_ok) [
    | inl f ↦ elim (Bool-cases (verify_manifest g.libraries m).scan_ok) [
      | inl k ↦
          register_verified-callable g p m (verify_manifest g.libraries m) now day s id d
            (rw (e, f, k) at h)
      | inr k ↦ rw (e, f, k) at h
    ]
    | inr f ↦ rw (e, f) at h
  ]
  | inr e ↦ rw e at h
]

pub quarantine_server-callable :
    (p : AdminPrincipal) (j : String) (s : State Registry) (id : String)
    → callable id (quarantine_server p j s).1.world.servers ≡ true
    → callable id s.world.servers ≡ true
unfolding quarantine_server audit_admin
quarantine_server-callable p j s id h = elim (Bool-cases (p.scope == "platform")) [
  | inl e ↦ callable-update id j _ s.world.servers Harmless-quarantine (rw e at h)
  | inr e ↦ rw e at h
]

reject_row-world :
    (i : ℕ) (who : String) (o : Option Action) (s : State Registry)
    → (after_reject i (finish (reject_row i who o s.table) s)).1.world ≡ s.world
unfolding reject_row
reject_row-world i who none s = refl
reject_row-world i who (some row) s = elim (Bool-cases (is_pending row.status)) [
  | inl e ↦ rw e refl
  | inr e ↦ rw e refl
]

remove_found-callable :
    (id j : String) (o : Option Server) (s : State Registry)
    → callable id (remove_found j o s).1.world.servers ≡ true
    → callable id s.world.servers ≡ true
unfolding remove_found audit_admin
remove_found-callable id j none s h = h
remove_found-callable id j (some r) s h = callable-keep id j s.world.servers h

pub remove_server-callable :
    (p : AdminPrincipal) (j : String) (s : State Registry) (id : String)
    → callable id (remove_server p j s).1.world.servers ≡ true
    → callable id s.world.servers ≡ true
unfolding remove_server
remove_server-callable p j s id h = elim (Bool-cases (p.scope == "platform")) [
  | inl e ↦ remove_found-callable id j (find_server j s.world.servers) s (rw e at h)
  | inr e ↦ rw e at h
]

pub reject_action-callable :
    (g : Gateway) (p : AdminPrincipal) (i : ℕ) (s : State Registry) (id : String)
    → callable id (reject_action g p i s).world.servers ≡ true
    → callable id s.world.servers ≡ true
unfolding reject_action reject
reject_action-callable g p i s id h = elim (Bool-cases (p.can_approve == "none")) [
  | inl e ↦ rw e at h
  | inr e ↦
      let w = reject_row-world i p.email (load i (approval_filter p) s.table) s in rw (e, w) at h
]
