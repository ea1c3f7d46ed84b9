-- ===== src/Tenants/DualControl.antt =====
-- The deletion of a tenant under dual control: `delete_tenant` of src/aegis_fabric/admin.py queues it, and
-- `approve` of src/aegis_fabric/approvals.py runs it by `_exec_tenant_delete`. The other executors are a
-- parameter.
use aegis_capstone.Common.{
  ℕ, ◌+◌, ◌≤◌, String, ◌≡◌, refl, ◌≢◌, inl, inr, Bool, true, false, ◌||◌, not, none, some, [], ◌∷◌,
  ◌++◌, ◌==◌, Bool-cases, is_some, contains, All, List, ◌<◌, ap, arith, All-append, eqb, All-map,
}
use aegis_capstone.Approvals.{
  approve, create_pending, Action, State, Setting, Executor, tenant_delete, Resource, ok, executors,
  pending,
}
use aegis_capstone.Approvals.Executed.{approve-world}
use aegis_capstone.Approvals.Kept.{
  Event, all_happen, Asked, Asked-all_happen, load-IsRequest, request_of,
}
use aegis_capstone.Approvals.Outcome.{approve-Accepted}
use aegis_capstone.Auth.Principal.{AdminPrincipal, require_platform}
use aegis_capstone.Common.Dict.{lookup}
use aegis_capstone.Json.{text}
use aegis_capstone.Tenants.{Org, Outcome}
use aegis_capstone.Tenants.Lifecycle.{
  delete_tenant, delete_tenant_handler, queued, refused, answer_queued, answer_deleted, Answer,
}

abbrev ran_to : Outcome → Bool × Org
ran_to (none, db) = (true, db)
ran_to (some code, db) = (false, db)

-- The executors, `_exec_tenant_delete` among them.
abbrev pub exec :
    (Executor → String → Resource → Org → Bool × Org)
    → Executor
    → String
    → Resource
    → Org
    → Bool × Org
exec others tenant_delete tenant_id resource db = ran_to (delete_tenant tenant_id db)
exec others x tenant_id resource db = others x tenant_id resource db

abbrev pub admin_setting :
    (String → String) → (Executor → String → Resource → Org → Bool × Org) → Setting Org
admin_setting lower others = record { lower = lower; run = exec others }

-- The row that the handler leaves in the queue.
abbrev pub deletion : AdminPrincipal → String → ℕ → ℕ → State Org → Action
deletion p tenant_id now day s = record {
  id = s.next_id;
  tenant_id = tenant_id;
  action = "tenant.delete";
  resource = ("tenant_id", text tenant_id) ∷ [];
  requester = p.email;
  status = pending;
  approver = none;
  expires_at = now + day;
}

ran_to-true : (o : Outcome) (db : Org) → ran_to o ≡ (true, db) → o ≡ (none, db)
ran_to-true (none, d) db h = cc
ran_to-true (some c, d) db h = cc

handler-queued :
    (p : AdminPrincipal) (id confirm : String) (now day i : ℕ) (s u : State Org)
    → delete_tenant_handler p id confirm now day s ≡ (queued i, u)
    → (i ≡ s.next_id)
      × (u.next_id ≡ s.next_id + 1)
      × (u.table ≡ s.table ++ deletion p id now day s ∷ [])
unfolding delete_tenant_handler create_pending
handler-queued p id confirm now day i s u h =
    elim (Bool-cases (is_some (require_platform p) || not p.can_delete_tenant)) [
      | inl e ↦
          let k : ◌≡◌ {A = Answer × State Org} (refused 403, s) (queued i, u) = rw e at h in cc
      | inr e ↦ elim (Bool-cases (confirm == id)) [
        | inr c ↦
            let k : ◌≡◌ {A = Answer × State Org} (refused 400, s) (queued i, u) = rw (e, c) at h in
            cc
        | inl c ↦ elim (Bool-cases (contains "tenant.delete" p.dual_control_actions)) [
          | inl d ↦
              let k : answer_queued (
                    create_pending id "tenant.delete" (("tenant_id", text id) ∷ []) p.email now day
                      s)
                  ≡ (queued i, u) =
                rw (e, c, d) at h in
              (cc, cc, cc)
          | inr d ↦
              let k : answer_deleted s (delete_tenant id s.world) ≡ (queued i, u) =
                rw (e, c, d) at h in
              cc
        ]
      ]
    ]

handler-Asked :
    (p : AdminPrincipal) (id confirm : String) (now day i : ℕ) (s u : State Org)
    → All (λ a. a.id < s.next_id) s.table
    → delete_tenant_handler p id confirm now day s ≡ (queued i, u)
    → Asked i (request_of (deletion p id now day s)) u
handler-Asked p id confirm now day i s u b h =
    let q = handler-queued p id confirm now day i s u h in
    record {
      known = omega (arith, q.0, q.1);
      request =
          rw (q.2, q.0)
            (All-append
              (λ a. eqb a.id s.next_id ≡ true → request_of a ≡ request_of (deletion p id now day s))
              s.table _
              (All-map (λ a. a.id < s.next_id)
                (λ a.
                  eqb a.id s.next_id ≡ true → request_of a ≡ request_of (deletion p id now day s))
                (λ a l e. absurd (ground arith)) s.table b)
              ((λ e. refl), tt));
    }

-- When a deletion was queued, in a table whose ids are below the next one, and its approval returns
-- after whatever other calls of the queue and changes beside it, one after another, then the approver is another person
-- than the requester when both are in lower case, the approval is in time, and the tables are those
-- that a direct deletion, without dual control, leaves of the ones that the approval found.
pub approve-delete_tenant_handler :
    (lower : String → String) (others : Executor → String → Resource → Org → Bool × Org)
    (p : AdminPrincipal) (id confirm who tf : String) (now day later i : ℕ) (s u v : State Org)
    (es : List (Event Org)) (row : Action)
    → All (λ a. a.id < s.next_id) s.table
    → delete_tenant_handler p id confirm now day s ≡ (queued i, u)
    → approve
        (admin_setting lower others)
        i
        who
        tf
        later
        (all_happen (admin_setting lower others) es u)
      ≡ (ok row, v)
    → (lower who ≢ lower p.email)
      × (later ≤ now + day)
      × (delete_tenant id (all_happen (admin_setting lower others) es u).world ≡ (none, v.world))
unfolding executors
approve-delete_tenant_handler lower others p id confirm who tf now day later i s u v es row b h k =
    let g = admin_setting lower others in
    let t = all_happen g es u in
    let q = request_of (deletion p id now day s) in
    let c = approve-Accepted g i who tf later t v row k in
    let m = c.1 in
    let d = Asked-all_happen g es i q u (handler-Asked p id confirm now day i s u b h) in
    let r = load-IsRequest i tf q t.table row c.0 d.request in
    let r_tenant : row.tenant_id ≡ id = ap (λ x. x.0) r in
    let r_action : row.action ≡ "tenant.delete" = ap (λ x. x.1) r in
    let r_who : row.requester ≡ p.email = ap (λ x. x.3) r in
    let r_end : row.expires_at ≡ now + day = ap (λ x. x.4) r in
    let l : lookup row.action executors ≡ some tenant_delete = rw r_action refl in
    let w = approve-world g i who tf later t v row tenant_delete l k in
    let x : ran_to (delete_tenant row.tenant_id t.world) ≡ (true, v.world) = w in
    (
      rw r_who at m.two_persons,
      omega (arith, r_end, m.in_time),
      ran_to-true (delete_tenant id t.world) v.world (rw r_tenant at x),
    )
