-- ===== src/Approvals.antt =====
-- The dual-control queue of src/aegis_fabric/approvals.py, over the table `pending_actions`. A
-- transaction is `get_conn` of src/aegis_fabric/db.py: it commits when its block returns and rolls
-- back when the block raises. `str.lower` and the executors' effects are parameters; a `tenant_filter`
-- of `None` is the empty text, which the code treats alike.
pub mod Table
pub mod Outcome
pub mod Decided
pub mod Ran
pub mod Once
pub mod Race
pub mod Executed
pub mod Kept
mod Examples
use aegis_capstone.Common.{
  ℕ, zero, suc, ◌+◌, ◌-◌, ◌≤◌, ◌<◌, String, ◌≡◌, refl, sym, ap, ◌∙◌, ◌≢◌, ◌⊎◌, inl, inr, Bool, true,
  false, ◌&&◌, ◌||◌, not, Option, none, some, List, [], ◌∷◌, ◌++◌, map, arith, ◌==◌, eq_iff, ltb,
  leb, eqb, if◌then◌else◌, Bool-cases, Option-cases, or_else, is_some, length, is_empty, keep, any,
  All, contains,
}
use aegis_capstone.Common.Dict.{Dict, lookup}
use aegis_capstone.Json.{Scalar}

pub data Status : Type 0 where
  pending approved rejected executed expired : Status

pub data Executor : Type 0 where
  tenant_delete memory_erase memory_write secret_rotate mcp_register : Executor

-- `EXECUTORS`
unfoldable pub executors : Dict Executor
executors =
    ("tenant.delete", tenant_delete)
    ∷ ("memory.erase", memory_erase)
    ∷ ("memory.write", memory_write)
    ∷ ("secret.rotate", secret_rotate)
    ∷ ("mcp.register", mcp_register)
    ∷ []

abbrev pub Resource : Type 0
Resource = Dict Scalar

pub record Action : Type 0 where
  pub id : ℕ
  pub tenant_id : String
  pub action : String
  pub resource : Resource
  pub requester : String
  pub status : Status
  pub approver : Option String
  pub expires_at : ℕ

pub data Error : Type 0 where
  not_found not_pending out_of_time self_approval no_executor executor_raised : Error

pub data Result (A : Type 0) : Type 0 where
  ok : A → Result A
  err : Error → Result A

-- The calls of `_audit`, by their action and the row's id.
pub data AuditCall : Type 0 where
  requested approved_by rejected_by ran : ℕ → AuditCall

-- The table with the next id, the audit calls and the executor calls made so far, and the rest of the
-- world, on which the executors act.
pub record State (W : Type 0) : Type 0 where
  pub next_id : ℕ
  pub table : List Action
  pub audit : List AuditCall
  pub runs : List ℕ
  pub world : W

-- What the model is given: `str.lower`, and what an executor does: whether it returns, and the world
-- that it leaves.
pub record Setting (W : Type 0) : Type 0 where
  pub lower : String → String
  pub run : Executor → String → Resource → W → Bool × W

-- `SELECT * FROM pending_actions WHERE id=%s`, with `AND tenant_id=%s` under a filter.
unfoldable pub load : ℕ → String → List Action → Option Action
load i tenant_filter [] = none
load i tenant_filter (a ∷ rest) =
    if eqb a.id i && (tenant_filter == "" || a.tenant_id == tenant_filter)
    then some a
    else load i tenant_filter rest

-- `UPDATE pending_actions SET … WHERE id=%s`
unfoldable pub update : ℕ → (Action → Action) → List Action → List Action
update i f [] = []
update i f (a ∷ rest) = if eqb a.id i then f a ∷ update i f rest else a ∷ update i f rest

abbrev pub set_status : Status → Action → Action
set_status s a = record a { status = s }

abbrev pub decide : Status → String → Action → Action
decide s who a = record a { status = s; approver = some who }

abbrev pub is_pending : Status → Bool
is_pending pending = true
is_pending _ = false

-- How a transaction on the table ends: it commits if its block returns, and rolls back if it raises.
abbrev pub finish : {W : Type 0} → Result Action × List Action → State W → Result Action × State W
finish (ok a, t) s = (ok a, record s { table = t })
finish (err e, t) s = (err e, s)

-- `create_pending`: the row's status and its life of 24 hours are the table's defaults.
unfoldable pub create_pending :
    {W : Type 0} → String → String → Resource → String → ℕ → ℕ → State W → ℕ × State W
create_pending tenant_id action resource requester now day s = (
  s.next_id,
  record s {
    next_id = s.next_id + 1;
    table =
        s.table
        ++ record {
          id = s.next_id;
          tenant_id = tenant_id;
          action = action;
          resource = resource;
          requester = requester;
          status = pending;
          approver = none;
          expires_at = now + day;
        }
          ∷ [];
    audit = s.audit ++ requested s.next_id ∷ [];
  },
)

abbrev pub listed : String → Action → Bool
listed tenant_filter a =
    is_pending a.status && (tenant_filter == "" || a.tenant_id == tenant_filter)

-- `ORDER BY created_at DESC` of rows that were created in the order of the table.
unfoldable pub newest_first : List Action → List Action
newest_first [] = []
newest_first (a ∷ rest) = newest_first rest ++ a ∷ []

-- `list_pending`
unfoldable pub list_pending : {W : Type 0} → String → State W → List Action
list_pending tenant_filter s = newest_first (keep (listed tenant_filter) s.table)

-- The block of `reject`'s transaction, on the row that `_load` returns.
unfoldable pub reject_row : ℕ → String → Option Action → List Action → Result Action × List Action
reject_row i approver none t = (err not_found, t)
reject_row i approver (some row) t =
    if not (is_pending row.status)
    then (err not_pending, t)
    else (ok row, update i (decide rejected approver) t)

abbrev pub after_reject : {W : Type 0} → ℕ → Result Action × State W → Result Action × State W
after_reject i (ok row, u) = (ok row, record u { audit = u.audit ++ rejected_by i ∷ [] })
after_reject i (err e, u) = (err e, u)

unfoldable pub reject : {W : Type 0} → ℕ → String → String → State W → Result Action × State W
unfolding reject_row
reject i approver tenant_filter s =
    after_reject i (finish (reject_row i approver (load i tenant_filter s.table) s.table) s)

module _ {W : Type 0} (g : Setting W) where
  -- The block of `approve`'s first transaction, on the row that `_load` returns.
  unfoldable pub approve_row :
      ℕ → String → ℕ → Option Action → List Action → Result Action × List Action
  approve_row i approver now none t = (err not_found, t)
  approve_row i approver now (some row) t =
      if not (is_pending row.status)
      then (err not_pending, t)
      else if ltb row.expires_at now
      then (err out_of_time, update i (set_status expired) t)
      else if g.lower approver == g.lower row.requester
      then (err self_approval, t)
      else (ok row, update i (decide approved approver) t)

  -- The end of `approve`, on what the executor did: the second transaction runs if it returned.
  abbrev pub after_run : ℕ → Action → State W → Bool × W → Result Action × State W
  after_run i row s (false, w) =
      (err executor_raised, record s { runs = s.runs ++ i ∷ []; world = w })
  after_run i row s (true, w) = (
    ok row,
    record s {
      runs = s.runs ++ i ∷ [];
      world = w;
      table = update i (set_status executed) s.table;
      audit = s.audit ++ ran i ∷ [];
    },
  )

  abbrev pub execute : ℕ → Action → Option Executor → State W → Result Action × State W
  execute i row none s = (err no_executor, s)
  execute i row (some x) s = after_run i row s (g.run x row.tenant_id row.resource s.world)

  -- What a session does once its first transaction has ended.
  unfoldable pub proceed : ℕ → Result Action × State W → Result Action × State W
  proceed i (err e, s) = (err e, s)
  proceed i (ok row, s) =
      execute i row (lookup row.action executors)
        (record s { audit = s.audit ++ approved_by i ∷ [] })

  -- The first transaction.
  unfoldable pub claim : ℕ → String → String → ℕ → State W → Result Action × State W
  unfolding approve_row
  claim i approver tenant_filter now s =
      finish (approve_row i approver now (load i tenant_filter s.table) s.table) s

  unfoldable pub approve : ℕ → String → String → ℕ → State W → Result Action × State W
  unfolding claim proceed
  approve i approver tenant_filter now s = proceed i (claim i approver tenant_filter now s)
