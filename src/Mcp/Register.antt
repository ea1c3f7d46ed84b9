-- ===== src/Mcp/Register.antt =====
-- The registry's tables and the handlers that write them: `mcp_register`, `mcp_quarantine` and
-- `mcp_remove` of src/aegis_fabric/admin.py, the executor `_exec_mcp_register` of
-- src/aegis_fabric/approvals.py, and `call_tool` of src/aegis_fabric/mcp_gateway.py.
use aegis_capstone.Common.{
  ℕ, String, Bool, true, false, ◌||◌, not, Option, none, some, List, [], ◌∷◌, ◌++◌, map, ◌==◌,
  if◌then◌else◌, is_some, keep, contains,
}
use aegis_capstone.Approvals.{Resource}
use aegis_capstone.Common.Dict.{Dict, lookup}
use aegis_capstone.Json.{Scalar, text}
use aegis_capstone.Mcp.{ServerManifest, ToolSpec, InspectionAction, InspectionResult, Verdict}

pub data ServerStatus : Type 0 where
  pending_approval server_approved quarantined : ServerStatus

-- A row of `mcp_servers`.
pub record Server : Type 0 where
  pub server_id : String
  pub display_name : String
  pub version : String
  pub manifest_hash : String
  pub public_key : String
  pub status : ServerStatus
  pub command : Option String
  pub args : List String
  pub env : Dict String
  pub cwd : Option String
  pub notes : String
  pub registered_by : String
  pub approved_by : Option String

-- A row of `mcp_tools`.
pub record ToolRow : Type 0 where
  pub server_id : String
  pub tool : ToolSpec
  pub scan_action : Option InspectionAction

-- The two tables, and the calls of `_audit_admin`, by action and resource.
pub record Registry : Type 0 where
  pub servers : List Server
  pub tools : List ToolRow
  pub audited : List (String × String)

unfoldable pub find_server : String → List Server → Option Server
find_server id [] = none
find_server id (s ∷ ss) = if s.server_id == id then some s else find_server id ss

-- `UPDATE mcp_servers SET … WHERE server_id=%s`
unfoldable pub update_server : String → (Server → Server) → List Server → List Server
update_server id f [] = []
update_server id f (s ∷ ss) =
    if s.server_id == id then f s ∷ update_server id f ss else s ∷ update_server id f ss

-- The row of a first registration.
unfoldable pub new_server : ServerManifest → String → String → Server
new_server m hash email = record {
  server_id = m.server_id;
  display_name = m.display_name;
  version = m.version;
  manifest_hash = hash;
  public_key = m.public_key;
  status = pending_approval;
  command = m.command;
  args = m.args;
  env = m.env;
  cwd = m.cwd;
  notes = m.notes;
  registered_by = email;
  approved_by = none;
}

-- `ON CONFLICT (server_id) DO UPDATE`: the launch fields and the registrant stay those of the row.
unfoldable pub again : ServerManifest → String → Server → Server
again m hash s = record s {
  version = m.version;
  manifest_hash = hash;
  public_key = m.public_key;
  status = pending_approval;
  approved_by = none;
}

-- `INSERT INTO mcp_servers … ON CONFLICT`
unfoldable pub upsert_server : ServerManifest → String → String → List Server → List Server
upsert_server m hash email servers =
    if is_some (find_server m.server_id servers)
    then update_server m.server_id (again m hash) servers
    else servers ++ new_server m hash email ∷ []

-- `DELETE FROM mcp_tools WHERE server_id=%s`
unfoldable pub drop_tools : String → List ToolRow → List ToolRow
drop_tools id rows = keep (λ r. not (r.server_id == id)) rows

action_of : Option InspectionResult → Option InspectionAction
action_of none = none
action_of (some r) = some r.action

-- The inserts of the tools with the verdicts on them.
unfoldable pub tool_rows : String → Dict InspectionResult → List ToolSpec → List ToolRow
unfolding action_of
tool_rows id verdicts tools =
    map
      (λ t. record {
        server_id = id;
        tool = t;
        scan_action = action_of (lookup t.tool_id verdicts);
      })
      tools

-- The primary key of `mcp_tools` refuses a tool id that comes twice.
unfoldable pub repeats : List String → Bool
repeats [] = false
repeats (x ∷ xs) = contains x xs || repeats xs

-- `UPDATE mcp_servers SET status='approved'`, by the inline approval and by the executor.
unfoldable pub approve_server : Option String → Server → Server
approve_server none s = record s { status = server_approved }
approve_server (some who) s = record s { status = server_approved; approved_by = some who }

unfoldable pub audit_admin : String → String → Registry → Registry
audit_admin action resource w = record w { audited = w.audited ++ (action, resource) ∷ [] }

-- The block `_do` of `mcp_register`, when no tool id comes twice.
unfoldable pub store_manifest : ServerManifest → Verdict → String → Registry → Registry
store_manifest m v email w = record w {
  servers = upsert_server m v.hash email w.servers;
  tools = drop_tools m.server_id w.tools ++ tool_rows m.server_id v.per_tool m.tools;
}

-- The answers of the handlers; `refused` carries the HTTP status, `raised` is an error of the database.
pub data Reply : Type 0 where
  refused : ℕ → String → Reply
  queued : ℕ → Reply
  auto_approved : Reply
  in_quarantine : Reply
  removed : ServerStatus → Reply
  raised : Reply

unfoldable pub exec_on : Option Scalar → Registry → Bool × Registry
exec_on (some (text id)) w =
    (true, record w { servers = update_server id (approve_server none) w.servers })
exec_on other w = (false, w)

-- `_exec_mcp_register`: a payload without the id raises.
unfoldable pub exec_mcp_register : Resource → Registry → Bool × Registry
exec_mcp_register resource w = exec_on (lookup "server_id" resource) w

-- The launch of a server's process, as `LaunchConfig` describes it.
pub record LaunchConfig : Type 0 where
  pub command : String
  pub args : List String
  pub env : Dict String
  pub cwd : Option String

pub data Launch : Type 0 where
  not_registered : Launch
  not_approved : ServerStatus → Launch
  launched : LaunchConfig → Launch

-- `row["command"] or "python3"`
unfoldable pub command_or : Option String → String
command_or none = "python3"
command_or (some c) = if c == "" then "python3" else c

unfoldable pub launch_with : ServerStatus → LaunchConfig → Launch
launch_with server_approved c = launched c
launch_with other c = not_approved other

unfoldable pub launch_row : Option Server → Launch
launch_row none = not_registered
launch_row (some s) =
    launch_with s.status
      (record { command = command_or s.command; args = s.args; env = s.env; cwd = s.cwd })

-- `call_tool`, up to the start of the process.
unfoldable pub call_tool : String → Registry → Launch
call_tool id w = launch_row (find_server id w.servers)
