-- ===== src/Mcp.antt =====
-- The gateway to MCP servers: src/aegis_fabric/mcp_gateway.py and the handlers of the registry in
-- src/aegis_fabric/admin.py, over the tables `mcp_servers` and `mcp_tools` and the queue of pending
-- actions. Ed25519, SHA-256, JSON printing, text order and `re.search` are parameters. The columns
-- with times are left out, and the listing for display.
pub mod Register
pub mod Machine
pub mod Callable
pub mod Handlers
pub mod Safety
pub mod Vetted
mod Examples
use aegis_capstone.Common.{
  ◌<>◌, ℕ, zero, suc, ◌+◌, ◌-◌, ◌≤◌, ◌<◌, String, ◌≡◌, refl, sym, ap, ◌∙◌, ◌≢◌, ◌⊎◌, inl, inr, Bool,
  true, false, ◌&&◌, ◌||◌, not, Option, none, some, List, [], ◌∷◌, ◌++◌, map, arith, ◌==◌, eq_iff,
  ltb, leb, eqb, if◌then◌else◌, Bool-cases, Option-cases, or_else, is_some, length, is_empty, keep,
  any, All, contains,
}
use aegis_capstone.Audit.{Bytes}
use aegis_capstone.Common.Dict.{Dict, insert}
use aegis_capstone.Inspectors.{InspectionAction, InspectionResult, deny, injection_inspect}
use aegis_capstone.Inspectors.Patterns.{Regex}

-- `ToolSpec`, with its parameters as JSON text with sorted keys.
pub record ToolSpec : Type 0 where
  pub tool_id : String
  pub description : String
  pub parameters : String
  pub pii_class : String
  pub egress : Option String

-- `ServerManifest`
pub record ServerManifest : Type 0 where
  pub server_id : String
  pub display_name : String
  pub version : String
  pub public_key : String
  pub signature : String
  pub tools : List ToolSpec
  pub command : Option String
  pub args : List String
  pub env : Dict String
  pub cwd : Option String
  pub notes : String

-- The libraries: whether `pub.verify` returns for a key, a signature and a message; JSON of the tools
-- as bytes; SHA-256 in hexadecimal; the order of texts; `re.search`.
pub record Libraries : Type 0 where
  pub verified : String → String → Bytes → Bool
  pub dumps : List ToolSpec → Bytes
  pub sha256 : Bytes → String
  pub before : String → String → Bool
  pub search : Regex → String → Bool

-- `sorted(…, key=tool_id)`, which is stable.
unfoldable pub place_tool : (String → String → Bool) → ToolSpec → List ToolSpec → List ToolSpec
place_tool before t [] = t ∷ []
place_tool before t (u ∷ us) =
    if before u.tool_id t.tool_id then u ∷ place_tool before t us else t ∷ u ∷ us

unfoldable pub by_tool_id : (String → String → Bool) → List ToolSpec → List ToolSpec
by_tool_id before [] = []
by_tool_id before (t ∷ ts) = place_tool before t (by_tool_id before ts)

-- `_canonical_tools_bytes`
unfoldable pub canonical_tools_bytes : Libraries → List ToolSpec → Bytes
canonical_tools_bytes l tools = l.dumps (by_tool_id l.before tools)

-- `manifest_hash`
unfoldable pub manifest_hash : Libraries → ServerManifest → String
manifest_hash l m = l.sha256 (canonical_tools_bytes l m.tools)

-- `verify_signature`
unfoldable pub verify_signature : Libraries → ServerManifest → Bool
verify_signature l m = l.verified m.public_key m.signature (canonical_tools_bytes l m.tools)

-- `_scan_tool`
unfoldable pub scan_tool : Libraries → ToolSpec → InspectionResult
scan_tool l tool = injection_inspect l.search (record {
  stage = "tool_registration";
  text = tool.description <> "\n" <> tool.parameters;
  egress_domain = "";
})

-- The dict comprehension over the tools: a later tool of the same id takes the verdict's place.
unfoldable pub scan_tools :
    Libraries → List ToolSpec → Dict InspectionResult → Dict InspectionResult
scan_tools l [] verdicts = verdicts
scan_tools l (t ∷ ts) verdicts = scan_tools l ts (insert t.tool_id (scan_tool l t) verdicts)

unfoldable pub is_denied : InspectionAction → Bool
is_denied deny = true
is_denied _ = false

-- `all(v["action"] != "deny" for v in per_tool.values())`
unfoldable pub none_denied : Dict InspectionResult → Bool
none_denied [] = true
none_denied ((k, r) ∷ verdicts) = not (is_denied r.action) && none_denied verdicts

-- What `verify_manifest` returns.
pub record Verdict : Type 0 where
  pub signature_ok : Bool
  pub scan_ok : Bool
  pub hash : String
  pub namespace : List String
  pub per_tool : Dict InspectionResult

unfoldable pub verify_manifest : Libraries → ServerManifest → Verdict
verify_manifest l m = record {
  signature_ok = verify_signature l m;
  scan_ok = none_denied (scan_tools l m.tools []);
  hash = manifest_hash l m;
  namespace = map (λ t. m.server_id <> "/" <> t.tool_id) m.tools;
  per_tool = scan_tools l m.tools [];
}
