-- ===== src/Mcp/Vetted.antt =====
-- What a registration that is accepted has been checked for.
use aegis_capstone.Common.{
  ℕ, String, ◌≡◌, refl, ◌∙◌, inl, inr, Bool, true, false, some, List, [], ◌∷◌, map, arith, ◌==◌,
  eq_iff, Bool-cases, All, contains, eq_refl,
}
use aegis_capstone.Approvals.{State}
use aegis_capstone.Auth.Principal.{AdminPrincipal}
use aegis_capstone.Common.Dict.{lookup, lookup-insert}
use aegis_capstone.Mcp.{
  Libraries, ToolSpec, none_denied, scan_tools, Dict, InspectionResult, is_denied, ServerManifest,
  insert, scan_tool, verify_manifest, canonical_tools_bytes, verify_signature,
}
use aegis_capstone.Mcp.Machine.{register_server, register_verified, Gateway}
use aegis_capstone.Mcp.Register.{repeats, Reply, queued, auto_approved, Registry}

-- The scan does not deny the tool.
unfoldable pub IsClean : Libraries → ToolSpec → Type 0
IsClean l t = is_denied (scan_tool l t).action ≡ false

-- What the checks of `mcp_register` come to.
pub record Vetted (l : Libraries) (p : AdminPrincipal) (m : ServerManifest) : Type 0 where
  pub platform : p.scope ≡ "platform"
  pub signed : l.verified m.public_key m.signature (canonical_tools_bytes l m.tools) ≡ true
  pub clean : All (IsClean l) m.tools

abbrev tool_ids : List ToolSpec → List String
tool_ids tools = map (λ (t : ToolSpec). t.tool_id) tools

lookup-scan_tools_other :
    (l : Libraries) (k : String) (ts : List ToolSpec) (d : Dict InspectionResult)
    → contains k (tool_ids ts) ≡ false
    → lookup k (scan_tools l ts d) ≡ lookup k d
unfolding scan_tools
lookup-scan_tools_other l k [] d h = refl
lookup-scan_tools_other l k (t ∷ ts) d h = elim (Bool-cases (k == t.tool_id)) [
  | inl e ↦ let z = rw e at h in cc
  | inr e ↦
      let q : (t.tool_id == k) ≡ false = grind (arith, eq_iff t.tool_id k, eq_iff k t.tool_id) in
      let rest = lookup-scan_tools_other l k ts (insert t.tool_id (scan_tool l t) d) (rw e at h) in
      rest ∙ (rw (lookup-insert t.tool_id k (scan_tool l t) d, q) refl)
]

none_denied-lookup :
    (k : String) (r : InspectionResult) (d : Dict InspectionResult)
    → none_denied d ≡ true
    → lookup k d ≡ some r
    → is_denied r.action ≡ false
unfolding none_denied
none_denied-lookup k r [] h q = cc
none_denied-lookup k r ((j, v) ∷ d) h q = elim (Bool-cases (is_denied v.action)) [
  | inl e ↦ let z = rw e at h in cc
  | inr e ↦ elim (Bool-cases (j == k)) [
    | inl f ↦ let z : some v ≡ some r = rw f at q in cc
    | inr f ↦ none_denied-lookup k r d (rw e at h) (rw f at q)
  ]
]

tools-IsClean :
    (l : Libraries) (ts : List ToolSpec) (d : Dict InspectionResult)
    → repeats (tool_ids ts) ≡ false
    → none_denied (scan_tools l ts d) ≡ true
    → All (IsClean l) ts
unfolding repeats scan_tools IsClean
tools-IsClean l [] d h n = tt
tools-IsClean l (t ∷ ts) d h n = elim (Bool-cases (contains t.tool_id (tool_ids ts))) [
  | inl e ↦ let z = rw e at h in cc
  | inr e ↦
      let d' : Dict InspectionResult = insert t.tool_id (scan_tool l t) d in
      let q : lookup t.tool_id (scan_tools l ts d') ≡ some (scan_tool l t) =
        lookup-scan_tools_other l t.tool_id ts d' e
        ∙ (rw (lookup-insert t.tool_id t.tool_id (scan_tool l t) d, eq_refl t.tool_id) refl) in
      (
        none_denied-lookup t.tool_id (scan_tool l t) (scan_tools l ts d') n q,
        tools-IsClean l ts d' (rw e at h) n,
      )
]

-- The answer with which a registration is stored.
unfoldable pub is_accepted : Reply → Bool
is_accepted (queued i) = true
is_accepted auto_approved = true
is_accepted _ = false

-- A registration that is queued or approved comes from a platform administrator, has a signature that
-- verifies over the canonical bytes of its tools, and has no tool that the injection scan denies; the
-- verdicts of tools with the same id do not hide one another, since such a manifest is not stored.
pub register_server-Vetted :
    (g : Gateway) (p : AdminPrincipal) (m : ServerManifest) (now day : ℕ) (s : State Registry)
    → is_accepted (register_server g p m now day s).0 ≡ true
    → Vetted g.libraries p m
unfolding register_server register_verified is_accepted verify_manifest verify_signature
register_server-Vetted g p m now day s h = elim (Bool-cases (p.scope == "platform")) [
  | inl e ↦ elim (Bool-cases (verify_signature g.libraries m)) [
    | inl f ↦ elim (Bool-cases (none_denied (scan_tools g.libraries m.tools []))) [
      | inl k ↦ elim (Bool-cases (repeats (tool_ids m.tools))) [
        | inl r ↦ let z = rw (e, f, k, r) at h in cc
        | inr r ↦ record {
          platform = grind (arith, eq_iff p.scope "platform");
          signed = f;
          clean = tools-IsClean g.libraries m.tools [] r k;
        }
      ]
      | inr k ↦ let z = rw (e, f, k) at h in cc
    ]
    | inr f ↦ let z = rw (e, f) at h in cc
  ]
  | inr e ↦ let z = rw e at h in cc
]
