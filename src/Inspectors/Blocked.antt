-- ===== src/Inspectors/Blocked.antt =====
-- What the three default inspectors of src/aegis_fabric/inspectors.py must block.
use aegis_capstone.Common.{
  ℕ, ◌≤◌, String, ◌≡◌, refl, ◌∙◌, ◌⊎◌, inl, inr, Bool, true, ◌||◌, not, some, List, [], ◌∷◌, arith,
  ◌==◌, Bool-cases, any, max,
}
use aegis_capstone.Inspectors.{
  InspectionAction, InspectionContext, egress_inspect, first_match, injection_inspect, inspect_text,
  pattern_inspect, credentials, default_pipeline, injection_of, is_outbound, labelled, threat, deny,
  must_deny, outbound_tools, allow, injection, run, alert, require_approval,
}
use aegis_capstone.Inspectors.Patterns.{Regex, Dangerous, Labelled, dangerous}
use aegis_capstone.Inspectors.Severity.{severity, run-severity, severity-le}

module _ (search : Regex → String → Bool) where
  abbrev pub is_threat : String → Dangerous → Bool
  is_threat t (threat rx fid desc) = search rx t

  abbrev pub is_match : String → Labelled → Bool
  is_match t (labelled rx label) = search rx t

  pattern_inspect-severity :
      (ds : List Dangerous) (t : String)
      → any (is_threat t) ds ≡ true
      → severity (pattern_inspect search ds t).action ≡ 3
  unfolding pattern_inspect
  pattern_inspect-severity [] t h = cc
  pattern_inspect-severity (threat rx fid desc ∷ ds) t h = elim (Bool-cases (search rx t)) [
    | inl e ↦ rw e refl
    | inr e ↦ rw e (pattern_inspect-severity ds t (rw e at h))
  ]

  first_match-some :
      (ls : List Labelled) (t : String)
      → any (is_match t) ls ≡ true
      → (l : String) × (first_match search ls t ≡ some l)
  unfolding first_match
  first_match-some [] t h = cc
  first_match-some (labelled rx label ∷ ls) t h = elim (Bool-cases (search rx t)) [
    | inl e ↦ (label, rw e refl)
    | inr e ↦ let q = first_match-some ls t (rw e at h) in (q.0, rw e q.1)
  ]

  deny_alone :
      (a b c : ℕ)
      → (a ≡ 3) ⊎ ((b ≡ 3) ⊎ (c ≡ 3))
      → a ≤ 3
      → b ≤ 3
      → c ≤ 3
      → max a (max b (max c 0)) ≡ 3
  deny_alone a b c h la lb lc = ground arith

  severity_deny : (a : InspectionAction) → severity a ≡ 3 → a ≡ deny
  severity_deny allow h = absurd (omega arith)
  severity_deny alert h = absurd (omega arith)
  severity_deny require_approval h = absurd (omega arith)
  severity_deny deny h = refl

  -- Content that must not pass: a dangerous command anywhere; a credential together with an outbound
  -- tool or an egress domain; an injection pattern in external content or in a value of the cascade.
  abbrev pub MustBlock : String → String → String → Type 0
  MustBlock stage t egress_domain =
      (any (is_threat t) dangerous ≡ true)
      ⊎ (((any (is_match t) credentials ≡ true)
            × (search outbound_tools t || not (egress_domain == "") ≡ true))
          ⊎ ((any (is_match t) injection ≡ true)
              × (stage == "external_content" || stage == "values_cascade" ≡ true)))

  egress-severity :
      (ctx : InspectionContext)
      → any (is_match ctx.text) credentials ≡ true
      → search outbound_tools ctx.text || not (ctx.egress_domain == "") ≡ true
      → severity (egress_inspect search ctx).action ≡ 3
  unfolding egress_inspect is_outbound
  egress-severity ctx h o = let q = first_match-some credentials ctx.text h in rw (q.1, o) refl

  injection-severity :
      (ctx : InspectionContext)
      → any (is_match ctx.text) injection ≡ true
      → ctx.stage == "external_content" || ctx.stage == "values_cascade" ≡ true
      → severity (injection_inspect search ctx).action ≡ 3
  unfolding injection_inspect injection_of must_deny
  injection-severity ctx h o = let q = first_match-some injection ctx.text h in rw q.1 (grind arith)

  blocked_by :
      (ctx : InspectionContext)
      → MustBlock ctx.stage ctx.text ctx.egress_domain
      → (severity (pattern_inspect search dangerous ctx.text).action ≡ 3)
        ⊎ ((severity (egress_inspect search ctx).action ≡ 3)
            ⊎ (severity (injection_inspect search ctx).action ≡ 3))
  blocked_by ctx (inl h) = inl (pattern_inspect-severity dangerous ctx.text h)
  blocked_by ctx (inr (inl h)) = inr (inl (egress-severity ctx h.0 h.1))
  blocked_by ctx (inr (inr h)) = inr (inr (injection-severity ctx h.0 h.1))

  -- Whatever the setting inspectors_enabled says, which `inspect` does not read, the default pipeline denies a dangerous command at every stage, a credential that leaves by an
  -- outbound tool or an egress domain, and every injection pattern in external content or in a value
  -- of the cascade.
  pub inspect_text-MustBlock :
      (stage t egress_domain : String)
      → MustBlock stage t egress_domain
      → (inspect_text search stage t egress_domain).0.action ≡ deny
  unfolding inspect_text default_pipeline
  inspect_text-MustBlock stage t egress_domain h =
      let ctx : InspectionContext = record {
        stage = stage;
        text = t;
        egress_domain = egress_domain;
      } in
      severity_deny (run (default_pipeline search) ctx).0.action (
        run-severity (default_pipeline search) ctx
        ∙ deny_alone (severity (pattern_inspect search dangerous t).action)
            (severity (egress_inspect search ctx).action)
            (severity (injection_inspect search ctx).action) (blocked_by ctx h) (severity-le _)
            (severity-le _) (severity-le _))
