-- ===== src/Inspectors.antt =====
-- The inspector pipeline of src/aegis_fabric/inspectors.py. `re.search` is a parameter; an inspector
-- that raises gives `none`.
pub mod Patterns
pub mod Severity
pub mod Blocked
mod Examples
use aegis_capstone.Common.{
  ℕ, zero, suc, ◌+◌, ◌-◌, ◌≤◌, ◌<◌, String, ◌≡◌, refl, sym, ap, ◌∙◌, ◌≢◌, ◌⊎◌, inl, inr, Bool, true,
  false, ◌&&◌, ◌||◌, not, Option, none, some, List, [], ◌∷◌, ◌++◌, map, arith, ◌==◌, eq_iff, ltb,
  leb, eqb, if◌then◌else◌, Bool-cases, Option-cases, or_else, is_some, length, is_empty, keep, any,
  All, contains, ◌<>◌,
}
use aegis_capstone.Inspectors.Patterns.{
  Regex, Dangerous, Labelled, dangerous, hard_categories, injection, outbound_tools, credentials,
  labelled, threat, egress_alerts,
}

pub data InspectionAction : Type 0 where
  allow deny require_approval alert : InspectionAction

pub record InspectionResult : Type 0 where
  pub action : InspectionAction
  pub reason : String
  pub finding_id : String
  pub inspector : String

abbrev pub allow_result : InspectionResult
allow_result = record { action = allow; reason = ""; finding_id = ""; inspector = "" }

-- The functions `deny` and `alert`.
abbrev pub denied : String → String → InspectionResult
denied reason finding_id = record {
  action = deny;
  reason = reason;
  finding_id = finding_id;
  inspector = "";
}

abbrev pub alerted : String → String → InspectionResult
alerted reason finding_id = record {
  action = alert;
  reason = reason;
  finding_id = finding_id;
  inspector = "";
}

-- The fields of the context that an inspector reads; no domain is the empty text.
pub record InspectionContext : Type 0 where
  pub stage : String
  pub text : String
  pub egress_domain : String

pub record Inspector : Type 0 where
  pub name : String
  pub priority : ℕ
  pub inspect : InspectionContext → Option InspectionResult

-- `sorted(inspectors, key=priority, reverse=True)`, which is stable.
unfoldable pub place : Inspector → List Inspector → List Inspector
place i [] = i ∷ []
place i (j ∷ js) = if ltb i.priority j.priority then j ∷ place i js else i ∷ j ∷ js

unfoldable pub by_priority : List Inspector → List Inspector
unfolding place
by_priority [] = []
by_priority (i ∷ is) = place i (by_priority is)

-- What one round of the loop of `run` does: it returns, or goes on with `pending` and `findings`.
pub data Round : Type 0 where
  return : InspectionResult → List InspectionResult → Round
  go_on : Option InspectionResult → List InspectionResult → Round

abbrev pub first_pending : Option InspectionResult → InspectionResult → Option InspectionResult
first_pending none r = some r
first_pending (some p) r = some p

abbrev pub judge :
    InspectionAction → InspectionResult → Option InspectionResult → List InspectionResult → Round
judge allow r pending findings = go_on pending findings
judge deny r pending findings = return r (findings ++ r ∷ [])
judge require_approval r pending findings = go_on (first_pending pending r) (findings ++ r ∷ [])
judge alert r pending findings = go_on pending (findings ++ r ∷ [])

-- The body of the loop; `r.inspector = ins.name` names the finding.
unfoldable pub round :
    String → Option InspectionResult → Option InspectionResult → List InspectionResult → Round
round name none pending findings = go_on pending findings
round name (some r) pending findings =
    judge r.action (record r { inspector = name }) pending findings

abbrev pub last_of : InspectionResult → List InspectionResult → InspectionResult
last_of r [] = r
last_of r (f ∷ fs) = last_of f fs

-- What follows the loop.
unfoldable pub close : Option InspectionResult → List InspectionResult → InspectionResult
close (some r) findings = r
close none findings = last_of allow_result findings

unfoldable pub loop :
    InspectionContext
    → List Inspector
    → Option InspectionResult
    → List InspectionResult
    → InspectionResult × List InspectionResult
unfolding round close
loop ctx [] pending findings = (close pending findings, findings)
loop ctx (i ∷ is) pending findings = elim (round i.name (i.inspect ctx) pending findings) [
  | return r fs ↦ (r, fs)
  | go_on p fs ↦ loop ctx is p fs
]

-- `InspectorPipeline(inspectors).run(ctx)`
unfoldable pub run : List Inspector → InspectionContext → InspectionResult × List InspectionResult
unfolding by_priority loop
run inspectors ctx = loop ctx (by_priority inspectors) none []

-- The three inspectors, over `re.search`.
module _ (search : Regex → String → Bool) where
  unfoldable pub pattern_inspect : List Dangerous → String → InspectionResult
  pattern_inspect [] t = allow_result
  pattern_inspect (threat rx fid desc ∷ rest) t =
      if search rx t
      then denied ("dangerous command: " <> desc) ("SEC-pattern-" <> fid)
      else pattern_inspect rest t

  -- The label of the first entry that the text matches.
  unfoldable pub first_match : List Labelled → String → Option String
  first_match [] t = none
  first_match (labelled rx label ∷ rest) t = if search rx t then some label else first_match rest t

  unfoldable pub is_outbound : InspectionContext → Bool
  unfolding outbound_tools
  is_outbound ctx = search outbound_tools ctx.text || not (ctx.egress_domain == "")

  abbrev egress_alert : Option String → InspectionResult
  egress_alert none = allow_result
  egress_alert (some label) = alerted ("outbound/exec pattern: " <> label) "SEC-egress-pattern"

  -- The two loops over `_CREDENTIALS` look for the same first match.
  abbrev egress_with : Bool → Option String → Option String → InspectionResult
  egress_with true (some label) other =
      denied ("possible credential exfiltration: " <> label) "SEC-egress-credential"
  egress_with false (some label) other =
      alerted ("credential-like string present: " <> label) "SEC-egress-credential-present"
  egress_with outbound none other = egress_alert other

  unfoldable pub egress_inspect : InspectionContext → InspectionResult
  unfolding first_match is_outbound credentials egress_alerts
  egress_inspect ctx =
      egress_with (is_outbound ctx) (first_match credentials ctx.text)
        (first_match egress_alerts ctx.text)

  -- A category that is hard, or content that ends up above the user's message.
  unfoldable pub must_deny : String → String → Bool
  unfolding hard_categories
  must_deny stage category =
      contains category hard_categories || stage == "external_content" || stage == "values_cascade"

  unfoldable pub injection_of : String → Option String → InspectionResult
  unfolding must_deny
  injection_of stage none = allow_result
  injection_of stage (some category) =
      if must_deny stage category
      then denied ("prompt injection (" <> category <> ")") ("SEC-injection-" <> category)
      else alerted ("prompt injection (" <> category <> ")") ("SEC-injection-" <> category)

  unfoldable pub injection_inspect : InspectionContext → InspectionResult
  unfolding first_match injection injection_of
  injection_inspect ctx = injection_of ctx.stage (first_match injection ctx.text)

  unfoldable pub default_pipeline : List Inspector
  unfolding pattern_inspect egress_inspect injection_inspect dangerous
  default_pipeline =
      record {
        name = "PatternInspector";
        priority = 100;
        inspect = λ ctx. some (pattern_inspect dangerous ctx.text);
      }
      ∷ record {
        name = "EgressInspector";
        priority = 90;
        inspect = λ ctx. some (egress_inspect ctx);
      }
      ∷ record {
        name = "InjectionInspector";
        priority = 80;
        inspect = λ ctx. some (injection_inspect ctx);
      }
      ∷ []

  -- `inspect`, with the context that it makes.
  unfoldable pub inspect_text : String → String → String → InspectionResult × List InspectionResult
  unfolding run default_pipeline
  inspect_text stage t egress_domain =
      run default_pipeline (record { stage = stage; text = t; egress_domain = egress_domain })
