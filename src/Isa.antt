-- ===== src/Isa.antt =====
-- The ideal state artifacts of src/aegis_fabric/isa.py: the criteria of a task, their probes over the
-- answer, and the verification. Regular expressions, `str.strip`, `str.lower`, substring search,
-- printing, lengths of texts and prefixes are parameters; a probe never raises here.
pub mod Verified
mod Examples
use aegis_capstone.Common.{
  ◌<>◌, ℕ, zero, suc, ◌+◌, ◌-◌, ◌≤◌, ◌<◌, String, ◌≡◌, refl, sym, ap, ◌∙◌, ◌≢◌, ◌⊎◌, inl, inr, Bool,
  true, false, ◌&&◌, ◌||◌, not, Option, none, some, List, [], ◌∷◌, ◌++◌, map, arith, ◌==◌, eq_iff,
  ltb, leb, eqb, if◌then◌else◌, Bool-cases, Option-cases, or_else, is_some, length, is_empty, keep,
  any, All, contains, max, ◌/◌,
}
use aegis_capstone.Inspectors.{InspectionAction, deny, InspectionResult, inspect_text}
use aegis_capstone.Inspectors.Patterns.{Regex}

pub record Isc : Type 0 where
  pub id : String
  pub description : String
  pub probe : String
  pub satisfied : Bool
  pub evidence : String

pub record Isa : Type 0 where
  pub trace_id : String
  pub tenant_id : String
  pub subject : String
  pub goal : String
  pub iscs : List Isc
  pub verified : Bool

-- `ISA.total`
unfoldable pub total : Isa → ℕ
total isa = length isa.iscs

-- `ISA.met`
unfoldable pub met : Isa → ℕ
met isa = length (keep (λ (c : Isc). c.satisfied) isa.iscs)

-- What a probe reads beside the answer: `max_output_tokens`, where 0 stands for none, and the titles of
-- the retrieved documents, where a document without one has the empty text.
pub record Context : Type 0 where
  pub max_output_tokens : ℕ
  pub retrieved_docs : List String

pub record Texts : Type 0 where
  pub strip : String → String
  pub lower : String → String
  pub len : String → ℕ
  pub is_in : String → String → Bool
  pub prefix : ℕ → String → String
  pub str : ℕ → String
  pub credential : String → Option String
  pub search : Regex → String → Bool

unfoldable pub criterion : String → String → String → Isc
criterion id description probe = record {
  id = id;
  description = description;
  probe = probe;
  satisfied = false;
  evidence = "";
}

-- `r.action == "deny"`
unfoldable pub injection_on : InspectionAction → String → Bool × String
injection_on deny reason = (false, "inspector flagged: " <> reason)
injection_on other reason = (true, "no injection patterns detected")

-- `int(ctx.get("max_output_tokens") or 0) or 999_999`
unfoldable pub budget_of : Context → ℕ
budget_of ctx = if eqb ctx.max_output_tokens 0 then 999_999 else ctx.max_output_tokens

unfoldable pub stamp : Bool × String → Isc → Isc
stamp (ok, evidence) c = record c { satisfied = ok; evidence = evidence }

module _ (x : Texts) where
  -- `_trim`
  unfoldable pub trim : String → ℕ → String
  trim s n = if leb (x.len (x.strip s)) n then x.strip s else x.prefix (n - 1) (x.strip s) <> "..."

  unfoldable pub core_criteria : ℕ → List Isc
  core_criteria max_output_tokens =
      criterion "ISC-1" "Answer is non-empty." "non_empty_answer"
      ∷ criterion "ISC-2"
          ("Answer fits within the role's output token budget (" <> x.str max_output_tokens <> ").")
          "within_output_token_budget"
      ∷ criterion "ISC-3" "Answer does not echo prompt-injection patterns back to the user."
          "no_injection_in_answer"
      ∷ criterion "ISC-4" "Answer does not leak credential-like strings." "no_credential_in_answer"
      ∷ []

  -- `scaffold_isa`
  unfoldable pub scaffold_isa : String → String → String → String → Bool → ℕ → Isa
  scaffold_isa trace_id tenant_id subject prompt doc_q max_output_tokens = record {
    trace_id = trace_id;
    tenant_id = tenant_id;
    subject = subject;
    goal = "Answer the user's question: " <> trim prompt 180;
    iscs =
        if doc_q
        then core_criteria max_output_tokens
          ++ criterion "ISC-5"
              "When the question is document-related, the answer cites an authorized document."
              "cites_doc_when_doc_q"
            ∷ []
        else core_criteria max_output_tokens;
    verified = false;
  }

  -- `_est_tokens`
  unfoldable pub est_tokens : String → ℕ
  est_tokens s = max 1 (x.len s / 4)

  unfoldable pub probe_empty : String → Bool × String
  probe_empty answer =
      if answer == "" || x.strip answer == ""
      then (false, "answer is empty")
      else (true, "non-empty")

  unfoldable pub probe_budget : String → Context → Bool × String
  probe_budget answer ctx = (
    leb (est_tokens answer) (budget_of ctx),
    "estimated " <> x.str (est_tokens answer) <> " tokens vs budget " <> x.str (budget_of ctx),
  )

  unfoldable pub injected : String → Bool × String
  injected answer =
      let r = (inspect_text x.search "external_content" answer "").0 in
      injection_on r.action r.reason

  unfoldable pub credential_verdict : Option String → Bool × String
  credential_verdict none = (true, "no credential patterns")
  credential_verdict (some m) = (false, "credential-like pattern: " <> x.prefix 12 m <> "...")

  -- The loop over the titles.
  unfoldable pub first_cited : String → List String → Option String
  first_cited answer [] = none
  first_cited answer (t ∷ ts) =
      if not (t == "") && x.is_in (x.lower t) (x.lower answer)
      then some t
      else first_cited answer ts

  unfoldable pub citation_verdict : ℕ → Option String → Bool × String
  citation_verdict n (some t) = (true, "cites: " <> t)
  citation_verdict n none =
      (false, "none of the " <> x.str n <> " retrieved documents are cited in the answer")

  unfoldable pub probe_citation : String → Context → Bool × String
  probe_citation answer ctx =
      if is_empty ctx.retrieved_docs
      then (true, "no documents retrieved; criterion vacuous")
      else citation_verdict (length (keep (λ t. not (t == "")) ctx.retrieved_docs))
          (first_cited answer ctx.retrieved_docs)

  -- `_probe`
  unfoldable pub run_probe : String → String → Context → Bool × String
  run_probe name answer ctx =
      if name == "non_empty_answer"
      then probe_empty answer
      else if name == "within_output_token_budget"
      then probe_budget answer ctx
      else if name == "no_injection_in_answer"
      then injected answer
      else if name == "no_credential_in_answer"
      then credential_verdict (x.credential answer)
      else if name == "cites_doc_when_doc_q"
      then probe_citation answer ctx
      else (true, "unknown probe '" <> name <> "' (passing by default)")

  -- `verify_isa`
  unfoldable pub verify_isa : Isa → String → Context → Isa
  verify_isa isa answer ctx = record isa {
    iscs = map (λ (c : Isc). stamp (run_probe c.probe answer ctx) c) isa.iscs;
    verified = true;
  }
