-- ===== src/Isa/Verified.antt =====
-- What a task that meets its whole artifact has shown.
use aegis_capstone.Common.{
  suc, ◌≤◌, String, ◌≡◌, ◌≢◌, inl, inr, Bool, true, false, none, List, [], ◌∷◌, arith, ◌==◌,
  Bool-cases, is_some, length, is_empty, keep, All, length-keep-le, Option, leb→le, ℕ, map, some,
  refl,
}
use aegis_capstone.Inspectors.{allow, require_approval, alert, inspect_text}
use aegis_capstone.Inspectors.Blocked.{MustBlock, inspect_text-MustBlock}
use aegis_capstone.Isa.{
  Texts, injection_on, Context, InspectionAction, deny, est_tokens, budget_of, first_cited,
  citation_verdict, credential_verdict, injected, met, probe_budget, probe_citation, probe_empty,
  stamp, Isc, total, verify_isa, run_probe, scaffold_isa, core_criteria, criterion,
}

All-kept {ℓ} :
    {A : Type ℓ} (p : A → Bool) (xs : List A)
    → length (keep p xs) ≡ length xs
    → All (λ x. p x ≡ true) xs
All-kept p [] h = tt
All-kept p (x ∷ xs) h = elim (Bool-cases (p x)) [
  | inl e ↦
      let q : suc (length (keep p xs)) ≡ suc (length xs) = rw e at h in
      (e, All-kept p xs (omega arith))
  | inr e ↦
      let q : length (keep p xs) ≡ suc (length xs) = rw e at h in
      absurd (omega (arith, length-keep-le p xs))
]

-- The answer has text, fits the budget, is nothing that the inspectors must block in external content,
-- and shows no credential; for a question about documents it cites one, if any was retrieved.
pub record Done (x : Texts) (doc_q : Bool) (answer : String) (ctx : Context) : Type 0 where
  pub has_text : (x.strip answer == "") ≡ false
  pub fits : est_tokens x answer ≤ budget_of ctx
  pub clean : ¬ MustBlock x.search "external_content" answer ""
  pub no_credential : x.credential answer ≡ none
  pub cites :
      doc_q ≡ true
      → is_empty ctx.retrieved_docs ≡ false
      → is_some (first_cited x answer ctx.retrieved_docs) ≡ true

injection_on-clean :
    (a : InspectionAction) (reason : String) → (injection_on a reason).0 ≡ true → a ≢ deny
unfolding injection_on
injection_on-clean deny reason h = let z : false ≡ true = h in cc
injection_on-clean allow reason h = λ z. cc
injection_on-clean require_approval reason h = λ z. cc
injection_on-clean alert reason h = λ z. cc

module _ (x : Texts) (answer : String) (ctx : Context) where
  empty-has_text : (probe_empty x answer).0 ≡ true → (x.strip answer == "") ≡ false
  unfolding probe_empty
  empty-has_text h = elim (Bool-cases (x.strip answer == "")) [ inl e ↦ ground arith | inr e ↦ e ]

  budget-fits : (probe_budget x answer ctx).0 ≡ true → est_tokens x answer ≤ budget_of ctx
  unfolding probe_budget
  budget-fits h = leb→le (est_tokens x answer) (budget_of ctx) h

  injected-clean : (injected x answer).0 ≡ true → ¬ MustBlock x.search "external_content" answer ""
  unfolding injected
  injected-clean h m =
      injection_on-clean (inspect_text x.search "external_content" answer "").0.action _ h
        (inspect_text-MustBlock x.search "external_content" answer "" m)

  verdict-no_credential : (o : Option String) → (credential_verdict x o).0 ≡ true → o ≡ none
  unfolding credential_verdict
  verdict-no_credential none h = refl
  verdict-no_credential (some m) h = let z : false ≡ true = h in cc

  verdict-cites : (n : ℕ) (o : Option String) → (citation_verdict x n o).0 ≡ true → is_some o ≡ true
  unfolding citation_verdict
  verdict-cites n (some t) h = refl
  verdict-cites n none h = let z : false ≡ true = h in cc

  citation-cites :
      (probe_citation x answer ctx).0 ≡ true
      → is_empty ctx.retrieved_docs ≡ false
      → is_some (first_cited x answer ctx.retrieved_docs) ≡ true
  unfolding probe_citation
  citation-cites h e = verdict-cites _ (first_cited x answer ctx.retrieved_docs) (rw e at h)

  satisfied-stamp :
      (cs : List Isc)
      → All
          (λ c. c.satisfied ≡ true)
          (map (λ (c : Isc). stamp (run_probe x c.probe answer ctx) c) cs)
      → All (λ (c : Isc). (run_probe x c.probe answer ctx).0 ≡ true) cs
  unfolding stamp
  satisfied-stamp [] h = tt
  satisfied-stamp (c ∷ cs) h = (h.0, satisfied-stamp cs h.1)

  -- An artifact that is scaffolded for a task and then verified with all its criteria met has an answer
  -- with text, within the output budget, without anything that the inspectors must block in external
  -- content, without a credential, and, for a question about documents, citing one if any was retrieved.
  pub verify_isa-Done :
      (trace_id tenant_id subject prompt : String) (doc_q : Bool) (budget : ℕ)
      → met
          (verify_isa x (scaffold_isa x trace_id tenant_id subject prompt doc_q budget) answer ctx)
        ≡ total (
            verify_isa x (scaffold_isa x trace_id tenant_id subject prompt doc_q budget) answer ctx)
      → Done x doc_q answer ctx
  unfolding met total verify_isa scaffold_isa core_criteria criterion run_probe
  verify_isa-Done trace_id tenant_id subject prompt true budget h =
      let s = satisfied-stamp (scaffold_isa x trace_id tenant_id subject prompt true budget).iscs (
        All-kept (λ (c : Isc). c.satisfied)
          (verify_isa x (scaffold_isa x trace_id tenant_id subject prompt true budget) answer
            ctx).iscs
          h) in
      record {
        has_text = empty-has_text s.0;
        fits = budget-fits s.1.0;
        clean = injected-clean s.1.1.0;
        no_credential = verdict-no_credential (x.credential answer) s.1.1.1.0;
        cites = λ d e. citation-cites s.1.1.1.1.0 e;
      }
  verify_isa-Done trace_id tenant_id subject prompt false budget h =
      let s = satisfied-stamp (scaffold_isa x trace_id tenant_id subject prompt false budget).iscs (
        All-kept (λ (c : Isc). c.satisfied)
          (verify_isa x (scaffold_isa x trace_id tenant_id subject prompt false budget) answer
            ctx).iscs
          h) in
      record {
        has_text = empty-has_text s.0;
        fits = budget-fits s.1.0;
        clean = injected-clean s.1.1.0;
        no_credential = verdict-no_credential (x.credential answer) s.1.1.1.0;
        cites = λ d e. cc;
      }
