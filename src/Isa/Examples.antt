-- ===== src/Isa/Examples.antt =====
-- The artifact of a task, and the theorem at it.
use aegis_capstone.Common.{◌≡◌, refl, true, false, ◌&&◌, none, some, [], ◌∷◌, ◌==◌, if◌then◌else◌}
use aegis_capstone.Inspectors.{
  inspect_text, run, by_priority, place, loop, round, close, default_pipeline, pattern_inspect,
  egress_inspect, is_outbound, first_match, injection_inspect, injection_of, must_deny,
}
use aegis_capstone.Inspectors.Patterns.{
  dangerous, outbound_tools, credentials, egress_alerts, injection, hard_categories,
}
use aegis_capstone.Isa.{
  Context, Isa, Texts, met, scaffold_isa, total, verify_isa, core_criteria, criterion, run_probe,
  probe_empty, probe_budget, injected, credential_verdict, first_cited, citation_verdict,
  probe_citation, stamp, injection_on, budget_of, est_tokens,
}
use aegis_capstone.Isa.Verified.{Done, verify_isa-Done}

abbrev texts : Texts
texts = record {
  strip = λ s. s;
  lower = λ s. s;
  len = λ s. if s == "because of plan A" then 17 else 0;
  is_in = λ t s. t == "plan A" && s == "because of plan A";
  prefix = λ n s. s;
  str = λ n. "n";
  credential = λ s. if s == "sk-ant-1" then some "sk-ant-" else none;
  search = λ rx t. false;
}

abbrev context : Context
context = record { max_output_tokens = 8; retrieved_docs = "plan A" ∷ [] }

abbrev task : Isa
task = scaffold_isa texts "t1" "acme" "ann" "why?" true 8

meets :
    (met (verify_isa texts task "because of plan A" context)
      ≡ total (verify_isa texts task "because of plan A" context))
    × (met (verify_isa texts task "sk-ant-1" context) ≡ 3)
    × (met (verify_isa texts task "" context) ≡ 3)
unfolding met total verify_isa scaffold_isa core_criteria criterion run_probe probe_empty
    probe_budget injected credential_verdict first_cited citation_verdict probe_citation stamp
    injection_on budget_of est_tokens inspect_text run by_priority place loop round close
    default_pipeline pattern_inspect dangerous egress_inspect is_outbound outbound_tools first_match
    credentials egress_alerts injection_inspect injection injection_of must_deny hard_categories
meets = (refl, refl, refl)

verify_isa-Done_example : Done texts true "because of plan A" context
verify_isa-Done_example =
    verify_isa-Done texts "because of plan A" context "t1" "acme" "ann" "why?" true 8 meets.0
