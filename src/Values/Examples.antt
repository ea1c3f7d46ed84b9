-- ===== src/Values/Examples.antt =====
-- Tests of the overlay, and its theorems at a concrete cascade.
use aegis_capstone.Common.{String, ◌≡◌, refl, true, false, [], ◌∷◌}
use aegis_capstone.Common.Dict.{Dict}
use aegis_capstone.Common.Integer.{pos}
use aegis_capstone.Json.{Scalar, text, int, flag}
use aegis_capstone.Rbac.{class_rank, classification_rank}
use aegis_capstone.Values.{
  Limits, apply_value_overlays, apply_scopes, apply_block, lower_max, lower_quota, lower_class,
  turn_strict,
}
use aegis_capstone.Values.Narrow.{Narrower, apply_value_overlays-Narrower}
use aegis_capstone.Values.Order.{view, apply_value_overlays_perm}
use mathlib.Core.List.Perm

abbrev role_limits : Limits
role_limits = record {
  max_output_tokens = 2048;
  max_input_tokens = 8192;
  token_budget_per_day = 0;
  daily_request_quota = 10;
  max_read_classification = text "confidential";
  max_write_classification = text "internal";
  write_requires_approval_above = text "restricted";
  residency_strict = false;
}

abbrev org : String × Dict Scalar
org = ("org", ("max_output_tokens", int (pos 512)) ∷ ("token_budget_per_day", int (pos 900)) ∷ [])

abbrev team : String × Dict Scalar
team = (
  "team",
  ("max_read_classification", text "internal")
      ∷ ("max_output_tokens", int (pos 4096))
      ∷ ("residency_strict", flag true)
      ∷ [],
)

overlay_run : (apply_value_overlays role_limits (org ∷ team ∷ [])).limits ≡ record role_limits {
  max_output_tokens = 512;
  token_budget_per_day = 900;
  max_read_classification = text "internal";
  residency_strict = true;
}
unfolding apply_value_overlays apply_scopes apply_block lower_max lower_quota lower_class
    turn_strict class_rank classification_rank
overlay_run = refl

apply_value_overlays-Narrower_example :
    Narrower (apply_value_overlays role_limits (org ∷ team ∷ [])).limits role_limits
apply_value_overlays-Narrower_example = apply_value_overlays-Narrower role_limits (org ∷ team ∷ [])

apply_value_overlays_perm_example :
    view (apply_value_overlays role_limits (org ∷ team ∷ [])).limits
    ≡ view (apply_value_overlays role_limits (team ∷ org ∷ [])).limits
apply_value_overlays_perm_example = apply_value_overlays_perm role_limits (Perm.swap team org [])
