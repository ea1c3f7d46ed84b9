-- ===== src/Rbac/Examples.antt =====
-- Tests of the capability maps, and the theorems at concrete roles.
use aegis_capstone.Common.{◌≡◌, refl, none, some, [], ◌∷◌}
use aegis_capstone.Common.Dict.{Dict, lookup}
use aegis_capstone.Json.{Value, v_int, v_text, texts}
use aegis_capstone.Rbac.{
  normalize_caps, empty_caps, classification_rank, derived_caps, template_capabilities,
  default_templates,
}

-- One capability of the schema and one key that the schema does not have.
abbrev stored : Dict Value
stored = ("max_output_tokens", v_int 64) ∷ ("is_root", v_int 1) ∷ []

unknown_key_dropped : lookup "is_root" (normalize_caps (some stored)) ≡ none
unfolding normalize_caps empty_caps
unknown_key_dropped = refl

viewer_writes :
    lookup "max_write_classification" (template_capabilities "viewer") ≡ some (v_text "public")
unfolding template_capabilities empty_caps default_templates
viewer_writes = refl

derived_default :
    lookup "readable_classifications" (derived_caps []) ≡ some (texts ("public" ∷ "internal" ∷ []))
unfolding derived_caps classification_rank
derived_default = refl
