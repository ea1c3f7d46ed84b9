-- ===== src/Rbac/Schema.antt =====
-- The capability schema of src/aegis_fabric/rbac.py (`EMPTY_CAPS`), in the order of its text.
use aegis_capstone.Common.{true, false, [], ◌∷◌}
use aegis_capstone.Common.Dict.{Dict}
use aegis_capstone.Json.{Value, texts, v_flag, v_int, v_text}

unfoldable pub empty_caps : Dict Value
empty_caps =
    ("skills", texts [])
    ∷ ("tools", texts [])
    ∷ ("readable_namespaces", texts [])
    ∷ ("writable_namespaces", texts [])
    ∷ ("allowed_model_regions", texts [])
    ∷ ("max_summary_words", v_int 0)
    ∷ ("runtime_exec", v_flag false)
    ∷ ("max_read_classification", v_text "internal")
    ∷ ("max_write_classification", v_text "internal")
    ∷ ("allowed_providers", texts [])
    ∷ ("allowed_model_ids", texts [])
    ∷ ("max_model_risk_tier", v_text "T3")
    ∷ ("require_local_above_classification", v_text "restricted")
    ∷ ("admin_scope", v_text "none")
    ∷ ("can_manage_users", v_flag false)
    ∷ ("can_manage_roles", v_flag false)
    ∷ ("can_edit_governance", v_flag false)
    ∷ ("can_register_skills", v_flag false)
    ∷ ("audit_scope", v_text "own")
    ∷ ("can_delete_tenant", v_flag false)
    ∷ ("pii_scope", v_text "none")
    ∷ ("allowed_retention_classes", texts ("standard" ∷ []))
    ∷ ("max_retention_class", v_text "standard")
    ∷ ("can_erase", v_flag false)
    ∷ ("erase_requires_approval", v_flag true)
    ∷ ("egress_domains", texts [])
    ∷ ("can_export", v_flag false)
    ∷ ("max_export_classification", v_text "internal")
    ∷ ("max_tool_calls_per_request", v_int 4)
    ∷ ("allowed_model_purposes", texts ("chat" ∷ []))
    ∷ ("max_input_tokens", v_int 8192)
    ∷ ("max_output_tokens", v_int 1024)
    ∷ ("token_budget_per_day", v_int 0)
    ∷ ("fallback_mode", v_text "degrade_local")
    ∷ ("residency_strict", v_flag false)
    ∷ ("rate_limit_per_minute", v_int 0)
    ∷ ("daily_request_quota", v_int 0)
    ∷ ("max_concurrent_requests", v_int 0)
    ∷ ("runtime_max_seconds", v_int 0)
    ∷ ("runtime_memory_mb", v_int 0)
    ∷ ("runtime_network", v_text "none")
    ∷ ("allowed_runtime_languages", texts [])
    ∷ ("write_requires_approval_above", v_text "restricted")
    ∷ ("dual_control_actions", texts [])
    ∷ ("can_approve", v_text "none")
    ∷ ("can_manage_teams", v_flag false)
    ∷ ("can_rotate_secrets", v_flag false)
    ∷ ("can_view_traces", v_flag false)
    ∷ ("can_manage_signing_keys", v_flag false)
    ∷ ("can_impersonate", v_text "none")
    ∷ ("session_max_minutes", v_int 0)
    ∷ []
