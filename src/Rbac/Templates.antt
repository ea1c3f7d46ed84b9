-- ===== src/Rbac/Templates.antt =====
-- The role templates of src/aegis_fabric/rbac.py (`DEFAULT_TEMPLATES`).
use aegis_capstone.Common.{true, false, [], ◌∷◌, String}
use aegis_capstone.Common.Dict.{Dict}
use aegis_capstone.Json.{Value, texts, v_flag, v_int, v_text}

pub record Template : Type 0 where
  pub display_name : String
  pub capabilities : Dict Value

unfoldable pub analyst_template : Template
analyst_template = record {
  display_name = "Analyst";
  capabilities =
      (
        "skills",
        texts ("assistant" ∷ "summarise-with-memory" ∷ "research-brief" ∷ "qa-over-docs" ∷ []),
      )
      ∷ (
        "tools",
        texts (
            "external_lookup" ∷ "web_search" ∷ "web_fetch" ∷ "kb_search" ∷ "vector_recall"
            ∷ "doc_search" ∷ "calculator" ∷ "db_query" ∷ []),
      )
      ∷ ("readable_namespaces", texts ("analyst-notes" ∷ []))
      ∷ ("writable_namespaces", texts ("analyst-notes" ∷ []))
      ∷ ("allowed_model_regions", texts ("AC1" ∷ []))
      ∷ ("max_summary_words", v_int 200)
      ∷ ("runtime_exec", v_flag false)
      ∷ ("max_read_classification", v_text "confidential")
      ∷ ("max_write_classification", v_text "internal")
      ∷ ("max_model_risk_tier", v_text "T2")
      ∷ ("admin_scope", v_text "none")
      ∷ ("audit_scope", v_text "own")
      ∷ ("pii_scope", v_text "masked")
      ∷ ("allowed_model_purposes", texts ("chat" ∷ "embedding" ∷ []))
      ∷ ("egress_domains", texts ("wikipedia.org" ∷ "example.com" ∷ []))
      ∷ ("max_output_tokens", v_int 2048)
      ∷ ("max_tool_calls_per_request", v_int 6)
      ∷ ("token_budget_per_day", v_int 10000)
      ∷ [];
}

unfoldable pub lead_template : Template
lead_template = record {
  display_name = "Lead";
  capabilities =
      (
        "skills",
        texts (
            "assistant" ∷ "summarise-with-memory" ∷ "research-brief" ∷ "qa-over-docs"
            ∷ "meeting-notes" ∷ []),
      )
      ∷ (
        "tools",
        texts (
            "external_lookup" ∷ "web_search" ∷ "web_fetch" ∷ "kb_search" ∷ "vector_recall"
            ∷ "doc_search" ∷ "calculator" ∷ "db_query" ∷ "code_exec" ∷ "email_send" ∷ "redact"
            ∷ []),
      )
      ∷ ("readable_namespaces", texts ("analyst-notes" ∷ "team-decisions" ∷ []))
      ∷ ("writable_namespaces", texts ("analyst-notes" ∷ "team-decisions" ∷ []))
      ∷ ("allowed_model_regions", texts ("AC1" ∷ []))
      ∷ ("max_summary_words", v_int 300)
      ∷ ("runtime_exec", v_flag true)
      ∷ ("max_read_classification", v_text "confidential")
      ∷ ("max_write_classification", v_text "confidential")
      ∷ ("max_model_risk_tier", v_text "T3")
      ∷ ("admin_scope", v_text "none")
      ∷ ("audit_scope", v_text "team")
      ∷ ("pii_scope", v_text "full")
      ∷ ("allowed_model_purposes", texts ("chat" ∷ "embedding" ∷ "code" ∷ []))
      ∷ ("egress_domains", texts ("wikipedia.org" ∷ "example.com" ∷ []))
      ∷ ("max_output_tokens", v_int 8192)
      ∷ ("max_tool_calls_per_request", v_int 8)
      ∷ ("can_export", v_flag true)
      ∷ ("max_export_classification", v_text "internal")
      ∷ ("max_retention_class", v_text "long")
      ∷ ("allowed_retention_classes", texts ("ephemeral" ∷ "standard" ∷ "long" ∷ []))
      ∷ ("runtime_max_seconds", v_int 60)
      ∷ ("runtime_memory_mb", v_int 512)
      ∷ ("runtime_network", v_text "none")
      ∷ ("allowed_runtime_languages", texts ("python" ∷ []))
      ∷ ("can_approve", v_text "team")
      ∷ ("token_budget_per_day", v_int 20000)
      ∷ [];
}

unfoldable pub viewer_template : Template
viewer_template = record {
  display_name = "Viewer";
  capabilities =
      ("skills", texts ("assistant" ∷ "qa-over-docs" ∷ "kb-answer" ∷ []))
      ∷ ("tools", texts ("kb_search" ∷ "vector_recall" ∷ "doc_search" ∷ "calculator" ∷ []))
      ∷ ("readable_namespaces", texts ("analyst-notes" ∷ []))
      ∷ ("writable_namespaces", texts [])
      ∷ ("allowed_model_regions", texts ("AC1" ∷ []))
      ∷ ("max_summary_words", v_int 200)
      ∷ ("runtime_exec", v_flag false)
      ∷ ("max_read_classification", v_text "internal")
      ∷ ("max_write_classification", v_text "public")
      ∷ ("max_model_risk_tier", v_text "T2")
      ∷ ("admin_scope", v_text "none")
      ∷ ("audit_scope", v_text "own")
      ∷ ("pii_scope", v_text "none")
      ∷ ("allowed_model_purposes", texts ("chat" ∷ []))
      ∷ ("max_output_tokens", v_int 512)
      ∷ ("max_tool_calls_per_request", v_int 2)
      ∷ ("token_budget_per_day", v_int 4000)
      ∷ [];
}

unfoldable pub tenant_admin_template : Template
tenant_admin_template = record {
  display_name = "Tenant Admin";
  capabilities =
      (
        "skills",
        texts (
            "assistant" ∷ "summarise-with-memory" ∷ "research-brief" ∷ "qa-over-docs"
            ∷ "meeting-notes" ∷ "access-review" ∷ []),
      )
      ∷ (
        "tools",
        texts (
            "external_lookup" ∷ "web_search" ∷ "web_fetch" ∷ "kb_search" ∷ "vector_recall"
            ∷ "doc_search" ∷ "calculator" ∷ "db_query" ∷ "doc_retrieve" ∷ "redact" ∷ []),
      )
      ∷ ("readable_namespaces", texts ("analyst-notes" ∷ "team-decisions" ∷ []))
      ∷ ("writable_namespaces", texts ("analyst-notes" ∷ "team-decisions" ∷ []))
      ∷ ("allowed_model_regions", texts ("AC1" ∷ []))
      ∷ ("max_summary_words", v_int 300)
      ∷ ("runtime_exec", v_flag false)
      ∷ ("max_read_classification", v_text "confidential")
      ∷ ("max_write_classification", v_text "confidential")
      ∷ ("max_model_risk_tier", v_text "T3")
      ∷ ("admin_scope", v_text "tenant")
      ∷ ("can_manage_users", v_flag true)
      ∷ ("can_manage_roles", v_flag true)
      ∷ ("can_edit_governance", v_flag true)
      ∷ ("can_register_skills", v_flag false)
      ∷ ("audit_scope", v_text "tenant")
      ∷ ("pii_scope", v_text "full")
      ∷ ("allowed_model_purposes", texts ("chat" ∷ "embedding" ∷ "code" ∷ "vision" ∷ []))
      ∷ ("max_output_tokens", v_int 8192)
      ∷ ("can_export", v_flag true)
      ∷ ("max_export_classification", v_text "confidential")
      ∷ ("max_retention_class", v_text "legal-hold")
      ∷ ("allowed_retention_classes", texts ("ephemeral" ∷ "standard" ∷ "long" ∷ "legal-hold" ∷ []))
      ∷ ("can_erase", v_flag true)
      ∷ ("can_manage_teams", v_flag true)
      ∷ ("can_approve", v_text "tenant")
      ∷ ("dual_control_actions", texts ("governance.edit" ∷ []))
      ∷ ("token_budget_per_day", v_int 24000)
      ∷ [];
}

unfoldable pub platform_admin_template : Template
platform_admin_template = record {
  display_name = "Platform Admin";
  capabilities =
      (
        "skills",
        texts (
            "assistant" ∷ "summarise-with-memory" ∷ "research-brief" ∷ "qa-over-docs"
            ∷ "meeting-notes" ∷ "access-review" ∷ "incident-summary" ∷ "audit-digest"
            ∷ "runbook-exec" ∷ []),
      )
      ∷ (
        "tools",
        texts (
            "external_lookup" ∷ "web_search" ∷ "web_fetch" ∷ "kb_search" ∷ "vector_recall"
            ∷ "doc_search" ∷ "calculator" ∷ "db_query" ∷ "doc_retrieve" ∷ "pdf_extract" ∷ "redact"
            ∷ "code_exec" ∷ "email_send" ∷ "ticket_create" ∷ "ticket_update" ∷ "crm_lookup"
            ∷ "file_export" ∷ "webhook_call" ∷ []),
      )
      ∷ ("readable_namespaces", texts ("analyst-notes" ∷ "team-decisions" ∷ []))
      ∷ ("writable_namespaces", texts ("analyst-notes" ∷ "team-decisions" ∷ []))
      ∷ ("allowed_model_regions", texts ("AC1" ∷ []))
      ∷ ("max_summary_words", v_int 400)
      ∷ ("runtime_exec", v_flag true)
      ∷ ("max_read_classification", v_text "restricted")
      ∷ ("max_write_classification", v_text "restricted")
      ∷ ("max_model_risk_tier", v_text "T3")
      ∷ ("admin_scope", v_text "platform")
      ∷ ("can_manage_users", v_flag true)
      ∷ ("can_manage_roles", v_flag true)
      ∷ ("can_edit_governance", v_flag true)
      ∷ ("can_register_skills", v_flag true)
      ∷ ("audit_scope", v_text "all")
      ∷ ("can_delete_tenant", v_flag true)
      ∷ ("pii_scope", v_text "full")
      ∷ ("allowed_model_purposes", texts ("chat" ∷ "embedding" ∷ "code" ∷ "vision" ∷ []))
      ∷ ("egress_domains", texts ("*" ∷ []))
      ∷ ("max_output_tokens", v_int 16384)
      ∷ ("max_tool_calls_per_request", v_int 16)
      ∷ ("can_export", v_flag true)
      ∷ ("max_export_classification", v_text "restricted")
      ∷ ("max_retention_class", v_text "legal-hold")
      ∷ ("allowed_retention_classes", texts ("ephemeral" ∷ "standard" ∷ "long" ∷ "legal-hold" ∷ []))
      ∷ ("can_erase", v_flag true)
      ∷ ("can_manage_teams", v_flag true)
      ∷ ("can_rotate_secrets", v_flag true)
      ∷ ("can_view_traces", v_flag true)
      ∷ ("can_manage_signing_keys", v_flag true)
      ∷ ("can_impersonate", v_text "read")
      ∷ ("can_approve", v_text "platform")
      ∷ ("dual_control_actions", texts ("tenant.delete" ∷ "secret.rotate" ∷ []))
      ∷ ("runtime_max_seconds", v_int 120)
      ∷ ("runtime_memory_mb", v_int 1024)
      ∷ ("allowed_runtime_languages", texts ("python" ∷ "bash" ∷ []))
      ∷ ("token_budget_per_day", v_int 40000)
      ∷ [];
}

unfoldable pub default_templates : Dict Template
unfolding analyst_template lead_template viewer_template tenant_admin_template
    platform_admin_template
default_templates =
    ("analyst", analyst_template)
    ∷ ("lead", lead_template)
    ∷ ("viewer", viewer_template)
    ∷ ("tenant-admin", tenant_admin_template)
    ∷ ("platform-admin", platform_admin_template)
    ∷ []
