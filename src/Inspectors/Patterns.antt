-- ===== src/Inspectors/Patterns.antt =====
-- The pattern tables of src/aegis_fabric/inspectors.py.
use aegis_capstone.Common.{String, Bool, true, false, List, [], ◌∷◌}

-- The arguments of `re.compile`: the pattern and whether `re.I` is given.
pub data Regex : Type 0 where
  regex : String → Bool → Regex

-- An entry of `_DANGEROUS`, with its finding id and its description.
pub data Dangerous : Type 0 where
  threat : Regex → String → String → Dangerous

-- An entry of the other tables, with its label or category.
pub data Labelled : Type 0 where
  labelled : Regex → String → Labelled

unfoldable pub dangerous : List Dangerous
dangerous =
    threat (regex "\\brm\\s+-rf\\s+[~/]" false) "rm-rf-root" "recursive delete of a root/home path"
    ∷ threat (regex "\\bmkfs\\.\\w+\\b" false) "mkfs" "filesystem format"
    ∷ threat (regex "\\bdd\\s+.*of=/dev/" false) "dd-to-device" "raw write to a block device"
    ∷ threat (regex ":\\(\\)\\s*\\{\\s*:\\|:&\\s*\\};:" false) "fork-bomb" "shell fork bomb"
    ∷ threat (regex "\\bchmod\\s+-R\\s+0?777\\s+/" false) "chmod-777-root" "world-writable root"
    ∷ threat (regex "\\b(curl|wget)\\b[^|]*\\|\\s*(sudo\\s+)?(bash|sh)\\b" false) "pipe-to-shell"
        "download piped to a shell"
    ∷ []

unfoldable pub outbound_tools : Regex
outbound_tools = regex "\\b(curl|wget|nc|ncat|socat|fetch|sendmail)\\b" true

unfoldable pub credentials : List Labelled
credentials =
    labelled (regex "sk-ant-" false) "Anthropic API key"
    ∷ labelled (regex "sk-proj-" false) "OpenAI project key"
    ∷ labelled (regex "nvapi-" false) "NVIDIA API key"
    ∷ labelled (regex "sk_live_|sk_test_" false) "Stripe key"
    ∷ labelled (regex "-----BEGIN [A-Z ]*PRIVATE KEY-----" false) "private key material"
    ∷ labelled (regex "\\bwhsec_" false) "webhook secret"
    ∷ labelled (regex "\\b[A-Za-z0-9_-]*(password|secret|token)\\s*[:=]\\s*\\S{6,}" true)
        "inline credential"
    ∷ []

unfoldable pub egress_alerts : List Labelled
egress_alerts =
    labelled (regex "curl.*(-X\\s*POST|--data|\\s-d\\s)" true) "HTTP POST via curl"
    ∷ labelled (regex "wget.*(--post-data|--post-file)" true) "HTTP POST via wget"
    ∷ labelled (regex "\\b(python3?|node|ruby)\\s+-(c|e)\\s" true) "inline interpreter execution"
    ∷ labelled (regex "^\\s*(printenv|env|set)\\s*$" true) "environment variable dump"
    ∷ []

unfoldable pub injection : List Labelled
injection =
    labelled (regex "ignore\\s+(all\\s+)?previous\\s+instructions" true) "instruction_override"
    ∷ labelled (regex "disregard\\s+(all\\s+)?(prior|previous|above)" true) "instruction_override"
    ∷ labelled (regex "forget\\s+(everything|what|all|your)\\s+(you\\s+)?(were|know|previous)" true)
        "instruction_override"
    ∷ labelled (regex "your\\s+new\\s+instructions\\s+are" true) "instruction_override"
    ∷ labelled (regex "you\\s+are\\s+now\\s+in\\s+\\w+\\s+mode" true) "instruction_override"
    ∷ labelled (regex "system\\s+override\\s*[:\\s]" true) "system_impersonation"
    ∷ labelled (regex "\\[(SYSTEM|ADMIN)\\]\\s*:" true) "system_impersonation"
    ∷ labelled (regex "admin\\s+command\\s*[:\\s]" true) "system_impersonation"
    ∷ labelled (regex "maintenance\\s+mode\\s*[:\\s]" true) "system_impersonation"
    ∷ labelled
        (regex "send\\s+(your|the|all)\\s+(config|credentials|secrets|keys|tokens)\\s+to" true)
        "exfiltration"
    ∷ labelled (regex "exfiltrate|upload\\s+(your|the)\\s+(data|config|secrets)" true)
        "exfiltration"
    ∷ labelled (regex "disable\\s+(all\\s+)?(security|logging|monitoring|protection)" true)
        "dangerous_action"
    ∷ labelled
        (regex "<!--\\s*(ignore|forget|system|admin|override|execute|delete|you\\s+must)" true)
        "hidden_instruction"
    ∷ labelled (regex "display\\s*:\\s*none" true) "hidden_instruction"
    ∷ []

-- `_HARD_CATEGORIES`
unfoldable pub hard_categories : List String
hard_categories = "exfiltration" ∷ "dangerous_action" ∷ "system_impersonation" ∷ []
