-- ===== src/Memory/Terms.antt =====
-- The terms of a query: `_reference_terms`, `_security_terms` and the tokens of `_keyword_search` in
-- src/aegis_fabric/memory.py.
use aegis_capstone.Common.{
  ℕ, String, Bool, true, false, ◌&&◌, not, List, [], ◌∷◌, ◌++◌, map, ◌==◌, leb, if◌then◌else◌,
  is_empty, keep, contains,
}
use aegis_capstone.Inspectors.Patterns.{Regex, regex}
use aegis_capstone.Memory.{read, QueryTerms, Search, Memory}

-- `if key not in seen`, where the key of a term is another case of it.
unfoldable pub unseen_keys : (String → String) → List String → List String → List String
unseen_keys key seen [] = []
unseen_keys key seen (t ∷ ts) =
    if contains (key t) seen then unseen_keys key seen ts else t ∷ unseen_keys key (key t ∷ seen) ts

-- `re`, and the functions on texts.
pub record Words : Type 0 where
  pub references : String → List String
  pub matches : Regex → String → Bool
  pub upper : String → String
  pub lower : String → String
  pub split : String → List String
  pub strip_punctuation : String → String
  pub len : String → ℕ
  pub prefix : ℕ → String → String

-- The patterns of `_security_terms`, the first of which is `_SECURITY_QUERY`.
abbrev pub security_query : Regex
security_query =
    regex
      "\\b(injection|prompt injection|canary|suspicious instruction|unsafe instruction|tool[- ]output|tool output excerpt|role escalation|grant role|grant their role|capability grants?|audit skip|audit-skipping|audit logging|access control|authorization|capabilities|governance memos?|policy notes?|team decision logs?|policy overridden|policy override|data exfiltration|ignore previous instructions|ignore all previous instructions|roles?)\\b"
      true

abbrev pub expansions : List (Regex × List String)
expansions =
    (
      regex "\\b(role|roles|access control|authorization|capabilit|grant)\\b" false,
      "Role Escalation" ∷ "grant their role" ∷ "grant role" ∷ "capability grant"
          ∷ "capability grants" ∷ [],
    )
    ∷ (
      regex "\\b(audit|logging|ledger|skip)\\b" false,
      "Suppress Audit" ∷ "audit ledger must skip" ∷ "audit-skipping" ∷ "audit skip" ∷ [],
    )
    ∷ (
      regex "\\b(tool[- ]output|tool output excerpt|suspicious|unsafe)\\b" false,
      "Tool Output" ∷ "tool-output excerpt" ∷ "IGNORE ALL PREVIOUS INSTRUCTIONS" ∷ [],
    )
    ∷ (
      regex "\\b(data exfiltration|exfiltrat|secret|secrets)\\b" false,
      "Data Exfiltration" ∷ "exfiltrate" ∷ "secrets" ∷ [],
    )
    ∷ (
      regex "\\b(policy|governance|memo|memos|notes|team decision)\\b" false,
      "governance memo" ∷ "policy notes" ∷ "team decisions" ∷ "Injection Canary" ∷ [],
    )
    ∷ []

abbrev pub base_terms : List String
base_terms =
    "Injection Canary" ∷ "Prompt Injection Canary" ∷ "is_injection_canary" ∷ "canary_type"
    ∷ "suspicious instruction" ∷ "unsafe instruction" ∷ "IGNORE ALL PREVIOUS INSTRUCTIONS"
    ∷ "POLICY OVERRIDDEN" ∷ []

abbrev pub stopwords : List String
stopwords =
    "the" ∷ "a" ∷ "an" ∷ "and" ∷ "or" ∷ "of" ∷ "to" ∷ "in" ∷ "on" ∷ "is" ∷ "are" ∷ "was" ∷ "were"
    ∷ "for" ∷ "with" ∷ "at" ∷ "by" ∷ "this" ∷ "that" ∷ "it" ∷ "be" ∷ "as" ∷ "from" ∷ "what" ∷ "who"
    ∷ "you" ∷ "me" ∷ "i" ∷ "do" ∷ "does" ∷ "did" ∷ "tell" ∷ "give" ∷ "show" ∷ "please" ∷ "summarise"
    ∷ "summarize" ∷ "summary" ∷ "about" ∷ "can" ∷ "could" ∷ "would" ∷ "should" ∷ "have" ∷ "has"
    ∷ "had" ∷ "my" ∷ "your" ∷ "our" ∷ "their" ∷ "its" ∷ "they" ∷ "them" ∷ "we" ∷ "us" ∷ "he" ∷ "she"
    ∷ "his" ∷ "her" ∷ "there" ∷ "here" ∷ "into" ∷ "over" ∷ "under" ∷ "than" ∷ "then" ∷ "but" ∷ "if"
    ∷ []

module _ (w : Words) where
  -- `_reference_terms`
  unfoldable pub reference_terms : String → List String
  reference_terms query = unseen_keys w.upper [] (w.references query)

  unfoldable pub expanded : List (Regex × List String) → String → List String
  expanded [] t = []
  expanded ((rx, terms) ∷ rest) t =
      if w.matches rx t then terms ++ expanded rest t else expanded rest t

  -- `_security_terms`
  unfoldable pub security_terms : String → List String
  security_terms query =
      if not (w.matches security_query (w.lower query))
      then []
      else unseen_keys w.lower [] (base_terms ++ expanded expansions (w.lower query))

  unfoldable pub tokens_of : String → List String
  tokens_of query =
      keep (λ t. leb 3 (w.len t) && not (contains t stopwords))
        (map (λ t. w.lower (w.strip_punctuation t)) (w.split query))

  -- The tokens of `_keyword_search`.
  unfoldable pub keyword_terms : String → List String
  keyword_terms query =
      if is_empty (tokens_of query) && not (query == "")
      then w.lower (w.prefix 80 query) ∷ []
      else tokens_of query

  -- What `read` makes of its query.
  unfoldable pub query_terms : String → QueryTerms
  query_terms query = record {
    references = reference_terms query;
    security = security_terms query;
    keywords = keyword_terms query;
  }

  -- `MemoryStore.read`, with the terms of its query.
  unfoldable pub read_query :
      {V : Type 0}
      → Search V
      → String
      → String
      → String
      → ℕ
      → List String
      → List (Memory V)
      → List (Memory V)
  read_query x tenant_id namespace query limit allowed table =
      read x tenant_id namespace query (query_terms query) limit allowed table
