-- ===== src/Memory/Examples.antt =====
-- A small memory, and the theorems on reads at it.
use aegis_capstone.Common.{
  ℕ, ◌≤◌, String, ◌≡◌, refl, false, some, List, [], ◌∷◌, map, ◌==◌, if◌then◌else◌, length, All,
}
use aegis_capstone.Memory.{
  read, Memory, QueryTerms, Search, groups, term_search, vector_search, unseen, newest_first,
  place_newer, in_scope, mentions,
}
use aegis_capstone.Memory.Distinct.{IsDistinct, read-IsDistinct}
use aegis_capstone.Memory.Permitted.{Permitted, read-Permitted}
use aegis_capstone.Memory.Terms.{
  Words, query_terms, reference_terms, security_terms, keyword_terms, tokens_of, unseen_keys,
}

-- Embeddings are numbers; the nearest rows come in the order of the table.
abbrev search : Search ℕ
search = record { embed = λ q. some 1; nearest = λ v ms. ms; ilike = λ body t. body == t }

abbrev memory : String → String → String → ℕ → Memory ℕ
memory id tenant class now = record {
  id = id;
  tenant_id = tenant;
  namespace = "team";
  author_user = "ann";
  author_scope = "user";
  classification = class;
  retention_class = "standard";
  policy_version = 1;
  values_version = 1;
  frontmatter = "{}";
  body = "plan";
  embedding = some 1;
  created_at = now;
}

abbrev table : List (Memory ℕ)
table =
    memory "1" "acme" "internal" 1
    ∷ memory "2" "globex" "internal" 2
    ∷ memory "3" "acme" "restricted" 3
    ∷ []

abbrev terms : QueryTerms
terms = record { references = []; security = []; keywords = "plan" ∷ [] }

abbrev ids : List (Memory ℕ) → List String
ids ms = map (λ m. m.id) ms

-- Internal rows only; with no class at all, the restricted row is read too.
reads :
    (ids (read search "acme" "team" "plan" terms 5 ("internal" ∷ []) table) ≡ "1" ∷ [])
    × (ids (read search "acme" "team" "plan" terms 5 [] table) ≡ "1" ∷ "3" ∷ [])
unfolding read groups term_search vector_search unseen newest_first place_newer in_scope mentions
reads = (refl, refl)

abbrev words : Words
words = record {
  references = λ q. "CS-1" ∷ "cs-1" ∷ [];
  matches = λ rx t. false;
  upper = λ s. if s == "cs-1" then "CS-1" else s;
  lower = λ s. s;
  split = λ s. "the" ∷ "plan" ∷ [];
  strip_punctuation = λ s. s;
  len = λ s. 3;
  prefix = λ n s. s;
}

finds :
    query_terms words "the plan"
    ≡ record { references = "CS-1" ∷ []; security = []; keywords = "plan" ∷ [] }
unfolding query_terms reference_terms security_terms keyword_terms tokens_of unseen_keys
finds = refl

read-Permitted_example :
    All
      (Permitted "acme" "team" ("internal" ∷ []))
      (read search "acme" "team" "plan" terms 5 ("internal" ∷ []) table)
read-Permitted_example =
    read-Permitted "acme" "team" ("internal" ∷ []) search (λ P v ms h. h) "plan" terms 5 table

read-IsDistinct_example :
    (length (read search "acme" "team" "plan" terms 5 [] table) ≤ 5)
    × IsDistinct (read search "acme" "team" "plan" terms 5 [] table)
read-IsDistinct_example = read-IsDistinct search "acme" "team" "plan" terms 5 [] table
