-- ===== src/Memory.antt =====
-- The memory store, src/aegis_fabric/memory.py, over the table `memories`. The embedding model and
-- pgvector's order are parameters, and so are `re`, `ILIKE`, `str.lower`, `str.split`, `str.strip`,
-- slices and lengths of texts. Scores and metrics are left out.
pub mod Terms
pub mod Permitted
pub mod Distinct
mod Examples
use aegis_capstone.Common.{
  ◌<>◌, ℕ, zero, suc, ◌+◌, ◌-◌, ◌≤◌, ◌<◌, String, ◌≡◌, refl, sym, ap, ◌∙◌, ◌≢◌, ◌⊎◌, inl, inr, Bool,
  true, false, ◌&&◌, ◌||◌, not, Option, none, some, List, [], ◌∷◌, ◌++◌, map, arith, ◌==◌, eq_iff,
  ltb, leb, eqb, if◌then◌else◌, Bool-cases, Option-cases, or_else, is_some, length, is_empty, keep,
  any, All, contains, max, take,
}

-- A row of `memories`; the frontmatter is its JSON text.
pub record Memory (V : Type 0) : Type 0 where
  pub id : String
  pub tenant_id : String
  pub namespace : String
  pub author_user : String
  pub author_scope : String
  pub classification : String
  pub retention_class : String
  pub policy_version : ℕ
  pub values_version : ℕ
  pub frontmatter : String
  pub body : String
  pub embedding : Option V
  pub created_at : ℕ

-- The libraries: the embedding of a text, rows in the order of their distance from it, and `ILIKE` with a
-- pattern of a part.
pub record Search (V : Type 0) : Type 0 where
  pub embed : String → Option V
  pub nearest : V → List (Memory V) → List (Memory V)
  pub ilike : String → String → Bool

-- The terms that a query is searched by: references, expansions of a governance question, and keywords.
pub record QueryTerms : Type 0 where
  pub references : List String
  pub security : List String
  pub keywords : List String

-- The arguments of a write.
pub record Draft : Type 0 where
  pub tenant_id : String
  pub namespace : String
  pub author_user : String
  pub author_scope : String
  pub body : String
  pub frontmatter : String
  pub classification : String
  pub retention_class : String

module _ {V : Type 0} where
  unfoldable pub row_of : String → ℕ → Draft → ℕ → ℕ → String → Option V → Memory V
  row_of id now d policy_version values_version frontmatter embedding = record {
    id = id;
    tenant_id = d.tenant_id;
    namespace = d.namespace;
    author_user = d.author_user;
    author_scope = d.author_scope;
    classification = d.classification;
    retention_class = d.retention_class;
    policy_version = policy_version;
    values_version = values_version;
    frontmatter = frontmatter;
    body = d.body;
    embedding = embedding;
    created_at = now;
  }

  -- `WHERE tenant_id=%s AND namespace=%s`, and the classes if there are any.
  unfoldable pub in_scope : String → String → List String → Memory V → Bool
  in_scope tenant_id namespace allowed m =
      m.tenant_id == tenant_id
      && (m.namespace == namespace && (is_empty allowed || contains m.classification allowed))

  -- `ORDER BY created_at DESC`
  unfoldable pub place_newer : Memory V → List (Memory V) → List (Memory V)
  place_newer m [] = m ∷ []
  place_newer m (n ∷ ns) =
      if ltb m.created_at n.created_at then n ∷ place_newer m ns else m ∷ n ∷ ns

  unfoldable pub newest_first : List (Memory V) → List (Memory V)
  newest_first [] = []
  newest_first (m ∷ ms) = place_newer m (newest_first ms)

  module _ (x : Search V) where
    -- `(body ILIKE %s OR frontmatter::text ILIKE %s)` for one of the terms
    unfoldable pub mentions : List String → Memory V → Bool
    mentions terms m = any (λ t. x.ilike m.body t || x.ilike m.frontmatter t) terms

    -- `_reference_search`, `_security_search` and `_keyword_search`, which differ in their terms, of
    -- which only so many are used, and in their limits.
    unfoldable pub term_search :
        ℕ → String → String → List String → ℕ → List String → List (Memory V) → List (Memory V)
    term_search used tenant_id namespace terms limit allowed table =
        if is_empty terms
        then []
        else take limit (
            newest_first (
              keep (λ m. in_scope tenant_id namespace allowed m && mentions (take used terms) m)
                table))

    -- `_vector_search`
    unfoldable pub vector_search :
        String → String → Option V → ℕ → List String → List (Memory V) → List (Memory V)
    vector_search tenant_id namespace none limit allowed table = []
    vector_search tenant_id namespace (some vec) limit allowed table = take limit (
        x.nearest vec
          (keep (λ m. in_scope tenant_id namespace allowed m && is_some m.embedding) table))

    -- `if rid and rid not in seen`
    unfoldable pub unseen : List String → List (Memory V) → List (Memory V)
    unseen seen [] = []
    unseen seen (m ∷ ms) =
        if m.id == "" || contains m.id seen then unseen seen ms else m ∷ unseen (m.id ∷ seen) ms

    -- The four groups, in the order in which they are listed.
    unfoldable pub groups :
        String → String → String → QueryTerms → ℕ → List String → List (Memory V) → List (Memory V)
    groups tenant_id namespace query terms limit allowed table =
        term_search 8 tenant_id namespace terms.references limit allowed table
        ++ (term_search 32 tenant_id namespace terms.security (max limit 6) allowed table
            ++ (vector_search tenant_id namespace (x.embed query) limit allowed table
                ++ term_search 24 tenant_id namespace terms.keywords limit allowed table))

    -- `MemoryStore.read`
    unfoldable pub read :
        String → String → String → QueryTerms → ℕ → List String → List (Memory V) → List (Memory V)
    read tenant_id namespace query terms limit allowed table =
        take limit (unseen [] (groups tenant_id namespace query terms limit allowed table))

    -- `MemoryStore.write`, with the id and the time that the database gives.
    unfoldable pub write : String → ℕ → Draft → ℕ → ℕ → List (Memory V) → String × List (Memory V)
    write id now d policy_version values_version table = (
      id,
      table ++ row_of id now d policy_version values_version d.frontmatter (x.embed d.body) ∷ [],
    )

  -- `MemoryStore.write_simple`: no embedding, and the versions are 0.
  unfoldable pub write_simple : String → ℕ → Draft → List (Memory V) → String × List (Memory V)
  write_simple id now d table = (id, table ++ row_of id now d 0 0 "{}" none ∷ [])
