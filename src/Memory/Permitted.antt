-- ===== src/Memory/Permitted.antt =====
-- What a read of the memory returns is in the scope of the reader.
use aegis_capstone.Common.{
  ℕ, String, ◌≡◌, inl, inr, Bool, true, false, ◌&&◌, ◌||◌, Option, none, some, List, [], ◌∷◌, arith,
  ◌==◌, eq_iff, ltb, Bool-cases, is_some, is_empty, All, contains, take, All-append, max, All-take,
  All-keep,
}
use aegis_capstone.Memory.{
  Memory, in_scope, term_search, vector_search, Search, newest_first, place_newer, read, unseen,
  groups, mentions, QueryTerms,
}

module _ {V : Type 0} (P : Memory V → Type 0) where
  All-place_newer :
      (m : Memory V) (ms : List (Memory V)) → P m → All P ms → All P (place_newer m ms)
  unfolding place_newer
  All-place_newer m [] h k = (h, tt)
  All-place_newer m (n ∷ ns) h k = elim (Bool-cases (ltb m.created_at n.created_at)) [
    | inl e ↦ rw e (k.0, All-place_newer m ns h k.1)
    | inr e ↦ rw e (h, k)
  ]

  All-newest_first : (ms : List (Memory V)) → All P ms → All P (newest_first ms)
  unfolding newest_first
  All-newest_first [] h = tt
  All-newest_first (m ∷ ms) h = All-place_newer m (newest_first ms) h.0 (All-newest_first ms h.1)

  All-unseen :
      (x : Search V) (seen : List String) (ms : List (Memory V))
      → All P ms
      → All P (unseen x seen ms)
  unfolding unseen
  All-unseen x seen [] h = tt
  All-unseen x seen (m ∷ ms) h = elim (Bool-cases (m.id == "" || contains m.id seen)) [
    | inl e ↦ rw e (All-unseen x seen ms h.1)
    | inr e ↦ rw e (h.0, All-unseen x (m.id ∷ seen) ms h.1)
  ]

-- A row of this tenant and namespace, and of one of the classes, unless there are none of these.
pub record Permitted {V : Type 0} (tenant_id namespace : String) (allowed : List String)
    (m : Memory V) : Type 0 where
  pub own_tenant : m.tenant_id ≡ tenant_id
  pub own_namespace : m.namespace ≡ namespace
  pub readable : is_empty allowed ≡ false → contains m.classification allowed ≡ true

module _ {V : Type 0} (tenant_id namespace : String) (allowed : List String) where
  in_scope-Permitted :
      (m : Memory V) (b : Bool)
      → (in_scope tenant_id namespace allowed m && b) ≡ true
      → Permitted tenant_id namespace allowed m
  unfolding in_scope
  in_scope-Permitted m b h = record {
    own_tenant = grind (arith, eq_iff m.tenant_id tenant_id);
    own_namespace = grind (arith, eq_iff m.namespace namespace);
    readable = λ e. ground (arith, e);
  }

  term_search-Permitted :
      (x : Search V) (used : ℕ) (terms : List String) (limit : ℕ) (table : List (Memory V))
      → All
          (Permitted tenant_id namespace allowed)
          (term_search x used tenant_id namespace terms limit allowed table)
  unfolding term_search
  term_search-Permitted x used terms limit table = elim (Bool-cases (is_empty terms)) [
    | inl e ↦ rw e tt
    | inr e ↦ rw e (
        All-take _ limit _ (
          All-newest_first (Permitted tenant_id namespace allowed) _ (
            All-keep (Permitted tenant_id namespace allowed)
              (λ m. in_scope tenant_id namespace allowed m && mentions x (take used terms) m)
              (λ m h. in_scope-Permitted m (mentions x (take used terms) m) h) table)))
  ]

  vector_search-Permitted :
      (x : Search V)
      → ((P : Memory V → Type 0) (v : V) (ms : List (Memory V)) → All P ms → All P (x.nearest v ms))
      → (vec : Option V) (limit : ℕ) (table : List (Memory V))
      → All
          (Permitted tenant_id namespace allowed)
          (vector_search x tenant_id namespace vec limit allowed table)
  unfolding vector_search
  vector_search-Permitted x order none limit table = tt
  vector_search-Permitted x order (some v) limit table = All-take _ limit _ (
      order (Permitted tenant_id namespace allowed) v _ (
        All-keep (Permitted tenant_id namespace allowed)
          (λ m. in_scope tenant_id namespace allowed m && is_some m.embedding)
          (λ m h. in_scope-Permitted m (is_some m.embedding) h) table))

  -- When the vector index returns rows of the query only, every row that `read` returns is of the tenant
  -- and the namespace asked for, and of one of the allowed classes; with no allowed class there is no
  -- such check.
  pub read-Permitted :
      (x : Search V)
      → ((P : Memory V → Type 0) (v : V) (ms : List (Memory V)) → All P ms → All P (x.nearest v ms))
      → (query : String) (terms : QueryTerms) (limit : ℕ) (table : List (Memory V))
      → All
          (Permitted tenant_id namespace allowed)
          (read x tenant_id namespace query terms limit allowed table)
  unfolding read groups
  read-Permitted x order query terms limit table = All-take _ limit _ (
      All-unseen (Permitted tenant_id namespace allowed) x [] _ (
        All-append _ _ _ (term_search-Permitted x 8 terms.references limit table) (
          All-append _ _ _ (term_search-Permitted x 32 terms.security (max limit 6) table) (
            All-append _ _ _ (vector_search-Permitted x order (x.embed query) limit table)
              (term_search-Permitted x 24 terms.keywords limit table)))))
