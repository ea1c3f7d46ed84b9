-- ===== src/Audit/Query.antt =====
-- The reads of the ledger in src/aegis_fabric/audit.py: `_scope_clauses`, `trace` and `last`. A month
-- filter is the half-open range of ticks that `_month_filter` gives.
use aegis_capstone.Common.{
  ℕ, ◌≤◌, String, ◌≡◌, refl, ◌≢◌, Bool, true, ◌&&◌, not, Option, none, some, List, [], ◌∷◌, ◌++◌,
  arith, ◌==◌, eq_iff, ltb, leb, if◌then◌else◌, length, keep, All, max, min, length-take-le,
  All-keep, All-take,
}
use aegis_capstone.Audit.{Row, Ledger, take}

-- One clause of the WHERE, with its parameter.
pub data Clause : Type 0 where
  tenant_is subject_is trace_is : String → Clause
  in_range : ℕ → ℕ → Clause

abbrev pub holds : Clause → Row → Bool
holds (tenant_is t) r = r.tenant_id == t
holds (subject_is s) r = r.subject == s
holds (trace_is t) r = r.trace_id == t
holds (in_range from to) r = leb from r.created_at && ltb r.created_at to

abbrev pub all_hold : List Clause → Row → Bool
all_hold [] r = true
all_hold (c ∷ cs) r = holds c r && all_hold cs r

-- `_scope_clauses`; an email that is missing or empty is the empty text.
unfoldable pub scope_clauses : String → String → String → List Clause
scope_clauses tenant_id scope subject_email =
    (if scope == "all" then [] else tenant_is tenant_id ∷ [])
    ++ (if scope == "own" && not (subject_email == "") then subject_is subject_email ∷ [] else [])

abbrev month_clauses : Option (ℕ × ℕ) → List Clause
month_clauses none = []
month_clauses (some (from, to)) = in_range from to ∷ []

-- `ORDER BY sequence_id DESC`: the table lists the rows in ascending order.
newest_first : List Row → List Row → List Row
newest_first acc [] = acc
newest_first acc (r ∷ rs) = newest_first (r ∷ acc) rs

-- `max(1, min(limit, 200))`; a limit below 0 acts like 0.
abbrev pub clamp_limit : ℕ → ℕ
clamp_limit limit = max 1 (min limit 200)

unfoldable pub trace : Ledger → String → String → String → String → List Row
unfolding scope_clauses
trace db trace_id tenant_id scope subject_email =
    keep (all_hold (trace_is trace_id ∷ scope_clauses tenant_id scope subject_email)) db.rows

unfoldable pub last : Ledger → String → String → String → ℕ → Option (ℕ × ℕ) → List Row
unfolding scope_clauses newest_first
last db tenant_id scope subject_email limit month = take (clamp_limit limit) (
    newest_first [] (
      keep (all_hold (scope_clauses tenant_id scope subject_email ++ month_clauses month)) db.rows))

-- What a caller of the scope may see.
pub record Visible (tenant_id scope subject_email : String) (r : Row) : Type 0 where
  pub same_tenant : scope ≢ "all" → r.tenant_id ≡ tenant_id
  pub own : scope ≡ "own" → subject_email ≢ "" → r.subject ≡ subject_email

scope_clauses-Visible :
    (tenant_id scope subject_email : String) (r : Row)
    → all_hold (scope_clauses tenant_id scope subject_email) r ≡ true
    → Visible tenant_id scope subject_email r
unfolding scope_clauses
scope_clauses-Visible tenant_id scope subject_email r h = record {
  same_tenant = λ ne. ground (arith, eq_iff scope "all", eq_iff r.tenant_id tenant_id);
  own = λ e ne.
      ground (arith, eq_iff scope "own", eq_iff subject_email "", eq_iff r.subject subject_email);
}

all_hold-append_left :
    (cs ds : List Clause) (r : Row) → all_hold (cs ++ ds) r ≡ true → all_hold cs r ≡ true
all_hold-append_left [] ds r h = refl
all_hold-append_left (c ∷ cs) ds r h = ground (arith, all_hold-append_left cs ds r)

module _ (P : Row → Type 0) where
  All-newest_first : (acc rs : List Row) → All P acc → All P rs → All P (newest_first acc rs)
  unfolding newest_first
  All-newest_first acc [] h k = h
  All-newest_first acc (r ∷ rs) h k = All-newest_first (r ∷ acc) rs (k.0, h) k.1

-- Every row that `trace` or `last` returns belongs to the caller's tenant unless the scope is `all`,
-- and is the caller's own event where the scope is `own` and the email is known; a trace has only rows
-- of that trace, and `last` returns at most 200 rows.
pub queries-Visible :
    (db : Ledger) (trace_id tenant_id scope email : String) (limit : ℕ) (month : Option (ℕ × ℕ))
    → All (Visible tenant_id scope email) (trace db trace_id tenant_id scope email)
      × All (λ r. r.trace_id ≡ trace_id) (trace db trace_id tenant_id scope email)
      × All (Visible tenant_id scope email) (last db tenant_id scope email limit month)
      × (length (last db tenant_id scope email limit month) ≤ 200)
unfolding trace last
queries-Visible db trace_id tenant_id scope email limit month = (
  All-keep _ _ (λ r h. scope_clauses-Visible tenant_id scope email r (ground arith)) db.rows,
  All-keep _ _ (λ r h. ground (arith, eq_iff r.trace_id trace_id)) db.rows,
  All-take _ (clamp_limit limit) _ (
      All-newest_first _ [] _ tt (
        All-keep _ _
          (λ r h.
            scope_clauses-Visible tenant_id scope email r
              (all_hold-append_left (scope_clauses tenant_id scope email) _ r h))
          db.rows)),
  omega (
    arith,
    length-take-le {0} (clamp_limit limit) (
        newest_first []
          (keep (all_hold (scope_clauses tenant_id scope email ++ month_clauses month)) db.rows)),
  ),
)
