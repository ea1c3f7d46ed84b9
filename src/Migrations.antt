-- ===== src/Migrations.antt =====
-- The migration runner, src/aegis_fabric/migrate.py. A file is its version and its SQL; what a database
-- does with SQL is a parameter, and so is SHA-256. All of a run is one transaction of `get_conn`.
-- A file's SQL is taken to hold no BEGIN and COMMIT of its own. 0007_rls, 0008_feedback and 0009_mcp do:
-- what stands before such a COMMIT stays when a later file raises, so that the model of a run that
-- raises is right only for the files without them.
pub mod Applied
mod Examples
use aegis_capstone.Common.{
  ◌<>◌, ℕ, zero, suc, ◌+◌, ◌-◌, ◌≤◌, ◌<◌, String, ◌≡◌, refl, sym, ap, ◌∙◌, ◌≢◌, ◌⊎◌, inl, inr, Bool,
  true, false, ◌&&◌, ◌||◌, not, Option, none, some, List, [], ◌∷◌, ◌++◌, map, arith, ◌==◌, eq_iff,
  ltb, leb, eqb, if◌then◌else◌, Bool-cases, Option-cases, or_else, is_some, length, is_empty, keep,
  any, All, contains,
}

pub record File : Type 0 where
  pub version : String
  pub sql : String

-- The table `schema_migrations`, version and checksum, beside the rest of the database.
pub record Db (D : Type 0) : Type 0 where
  pub schema_migrations : List (String × String)
  pub rest : D

-- `Path.stem` of the sorted files, `applied_versions`
unfoldable pub applied_versions : {D : Type 0} → Db D → List String
applied_versions db = map (λ r. r.0) db.schema_migrations

unfoldable pub and_then {ℓ κ} : {A : Type ℓ} {B : Type κ} → Option A → (A → Option B) → Option B
and_then none f = none
and_then (some a) f = f a

-- `applied.append(version)`
unfoldable pub noted :
    {D : Type 0} → String → Option (List String × Db D) → Option (List String × Db D)
noted v none = none
noted v (some (applied, db)) = some (v ∷ applied, db)

module _ {D : Type 0} (run_sql : String → D → Option D) (sha256 : String → String) where
  -- One file that is not done: its SQL and its row. The primary key refuses a version that is there.
  unfoldable pub record_row : File → Option D → Db D → Option (Db D)
  record_row f none db = none
  record_row f (some d) db =
      if contains f.version (applied_versions db)
      then none
      else some (record {
        schema_migrations = db.schema_migrations ++ (f.version, sha256 f.sql) ∷ [];
        rest = d;
      })

  unfoldable pub apply_file : File → Db D → Option (Db D)
  apply_file f db = record_row f (run_sql f.sql db.rest) db

  -- The loop, over the versions that were done when it began; an error ends it.
  unfoldable pub loop : List String → List File → Db D → Option (List String × Db D)
  loop done [] db = some ([], db)
  loop done (f ∷ fs) db =
      if contains f.version done
      then loop done fs db
      else and_then (apply_file f db) (λ next. noted f.version (loop done fs next))

  -- `migrate`: the versions applied and the database, or `none` when it raises.
  unfoldable pub migrate : List File → Db D → Option (List String × Db D)
  migrate files db = loop (applied_versions db) files db
