-- ===== src/Migrations/Examples.antt =====
-- A run of two migrations, and the theorem at it.
use aegis_capstone.Common.{
  String, ◌≡◌, refl, Option, none, some, List, [], ◌∷◌, ◌++◌, ◌==◌, if◌then◌else◌,
}
use aegis_capstone.Migrations.{
  Db, File, applied_versions, migrate, loop, apply_file, record_row, and_then, noted,
}
use aegis_capstone.Migrations.Applied.{committed, migrate_again}

-- SQL appends its text to a log; one text is an error.
abbrev run_sql : String → List String → Option (List String)
run_sql sql log = if sql == "bad" then none else some (log ++ sql ∷ [])

abbrev sha256 : String → String
sha256 s = "hash"

abbrev files : List File
files = record { version = "0001"; sql = "a" } ∷ record { version = "0002"; sql = "b" } ∷ []

-- A database in which the first file is recorded.
abbrev old : Db (List String)
old = record { schema_migrations = ("0001", "hash") ∷ []; rest = "a" ∷ [] }

abbrev upgraded : Db (List String)
upgraded = record {
  schema_migrations = ("0001", "hash") ∷ ("0002", "hash") ∷ [];
  rest = "a" ∷ "b" ∷ [];
}

upgrades : migrate run_sql sha256 files old ≡ some (committed ("0002" ∷ []) upgraded)
unfolding migrate loop apply_file record_row and_then noted applied_versions
upgrades = refl

-- An error ends the run.
fails : migrate run_sql sha256 (record { version = "0003"; sql = "bad" } ∷ []) old ≡ none
unfolding migrate loop apply_file record_row and_then noted applied_versions
fails = refl

migrate_again_example :
    (applied_versions upgraded ≡ applied_versions old ++ "0002" ∷ [])
    × (migrate run_sql sha256 files upgraded ≡ some (committed [] upgraded))
migrate_again_example = migrate_again run_sql sha256 files old ("0002" ∷ []) upgraded upgrades
