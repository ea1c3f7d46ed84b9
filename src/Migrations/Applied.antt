-- ===== src/Migrations/Applied.antt =====
-- What a run of the migrations leaves, and that a second run does nothing.
use aegis_capstone.Common.{
  String, ◌≡◌, refl, sym, ap, ◌∙◌, inl, inr, true, Option, none, some, List, [], ◌∷◌, ◌++◌, map,
  arith, Bool-cases, Option-cases, All, contains, eq_refl, map-append, contains-append,
}
use aegis_capstone.Migrations.{
  record_row, applied_versions, File, Db, loop, noted, apply_file, migrate, and_then,
}
use mathlib.Core.List.{append_assoc, append-nil}
use mathlib.Core.Path.{subst}

abbrev pub Run : Type 0 → Type 0
Run D = List String × Db D

abbrev pub committed : {D : Type 0} → List String → Db D → Run D
committed a d = (a, d)

All-weaken :
    (done : List String) (v : String) (a : List String) (fs : List File)
    → All (λ (f : File). contains f.version (done ++ a) ≡ true) fs
    → All (λ (f : File). contains f.version (done ++ v ∷ a) ≡ true) fs
All-weaken done v a [] h = tt
All-weaken done v a (f ∷ fs) h = (
  grind (arith, contains-append f.version done a, contains-append f.version done (v ∷ a), h.0),
  All-weaken done v a fs h.1,
)

abbrev schema_of : {D : Type 0} → Option (Db D) → List (String × String)
schema_of none = []
schema_of (some db) = db.schema_migrations

module _ {D : Type 0} (run_sql : String → D → Option D) (sha256 : String → String) where
  record_row-versions :
      (f : File) (o : Option D) (db next : Db D)
      → record_row run_sql sha256 f o db ≡ some next
      → applied_versions next ≡ applied_versions db ++ f.version ∷ []
  unfolding record_row applied_versions
  record_row-versions f none db next h = cc
  record_row-versions f (some d) db next h =
      elim (Bool-cases (contains f.version (applied_versions db))) [
        | inl e ↦ let z = rw e at h in cc
        | inr e ↦
            let z : some (record {
              schema_migrations = db.schema_migrations ++ (f.version, sha256 f.sql) ∷ [];
              rest = d;
            })
                ≡ some next =
              rw e at h in
            let q : db.schema_migrations ++ (f.version, sha256 f.sql) ∷ []
                ≡ next.schema_migrations =
              ap schema_of z in
            ap (map (λ (r : String × String). r.0)) (sym q)
            ∙ map-append (λ (r : String × String). r.0) db.schema_migrations
                ((f.version, sha256 f.sql) ∷ [])
      ]

  -- The versions after the loop, and every file among those done before it or in it.
  abbrev Settled : List String → List File → Db D → Run D → Type 0
  Settled done fs db r =
      (applied_versions r.1 ≡ applied_versions db ++ r.0)
      × All (λ (f : File). contains f.version (done ++ r.0) ≡ true) fs

  Settled-step :
      (done : List String) (f : File) (fs : List File) (db next last : Db D) (a : List String)
      → applied_versions next ≡ applied_versions db ++ f.version ∷ []
      → Settled done fs next (committed a last)
      → Settled done (f ∷ fs) db (committed (f.version ∷ a) last)
  Settled-step done f fs db next last a v s = (
    s.0 ∙ ap (λ l. l ++ a) v ∙ append_assoc (applied_versions db) (f.version ∷ []) a,
    (
      rw (contains-append f.version done (f.version ∷ a)) (grind (arith, eq_refl f.version)),
      All-weaken done f.version a fs s.1,
    ),
  )

  noted-Settled :
      (done : List String) (f : File) (fs : List File) (db next : Db D) (r : Run D)
      (o : Option (Run D))
      → applied_versions next ≡ applied_versions db ++ f.version ∷ []
      → noted f.version o ≡ some r
      → ((q : Run D) → o ≡ some q → Settled done fs next q)
      → Settled done (f ∷ fs) db r
  unfolding noted
  noted-Settled done f fs db next r none v h s = cc
  noted-Settled done f fs db next r (some (a, last)) v h s =
      let q : committed (f.version ∷ a) last ≡ r = cc in
      subst (λ k. Settled done (f ∷ fs) db k) q
        (Settled-step done f fs db next last a v (s (committed a last) refl))

  loop-Settled :
      (done : List String) (fs : List File) (db : Db D) (r : Run D)
      → loop run_sql sha256 done fs db ≡ some r
      → Settled done fs db r
  unfolding loop apply_file and_then
  loop-Settled done [] db r h =
      let q : committed [] db ≡ r = cc in rw (← q) (sym (append-nil (applied_versions db)), tt)
  loop-Settled done (f ∷ fs) db r h = elim (Bool-cases (contains f.version done)) [
    | inl e ↦
        let rest = loop-Settled done fs db r (rw e at h) in
        (rest.0, (rw (contains-append f.version done r.0, e) refl, rest.1))
    | inr e ↦ elim (Option-cases (record_row run_sql sha256 f (run_sql f.sql db.rest) db)) [
      | inl o ↦ let z = rw (e, o) at h in cc
      | inr (next, o) ↦
          noted-Settled done f fs db next r (loop run_sql sha256 done fs next)
            (record_row-versions f (run_sql f.sql db.rest) db next o) (rw (e, o) at h)
            (λ q k. loop-Settled done fs next q k)
    ]
  ]

  loop_done :
      (done : List String) (fs : List File) (db : Db D)
      → All (λ (f : File). contains f.version done ≡ true) fs
      → loop run_sql sha256 done fs db ≡ some (committed [] db)
  unfolding loop
  loop_done done [] db h = refl
  loop_done done (f ∷ fs) db h = rw h.0 (loop_done done fs db h.1)

  -- A run of the migrations that commits has recorded the versions that it applied after those that
  -- were there, and a second run over the same files applies nothing and changes nothing.
  pub migrate_again :
      (files : List File) (db : Db D) (applied : List String) (next : Db D)
      → migrate run_sql sha256 files db ≡ some (committed applied next)
      → (applied_versions next ≡ applied_versions db ++ applied)
        × (migrate run_sql sha256 files next ≡ some (committed [] next))
  unfolding migrate
  migrate_again files db applied next h =
      let s = loop-Settled (applied_versions db) files db (committed applied next) h in
      (s.0, loop_done (applied_versions next) files next (rw s.0 s.1))
