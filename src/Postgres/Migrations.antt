-- ===== src/Postgres/Migrations.antt =====
-- `migrate` of storage/postgres.go. `D` is the schema and the data other than the ledger; a migration file
-- is its name and its text, and `apply` what the database makes of a text, or an error. A step that fails
-- is rolled back. `checksum` is the SHA-256 digest in hexadecimal. Directories and read errors of the
-- embedded files, and failures of the statements on the ledger, are left out.
use goshorty.Prelude.{
  String, ◌≡◌, refl, ap, subst, true, not, Option, none, some, List, [], ◌∷◌, Result, ok, err,
  str_eq, str_eq_iff, str_eq_refl, if◌then◌else◌, arith, Option-cases, Result-cases, inl, inr, All,
}
use goshorty.Go.Map.{Map, lookup, insert, lookup-insert}

-- `schema_migrations`: the checksum of each applied version, or NULL.
pub record Database (D : Type 0) : Type 0 where
  pub ledger : Map (Option String)
  pub content : D

pub data MigrationError : Type 0 where
  checksum_mismatch apply_failed : (version : String) → MigrationError

module _ {D : Type 0} (checksum : String → String) (apply : String → D → Option D) where
  -- The transaction of one file.
  unfoldable pub migrate_file : String → String → Database D → Result MigrationError (Database D)
  migrate_file version migration db = elim (lookup version db.ledger) [
    | some stored ↦ (elim stored [
      | none ↦ ok (record db { ledger = insert version (some (checksum migration)) db.ledger })
      | some sum ↦
          if not (str_eq sum (checksum migration)) then err (checksum_mismatch version) else ok db
    ])
    | none ↦ (elim (apply migration db.content) [
      | none ↦ err (apply_failed version)
      | some content ↦ ok (record {
        ledger = insert version (some (checksum migration)) db.ledger;
        content = content;
      })
    ])
  ]

  -- The loop. An error leaves the tables as the files before it have made them.
  unfoldable pub migrate :
      List (String × String) → Database D → Result MigrationError (Unit {0}) × Database D
  unfolding migrate_file
  migrate [] db = (ok tt, db)
  migrate ((version, migration) ∷ files) db = elim (migrate_file version migration db) [
    | err e ↦ (err e, db)
    | ok db' ↦ migrate files db'
  ]

  -- The version is in the ledger with this checksum.
  abbrev IsRecorded : Database D → String × String → Type 0
  IsRecorded db (version, migration) = lookup version db.ledger ≡ some (some (checksum migration))

  migrate_file-records :
      (version migration : String) (db db' : Database D)
      → migrate_file version migration db ≡ ok db'
      → IsRecorded db' (version, migration)
  unfolding migrate_file
  migrate_file-records version migration db db' h =
      let inserted = lookup-insert version version (some (checksum migration)) db.ledger in
      elim (Option-cases (lookup version db.ledger)) [
        | inl e ↦ elim (Option-cases (apply migration db.content)) [
          | inl f ↦ absurd (ground arith)
          | inr (content, f) ↦ ground (arith, inserted, str_eq_refl version)
        ]
        | inr (stored, e) ↦ elim (Option-cases stored) [
          | inl f ↦ ground (arith, inserted, str_eq_refl version)
          | inr (sum, f) ↦ ground (arith, str_eq_iff sum (checksum migration))
        ]
      ]

  migrate_file-keeps :
      (version migration : String) (db db' : Database D) (other sum : String)
      → migrate_file version migration db ≡ ok db'
      → lookup other db.ledger ≡ some (some sum)
      → lookup other db'.ledger ≡ some (some sum)
  unfolding migrate_file
  migrate_file-keeps version migration db db' other sum h k =
      let inserted = lookup-insert version other (some (checksum migration)) db.ledger in
      let same : str_eq version other ≡ true → lookup version db.ledger ≡ lookup other db.ledger =
        λ e. ap (λ v. lookup v db.ledger) ((str_eq_iff version other).0 e) in
      elim (Option-cases (lookup version db.ledger)) [
        | inl e ↦ elim (Option-cases (apply migration db.content)) [
          | inl f ↦ absurd (ground arith)
          | inr (content, f) ↦ ground (arith, inserted, same)
        ]
        | inr (stored, e) ↦ elim (Option-cases stored) [
          | inl f ↦ ground (arith, inserted, same)
          | inr (s, f) ↦ ground arith
        ]
      ]

  migrate-keeps :
      (files : List (String × String)) (db : Database D) (other sum : String)
      → (migrate files db).0 ≡ ok tt
      → lookup other db.ledger ≡ some (some sum)
      → lookup other (migrate files db).1.ledger ≡ some (some sum)
  unfolding migrate
  migrate-keeps [] db other sum h k = k
  migrate-keeps ((version, migration) ∷ files) db other sum h k =
      elim (Result-cases (migrate_file version migration db)) [
        | inr (e, f) ↦ absurd (ground arith)
        | inl (db', f) ↦
            let kept = migrate_file-keeps version migration db db' other sum f k in
            rw (migrate, f) (migrate-keeps files db' other sum (rw (migrate, f) at h) kept)
      ]

  migrate-records :
      (files : List (String × String)) (db : Database D)
      → (migrate files db).0 ≡ ok tt
      → All (IsRecorded (migrate files db).1) files
  unfolding migrate
  migrate-records [] db h = tt
  migrate-records ((version, migration) ∷ files) db h =
      elim (Result-cases (migrate_file version migration db)) [
        | inr (e, f) ↦ absurd (ground arith)
        | inl (db', f) ↦
            let done = migrate_file-records version migration db db' f in
            let rest : (migrate files db').0 ≡ ok tt = rw (migrate, f) at h in
            let step : migrate files db' ≡ migrate ((version, migration) ∷ files) db =
              rw (migrate, f) refl in
            subst
              (λ (r : Result MigrationError (Unit {0}) × Database D).
                All (IsRecorded r.1) ((version, migration) ∷ files))
              step
              (
                migrate-keeps files db' version (checksum migration) rest done,
                migrate-records files db' rest,
              )
      ]

  migrate-recorded :
      (files : List (String × String)) (db : Database D)
      → All (IsRecorded db) files
      → migrate files db ≡ (ok tt, db)
  unfolding migrate migrate_file
  migrate-recorded [] db h = refl
  migrate-recorded ((version, migration) ∷ files) db h =
      ground (arith, h.0, str_eq_refl (checksum migration), migrate-recorded files db h.1)

  -- After a start whose migrations have gone through, every file is in the ledger with its checksum, and
  -- the next start with the same files finds nothing to do: it succeeds and changes nothing.
  pub migrate_twice :
      (files : List (String × String)) (db : Database D)
      → (migrate files db).0 ≡ ok tt
      → let db' = (migrate files db).1 in
        All
          (λ (version, migration). lookup version db'.ledger ≡ some (some (checksum migration)))
          files
        × (migrate files db' ≡ (ok tt, db'))
  migrate_twice files db h =
      let recorded = migrate-records files db h in
      (recorded, migrate-recorded files (migrate files db).1 recorded)
