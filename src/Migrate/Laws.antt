-- ===== src/Migrate/Laws.antt =====
-- How a run of cmd/migrate/main.go ends.
use Prim.Native.String
use nocturne_atlas_event_str.Prelude.{
  String, ◌≡◌, refl, sym, ap, false, true, some, arith, ◌∙◌, List, [], ◌∷◌, ◌++◌, if◌then◌else◌,
  Bool-cases, Option-cases, inl, inr,
}
use nocturne_atlas_event_str.Exec.{Error, wrap, Result, ok, err, Exec, or_wrap, ◌>>=◌, ◌>>◌}
use nocturne_atlas_event_str.Migrate.Files.{SqlFiles, sql_files-SqlFiles}
use nocturne_atlas_event_str.Migrate.{
  Db, Setup, replaced, is_applied, record_migration, apply_one, exec_tx, record_tx, commit_tx,
  apply_files, query_applied, scan_rows, apply_pending, run, sql_files, sort_names,
}

-- The files that are not applied.
abbrev pub pending : List String → List String → List String
pending applied [] = []
pending applied (name ∷ files) =
    let rest = pending applied files in if is_applied name applied then rest else name ∷ rest

module _ {Schema : Type 0} (setup : Setup Schema) where
  -- The script of the file has changed the schema, and the file is recorded, both or neither.
  pub data Applied (name : String) (db db' : Db Schema) : Type 0 where
    applied :
        (sql : String)
        → setup.read_file name ≡ ok sql
        → setup.exec sql db.schema ≡ ok db'.schema
        → is_applied name db.applied ≡ false
        → db'.applied ≡ db.applied ++ name ∷ []
        → Applied name db db'

  -- The script of the file could not be applied to the database and recorded.
  pub data FailedOne (name sql : String) (db : Db Schema) : Type 0 where
    not_begun : (e : Error) → setup.begin db ≡ err e → FailedOne name sql db
    not_run : (e : Error) → setup.exec sql db.schema ≡ err e → FailedOne name sql db
    not_recorded :
        (schema : Schema) (e : Error)
        → setup.exec sql db.schema ≡ ok schema
        → setup.record_fails (replaced schema db) ≡ some e
        → FailedOne name sql db
    recorded_before : is_applied name db.applied ≡ true → FailedOne name sql db
    not_committed :
        (tx : Db Schema) (e : Error)
        → setup.exec sql db.schema ≡ ok tx.schema
        → setup.commit tx ≡ err e
        → FailedOne name sql db

  -- The rows or the directory could not be read, or the next of the files not be read or applied.
  pub data Failed (names : List String) (db : Db Schema) : Type 0 where
    not_created : (e : Error) → setup.create_table db ≡ err e → Failed names db
    not_selected : (e : Error) → setup.select_applied db ≡ err e → Failed names db
    not_scanned :
        (rows : List String) (e : Error)
        → setup.select_applied db ≡ ok rows
        → setup.scan rows ≡ err e
        → Failed names db
    not_listed : (e : Error) → setup.read_dir ≡ err e → Failed names db
    not_read :
        (name : String) (later : List String) (e : Error)
        → names ≡ name ∷ later
        → setup.read_file name ≡ err e
        → Failed names db
    not_applied :
        (name sql : String) (later : List String)
        → names ≡ name ∷ later
        → setup.read_file name ≡ ok sql
        → FailedOne name sql db
        → Failed names db

  -- Of the named files an initial part was applied, one after the other, and all if the result is
  -- no error.
  pub data Migrated : List String → Db Schema → Result (Unit {0}) → Db Schema → Type 0 where
    complete : {db : Db Schema} → Migrated [] db (ok tt) db
    stopped :
        {names : List String} {db : Db Schema} (e : Error)
        → Failed names db
        → Migrated names db (err e) db
    next :
        {name : String} {names : List String} {db db1 db' : Db Schema} {r : Result (Unit {0})}
        → Applied name db db1
        → Migrated names db1 r db'
        → Migrated (name ∷ names) db r db'

  -- One file was applied, or an error left the database as it was.
  abbrev AppliedOne : String → String → Db Schema → Result (Unit {0}) → Db Schema → Type 0
  AppliedOne name sql db (ok _) db' =
      (setup.exec sql db.schema ≡ ok db'.schema)
      × (is_applied name db.applied ≡ false)
      × (db'.applied ≡ db.applied ++ name ∷ [])
  AppliedOne name sql db (err _) db' = (db' ≡ db) × FailedOne name sql db

  record_lem :
      (name : String) (tx tx' : Db Schema)
      → record_migration setup name tx ≡ ok tx'
      → (tx'.schema ≡ tx.schema)
        × (is_applied name tx.applied ≡ false)
        × (tx'.applied ≡ tx.applied ++ name ∷ [])
  unfolding record_migration
  record_lem name tx tx' h = elim (Bool-cases (is_applied name tx.applied)) [
    | inl old ↦ let g = rw (record_migration, old) at h in (cc, cc, cc)
    | inr new ↦ elim (Option-cases (setup.record_fails tx)) [
      | inl fine ↦ let g = rw (record_migration, new, fine) at h in (cc, cc, cc)
      | inr (e, fails) ↦ let g = rw (record_migration, new, fails) at h in (cc, cc, cc)
    ]
  ]

  record_migration-FailedOne :
      (name sql : String) (db : Db Schema) (schema : Schema) (e : Error)
      → setup.exec sql db.schema ≡ ok schema
      → record_migration setup name (replaced schema db) ≡ err e
      → FailedOne name sql db
  unfolding record_migration
  record_migration-FailedOne name sql db schema e ran h =
      elim (Bool-cases (is_applied name db.applied)) [
        | inl old ↦ recorded_before old
        | inr new ↦ elim (Option-cases (setup.record_fails (replaced schema db))) [
          | inl fine ↦ absurd (let g = rw (new, fine) at h in ground arith)
          | inr (x, fails) ↦ not_recorded schema x ran fails
        ]
      ]

  -- A call that reads the database leaves it as it is.
  after_call :
      {A B : Type 0} (P : Result B → Db Schema → Type 0) (t : String) (read : Db Schema → Result A)
      (f : A → Exec (Db Schema) B) (db : Db Schema)
      → ((a : A) → read db ≡ ok a → P (f a db).0 (f a db).1)
      → ((e : Error) → read db ≡ err e → P (err (wrap t e)) db)
      → P ((or_wrap t (λ d. (read d, d)) >>= f) db).0 ((or_wrap t (λ d. (read d, d)) >>= f) db).1
  after_call {A} P t read f db good bad = go (read db) refl
    where
      go :
          (x : Result A)
          → read db ≡ x
          → P
              ((or_wrap t (λ (d : Db Schema). (x, d)) >>= f) db).0
              ((or_wrap t (λ (d : Db Schema). (x, d)) >>= f) db).1
      go (ok a) e = good a e
      go (err x) e = bad x e

  apply_one_lem :
      (name sql : String) (db : Db Schema)
      → let (r, db') = apply_one setup name sql db in AppliedOne name sql db r db'
  unfolding apply_one
  apply_one_lem name sql db =
      let P : Result (Unit {0}) → Db Schema → Type 0 = AppliedOne name sql db in
      after_call P "begin tx" setup.begin (λ _. exec_tx setup name sql) db
        (λ _ _.
          after_call P "exec sql" (λ d. setup.exec sql d.schema) (record_tx setup name) db
            (λ schema ran.
              after_call P "record migration" (λ d. record_migration setup name (replaced schema d))
                (commit_tx setup) db
                (λ tx recorded.
                  let (same, fresh, more) = record_lem name (replaced schema db) tx recorded in
                  after_call P "commit" (λ d. setup.commit tx) (λ _ d. (ok tt, tx)) db
                    (λ _ _. (ran ∙ ap ok (sym same), fresh, more))
                    (λ e h. (refl, not_committed tx e (ran ∙ ap ok (sym same)) h)))
                (λ e h. (refl, record_migration-FailedOne name sql db schema e ran h)))
            (λ e h. (refl, not_run e h)))
        (λ e h. (refl, not_begun e h))

  apply_pending_lem :
      (before files : List String) (db : Db Schema)
      → let (r, db') = apply_pending setup before files db in
        Migrated (pending before files) db r db'
  unfolding apply_pending
  apply_pending_lem before [] db = complete
  apply_pending_lem before (name ∷ files) db = elim (Bool-cases (is_applied name before)) [
    | inl old ↦ rw old (apply_pending_lem before files db)
    | inr new ↦ rw new (
        after_call (Migrated (name ∷ pending before files) db) (String.◌++◌ "read " name)
          (λ _. setup.read_file name)
          (λ sql.
            or_wrap (String.◌++◌ "apply " name) (apply_one setup name sql)
            >> apply_pending setup before files)
          db
          (λ sql found.
            go sql found (apply_one setup name sql db) (apply_one_lem name sql db)
              (apply_pending_lem before files))
          (λ e h. stopped _ (not_read name _ e refl h)))
  ]
    where
      go :
          (sql : String)
          → setup.read_file name ≡ ok sql
          → (x : Result (Unit {0}) × Db Schema) → AppliedOne name sql db x.0 x.1
          → ((db1 : Db Schema)
              → let (r, db') = apply_pending setup before files db1 in
                Migrated (pending before files) db1 r db')
          → let (r, db') =
              (or_wrap (String.◌++◌ "apply " name) (λ (_ : Db Schema). x)
                  >> apply_pending setup before files)
                db in
            Migrated (name ∷ pending before files) db r db'
      go sql found (ok a, db1) (ran, fresh, more) later =
          next (applied sql found ran fresh more) (later db1)
      go sql found (err e, db1) (same, why) later =
          rw same (stopped _ (not_applied name sql _ refl found why))

run_lem :
    {Schema : Type 0} (setup : Setup Schema) (entries before : List String) (db : Db Schema)
    → setup.read_dir ≡ ok entries
    → setup.select_applied db ≡ ok before
    → let (r, db') = run setup db in
      Migrated setup (pending before (sort_names (sql_files entries))) db r db'
unfolding run
run_lem setup entries before db listed selected =
    let names : List String = pending before (sort_names (sql_files entries)) in
    let P : Result (Unit {0}) → Db _ → Type 0 = Migrated setup names db in
    after_call setup P "create schema_migrations" setup.create_table (λ _. query_applied setup) db
      (λ _ _.
        after_call setup P "query applied migrations" setup.select_applied (scan_rows setup) db
          (λ found read.
            let agree : found ≡ before = cc in
            rw agree (
              after_call setup P "scan migration row" (λ _. setup.scan before)
                (λ _. apply_files setup before) db
                (λ _ _.
                  after_call setup P "read migrations FS" (λ _. setup.read_dir)
                    (λ found. apply_pending setup before (sort_names (sql_files found))) db
                    (λ found e.
                      let same : found ≡ entries = cc in
                      rw same (apply_pending_lem setup before (sort_names (sql_files entries)) db))
                    (λ e h. stopped _ (not_listed e h)))
                (λ e h. stopped _ (not_scanned before e selected h))))
          (λ e h. stopped _ (not_selected e h)))
      (λ e h. stopped _ (not_created e h))

-- A run of the migration tool goes through the directory's files whose names end in .sql, each as
-- often as it is there and in sorted order, that are not among the rows it read: it applies an
-- initial part of them, and all if it returns no error. Each one's script changes the schema and
-- the file is recorded, or neither; and no file that is recorded is applied again, whatever part of
-- the rows was read. It returns an error only when the rows or the directory cannot be read, or the
-- next of the files cannot be read, run, recorded or committed or is recorded already.
pub run-Migrated :
    {Schema : Type 0} (setup : Setup Schema) (entries before : List String) (db : Db Schema)
    → setup.read_dir ≡ ok entries
    → setup.select_applied db ≡ ok before
    → (names : List String) × SqlFiles entries names
      × (let (r, db') = run setup db in Migrated setup (pending before names) db r db')
run-Migrated setup entries before db listed selected = (
  sort_names (sql_files entries),
  sql_files-SqlFiles entries,
  run_lem setup entries before db listed selected,
)
