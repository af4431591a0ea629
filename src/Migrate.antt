-- ===== src/Migrate.antt =====
-- cmd/migrate/main.go: the migrations of db/migrations that are pending are applied in order. The
-- database is its schema and the rows of schema_migrations; what a script does to a schema, and
-- which calls of the database fail, are parameters. Log lines are not modelled.
use Prim.Native.String
use Prim.Native.String.{[], ◌∷◌}
use package.text.Mathlib.Text.{is_lt}
use nocturne_atlas_event_str.Prelude.{
  String, Bool, true, false, Option, none, some, List, ◌==◌, ◌||◌, ◌++◌, if◌then◌else◌, any,
}
use nocturne_atlas_event_str.Exec.{
  Error, text, wrap, Result, ok, err, Exec, raise, lift, or_wrap, pure, ◌>>=◌, ◌>>◌,
}
pub mod Files
pub mod Laws

pub record Db (Schema : Type 0) : Type 0 where
  pub schema : Schema
  pub applied : List String

abbrev pub replaced : {Schema : Type 0} → Schema → Db Schema → Db Schema
replaced schema db = record { schema = schema; applied = db.applied }

-- `strings.HasSuffix`
unfoldable pub has_suffix : String → String → Bool
has_suffix suffix [] = suffix == ""
has_suffix suffix (c ∷ s) = let rest = has_suffix suffix s in (suffix == (c ∷ s)) || rest

-- The loop over the directory's entries.
unfoldable pub sql_files : List String → List String
sql_files List.[] = List.[]
sql_files (List.◌∷◌ name names) =
    let rest = sql_files names in if has_suffix ".sql" name then List.◌∷◌ name rest else rest

unfoldable pub insert_name : String → List String → List String
insert_name name List.[] = List.◌∷◌ name List.[]
insert_name name (List.◌∷◌ first names) =
    let rest = insert_name name names in
    if is_lt (String.compare first name)
    then List.◌∷◌ first rest
    else List.◌∷◌ name (List.◌∷◌ first names)

-- `sort.Strings`; the comparison by code points is the one by bytes of UTF-8.
unfoldable pub sort_names : List String → List String
sort_names List.[] = List.[]
sort_names (List.◌∷◌ name names) = insert_name name (sort_names names)

abbrev pub is_applied : String → List String → Bool
is_applied name applied = any (λ other. other == name) applied

-- The calls of the database, and the files of the embedded directory.
pub record Setup (Schema : Type 0) : Type 0 where
  pub create_table : Db Schema → Result (Unit {0})
  -- The rows that arrive until the iteration ends; the code does not ask whether an error ended it.
  pub select_applied : Db Schema → Result (List String)
  pub scan : List String → Result (Unit {0})
  pub begin : Db Schema → Result (Unit {0})
  pub commit : Db Schema → Result (Unit {0})
  pub record_fails : Db Schema → Option Error
  pub exec : String → Schema → Result Schema
  pub read_dir : Result (List String)
  pub read_file : String → Result String

module _ {Schema : Type 0} (setup : Setup Schema) where
  -- The INSERT within a transaction; `filename` is the primary key.
  unfoldable pub record_migration : String → Db Schema → Result (Db Schema)
  record_migration name tx =
      if is_applied name tx.applied
      then err (text "duplicate key value violates unique constraint")
      else elim (setup.record_fails tx) [
        | some e ↦ err e
        | none ↦ ok (record { schema = tx.schema; applied = tx.applied ++ List.◌∷◌ name List.[] })
      ]

  -- `applyOne`, from its last call to its first. The statements of the transaction change `tx`
  -- only, which the commit makes the database; the deferred rollback drops it.
  abbrev pub commit_tx : Db Schema → Exec (Db Schema) (Unit {0})
  commit_tx tx = or_wrap "commit" (λ db. (setup.commit tx, db)) >> λ db. (ok tt, tx)

  abbrev pub record_tx : String → Schema → Exec (Db Schema) (Unit {0})
  record_tx name schema =
      or_wrap "record migration" (λ db. (record_migration name (replaced schema db), db))
      >>= commit_tx

  abbrev pub exec_tx : String → String → Exec (Db Schema) (Unit {0})
  exec_tx name sql = or_wrap "exec sql" (λ db. (setup.exec sql db.schema, db)) >>= record_tx name

  unfoldable pub apply_one : String → String → Exec (Db Schema) (Unit {0})
  apply_one name sql = or_wrap "begin tx" (λ db. (setup.begin db, db)) >> exec_tx name sql

  -- The loop over the files; `applied` is the set that was read before it.
  unfoldable pub apply_pending : List String → List String → Exec (Db Schema) (Unit {0})
  apply_pending applied List.[] = pure tt
  apply_pending applied (List.◌∷◌ name files) =
      let rest = apply_pending applied files in
      if is_applied name applied
      then rest
      else (or_wrap (String.◌++◌ "read " name) (lift (setup.read_file name)) >>= λ sql.
          or_wrap (String.◌++◌ "apply " name) (apply_one name sql) >> rest)

  -- `run`, from the reading of the directory on.
  abbrev pub apply_files : List String → Exec (Db Schema) (Unit {0})
  apply_files applied = or_wrap "read migrations FS" (lift setup.read_dir) >>= λ entries.
      apply_pending applied (sort_names (sql_files entries))

  abbrev pub scan_rows : List String → Exec (Db Schema) (Unit {0})
  scan_rows rows = or_wrap "scan migration row" (λ db. (setup.scan rows, db)) >> apply_files rows

  abbrev pub query_applied : Exec (Db Schema) (Unit {0})
  query_applied =
      or_wrap "query applied migrations" (λ db. (setup.select_applied db, db)) >>= scan_rows

  unfoldable pub run : Exec (Db Schema) (Unit {0})
  run = or_wrap "create schema_migrations" (λ db. (setup.create_table db, db)) >> query_applied
