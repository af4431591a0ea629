-- ===== src/Tests/Scripts.antt =====
-- The theorems on migrations at a concrete input: a schema that is the list of the scripts that
-- made it, with one of three files applied before.
use nocturne_atlas_event_str.Prelude.{String, refl, none, List, [], ◌∷◌, ◌++◌}
use nocturne_atlas_event_str.Exec.{ok}
use nocturne_atlas_event_str.Migrate.{Db, Setup, run}
use nocturne_atlas_event_str.Migrate.Files.{SqlFiles}
use nocturne_atlas_event_str.Migrate.Laws.{pending, Migrated, run-Migrated}

abbrev directory : List String
directory = "002_add_correlation_id.sql" ∷ "001_create_events.sql" ∷ "migrations.go" ∷ []

abbrev setup : Setup (List String)
setup = record {
  create_table = λ db. ok tt;
  select_applied = λ db. ok db.applied;
  scan = λ rows. ok tt;
  begin = λ db. ok tt;
  commit = λ db. ok tt;
  record_fails = λ db. none;
  exec = λ sql schema. ok (schema ++ sql ∷ []);
  read_dir = ok directory;
  read_file = λ name. ok name;
}

abbrev half_done : Db (List String)
half_done = record { schema = "001_create_events.sql" ∷ []; applied = "001_create_events.sql" ∷ [] }

run-Migrated_example :
    (names : List String) × SqlFiles directory names
    × (let (r, db) = run setup half_done in
        Migrated setup (pending half_done.applied names) half_done r db)
run-Migrated_example = run-Migrated setup directory half_done.applied half_done refl refl
