-- ===== src/Postgres/Schema.antt =====
-- The schema that internal/infrastructure/postgres/store.go applies at startup (`ddl`): its
-- statements, and what PostgreSQL does for each. The definition of a column is its text.
pub mod Steps
pub mod Laws
use nocturne_atlas_event_str.Prelude.{
  String, Bool, true, false, Option, none, some, List, [], ◌∷◌, ◌++◌, ◌==◌, ◌&&◌, any,
  if◌then◌else◌,
}
use nocturne_atlas_event_str.Exec.{Error, text, Result, ok, err}

abbrev pub Columns : Type 0
Columns = List (String × String)

pub data Statement : Type 0 where
  -- CREATE TABLE IF NOT EXISTS events
  create_table : Columns → Statement
  -- ALTER TABLE events ADD COLUMN IF NOT EXISTS
  add_column : String → String → Statement
  -- CREATE INDEX IF NOT EXISTS, with the columns that it reads
  create_index : String → List String → Statement

-- What a database has of the table events and its indexes.
pub record Schema : Type 0 where
  pub table : Option Columns
  pub indexes : List String

abbrev pub has_column : String → Columns → Bool
has_column c columns = any (λ column. column.0 == c) columns

abbrev pub has_columns : List String → Columns → Bool
has_columns [] columns = true
has_columns (c ∷ cs) columns = has_column c columns && has_columns cs columns

abbrev pub has_index : String → List String → Bool
has_index n indexes = any (λ other. other == n) indexes

unfoldable pub step : Statement → Schema → Result Schema
step (create_table columns) s = elim s.table [
  | none ↦ ok (record s { table = some columns })
  | some _ ↦ ok s
]
step (add_column c definition) s = elim s.table [
  | none ↦ err (text "relation \"events\" does not exist")
  | some columns ↦
      if has_column c columns
      then ok s
      else ok (record s { table = some (columns ++ (c, definition) ∷ []) })
]
step (create_index n cs) s = elim s.table [
  | none ↦ err (text "relation \"events\" does not exist")
  | some columns ↦
      if has_index n s.indexes
      then ok s
      else if has_columns cs columns
      then ok (record s { indexes = n ∷ s.indexes })
      else err (text "column does not exist")
]

-- The statements of one call run in one transaction: the first error ends it.
unfoldable pub run_statements : List Statement → Schema → Result Schema
run_statements [] s = ok s
run_statements (st ∷ statements) s = elim (step st s) [
  | err e ↦ err e
  | ok s' ↦ run_statements statements s'
]

abbrev pub table_columns : Columns
table_columns =
    ("id", "UUID PRIMARY KEY")
    ∷ ("tenant_id", "TEXT NOT NULL DEFAULT 'default'")
    ∷ ("stream_id", "TEXT NOT NULL")
    ∷ ("type", "TEXT NOT NULL")
    ∷ ("source", "TEXT NOT NULL")
    ∷ ("version", "BIGINT NOT NULL")
    ∷ ("occurred_at", "TIMESTAMPTZ NOT NULL")
    ∷ ("payload", "JSONB NOT NULL")
    ∷ ("metadata", "JSONB NOT NULL DEFAULT '{}'")
    ∷ ("correlation_id", "TEXT NOT NULL DEFAULT ''")
    ∷ ("created_at", "TIMESTAMPTZ NOT NULL DEFAULT NOW()")
    ∷ []

-- The statements of `ddl` after the first.
abbrev pub additions : List Statement
additions =
    add_column "tenant_id" "TEXT NOT NULL DEFAULT 'default'"
    ∷ add_column "correlation_id" "TEXT NOT NULL DEFAULT ''"
    ∷ add_column "event_version" "INT NOT NULL DEFAULT 1"
    ∷ add_column "causation_id" "TEXT NOT NULL DEFAULT ''"
    ∷ add_column "actor_id" "TEXT NOT NULL DEFAULT ''"
    ∷ add_column "trace_id" "TEXT NOT NULL DEFAULT ''"
    ∷ add_column "source_version" "TEXT NOT NULL DEFAULT ''"
    ∷ add_column "is_replay" "BOOLEAN NOT NULL DEFAULT FALSE"
    ∷ add_column "replay_id" "TEXT NOT NULL DEFAULT ''"
    ∷ add_column "replayed_at" "TIMESTAMPTZ"
    ∷ add_column "replay_reason" "TEXT NOT NULL DEFAULT ''"
    ∷ add_column "replay_source_event_id" "TEXT NOT NULL DEFAULT ''"
    ∷ create_index "idx_events_stream_id" ("stream_id" ∷ [])
    ∷ create_index "idx_events_type" ("type" ∷ [])
    ∷ create_index "idx_events_occurred_at" ("occurred_at" ∷ [])
    ∷ create_index "idx_events_tenant_id" ("tenant_id" ∷ [])
    ∷ create_index "idx_events_correlation_id" ("correlation_id" ∷ [])
    ∷ create_index "idx_events_causation_id" ("causation_id" ∷ [])
    ∷ create_index "idx_events_actor_id" ("tenant_id" ∷ "actor_id" ∷ [])
    ∷ create_index "idx_events_replay_id" ("replay_id" ∷ [])
    ∷ create_index "idx_events_is_replay" ("tenant_id" ∷ "occurred_at" ∷ "is_replay" ∷ [])
    ∷ []

abbrev pub ddl : List Statement
ddl = create_table table_columns ∷ additions
