-- ===== src/Postgres/Table.antt =====
-- The `events` table of internal/infrastructure/postgres/store.go (the `ddl`), and the INSERT
-- statement of `Append`. The rows are listed with the newest first; the order is not visible to
-- SQL.
use nocturne_atlas_event_str.Prelude.{
  String, Bool, Option, none, some, List, [], ◌∷◌, ◌&&◌, ◌^◌, ◌-◌, ◌==◌, any, if◌then◌else◌,
}
use nocturne_atlas_event_str.Prelude.Int.{ℤ, pos, ltb_ℤ, eqb_ℤ, int_succ}
use nocturne_atlas_event_str.Exec.{Result, ok, err, text}
use nocturne_atlas_event_str.Domain.{Event, set_version}

-- The larger of a version and a maximum that may be NULL.
abbrev pub larger : ℤ → Option ℤ → Option ℤ
larger v none = some v
larger v (some w) = some (if ltb_ℤ w v then v else w)

abbrev pub coalesce_zero : Option ℤ → ℤ
coalesce_zero none = pos 0
coalesce_zero (some v) = v

-- `SELECT MAX(version) FROM events WHERE stream_id = $3`, NULL where no row matches.
unfoldable pub max_version : String → List Event → Option ℤ
max_version stream [] = none
max_version stream (r ∷ rows) =
    if r.stream_id == stream
    then larger r.version (max_version stream rows)
    else max_version stream rows

-- `COALESCE(MAX(version), 0) + 1`
unfoldable pub next_version : String → List Event → ℤ
next_version stream rows = int_succ (coalesce_zero (max_version stream rows))

-- The primary key.
unfoldable pub row_by_id : String → List Event → Option Event
row_by_id id [] = none
row_by_id id (r ∷ rows) = if r.id == id then some r else row_by_id id rows

-- The constraint UNIQUE (stream_id, version).
unfoldable pub has_version : String → ℤ → List Event → Bool
has_version stream v rows = any (λ r. r.stream_id == stream && eqb_ℤ r.version v) rows

-- A row with a new UUID goes in with its version, unless the version is no BIGINT or is taken.
unfoldable pub add_row : ℤ → Event → List Event → Result ℤ × List Event
add_row v e rows =
    if ltb_ℤ (pos (2 ^ 63 - 1)) v
    then (err (text "bigint out of range"), rows)
    else if has_version e.stream_id v rows
    then (err (text "duplicate key value violates unique constraint"), rows)
    else (ok v, set_version e v ∷ rows)

-- INSERT … ON CONFLICT (id) DO UPDATE SET id = EXCLUDED.id RETURNING version. The subquery reads
-- `snapshot`, the rows committed when the statement began; the constraints are checked against
-- `rows`, the table that the row is added to. BIGINT addition is checked.
unfoldable pub insert_event : List Event → Event → List Event → Result ℤ × List Event
insert_event snapshot e rows = elim (row_by_id e.id rows) [
  | some old ↦ (ok old.version, rows)
  | none ↦ add_row (next_version e.stream_id snapshot) e rows
]
