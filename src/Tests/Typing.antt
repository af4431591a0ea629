-- ===== src/Tests/Typing.antt =====
-- The theorem on the types of an inserted row at a concrete input.
use nocturne_atlas_event_str.Prelude.{String, ◌≡◌, refl, Bool, All, not, ◌==◌}
use nocturne_atlas_event_str.Prelude.Int.{pos}
use nocturne_atlas_event_str.Exec.{ok}
use nocturne_atlas_event_str.Postgres.Rows.{insert_args, inserted_row}
use nocturne_atlas_event_str.Postgres.Schema.{Schema, run_statements, ddl}
use nocturne_atlas_event_str.Postgres.Schema.Steps.{columns_of}
use nocturne_atlas_event_str.Postgres.Typing.{Filled, no_table, inserted_row-Filled}
use nocturne_atlas_event_str.Tests.World.{paid}

-- Tests that a text is given stand for those of UUIDs and JSON.
abbrev is_given : String → Bool
is_given s = not (s == "")

inserted_row-Filled_example :
    (s : Schema) × (run_statements ddl no_table ≡ ok s)
    × All (Filled is_given is_given (inserted_row (pos 2) (insert_args "{}" paid))) (columns_of s)
inserted_row-Filled_example =
    inserted_row-Filled is_given is_given "{}" paid (pos 2) refl refl refl refl refl
