-- ===== src/Postgres/Typing.antt =====
-- The types of what `Append` (internal/infrastructure/postgres/store.go) inserts and of the columns
-- that the schema of the same file declares.
use Prim.Native.String
use nocturne_atlas_event_str.Prelude.{
  ℕ, ◌-◌, ◌^◌, ◌≡◌, refl, String, Bool, true, false, not, Option, none, some, [], ◌∷◌, ◌==◌, ◌&&◌,
  ◌||◌, leb, All,
}
use nocturne_atlas_event_str.Prelude.Int.{ℤ, pos, negsuc, leb_ℤ, ltb_ℤ}
use nocturne_atlas_event_str.Prelude.Text.{cut, cut_from}
use nocturne_atlas_event_str.Exec.{ok}
use nocturne_atlas_event_str.Domain.{Event, Time}
use nocturne_atlas_event_str.Postgres.Rows.{
  SqlValue, text, json, int, bool, timestamp, Row, value_of, insert_args, insert_values,
  inserted_row,
}
use nocturne_atlas_event_str.Postgres.Schema.{Schema, step, run_statements, ddl}
use nocturne_atlas_event_str.Postgres.Schema.Steps.{columns_of}

-- A signed number of so many values on either side of zero.
abbrev pub within : ℕ → ℤ → Bool
within bound n = leb_ℤ (negsuc (bound - 1)) n && ltb_ℤ n (pos bound)

-- What a column's definition says.
abbrev type_name : String → String
type_name definition = elim (cut b' ' definition) [ none ↦ definition | some (t, _) ↦ t ]

abbrev says : String → String → Bool
says phrase definition = leb (String.find definition phrase) (String.len definition)

abbrev is_nullable : String → Bool
is_nullable definition = not (says "NOT NULL" definition) && not (says "PRIMARY KEY" definition)

abbrev is_null : SqlValue → Bool
is_null (timestamp none) = true
is_null _ = false

module _ (is_uuid is_json : String → Bool) where
  -- The value is one of the type.
  abbrev is_of_type : String → SqlValue → Bool
  is_of_type t (text s) = (t == "TEXT") || (t == "UUID" && is_uuid s)
  is_of_type t (json s) = t == "JSONB" && is_json s
  is_of_type t (int n) = (t == "BIGINT" && within (2 ^ 63) n) || (t == "INT" && within (2 ^ 31) n)
  is_of_type t (bool b) = t == "BOOLEAN"
  is_of_type t (timestamp o) = t == "TIMESTAMPTZ"

  unfoldable pub fits : String → SqlValue → Bool
  fits definition v =
      is_of_type (type_name definition) v && (not (is_null v) || is_nullable definition)

  -- The row gives the column a value that it may hold, or none where it has a default.
  abbrev pub Filled : Row → String × String → Type 0
  Filled row (column, definition) = elim (value_of column row) [
    | [] ↦ says "DEFAULT" definition ≡ true
    | v ∷ _ ↦ fits definition v ≡ true
  ]

-- A database without the table.
abbrev pub no_table : Schema
no_table = record { table = none; indexes = [] }

replayed_at-fits :
    (is_uuid is_json : String → Bool) (o : Option Time)
    → fits is_uuid is_json "TIMESTAMPTZ" (timestamp o) ≡ true
unfolding fits cut_from
replayed_at-fits is_uuid is_json none = refl
replayed_at-fits is_uuid is_json (some t) = refl

-- On a database that had no table, the INSERT of an event with a UUID, valid JSON and a version of
-- its type that fits a 32-bit integer gives every column of the table that the schema made a value
-- of the column's type, NULL only where the column may be, and leaves out only a column that has a
-- default.
pub inserted_row-Filled :
    (is_uuid is_json : String → Bool) (meta : String) (e : Event) (version : ℤ)
    → is_uuid e.id ≡ true
    → is_json e.payload ≡ true
    → is_json meta ≡ true
    → within (2 ^ 31) e.event_version ≡ true
    → within (2 ^ 63) version ≡ true
    → (s : Schema) × (run_statements ddl no_table ≡ ok s)
      × All (Filled is_uuid is_json (inserted_row version (insert_args meta e))) (columns_of s)
unfolding run_statements step fits cut_from inserted_row insert_values insert_args
inserted_row-Filled is_uuid is_json meta e version id payload valid small large = (
  _,
  refl,
  (
    rw id refl,
    (
      refl,
      (
        refl,
        (
          refl,
          (
            refl,
            (
              rw large refl,
              (
                refl,
                (
                  rw payload refl,
                  (
                    rw valid refl,
                    (
                      refl,
                      (
                        refl,
                        (
                          rw small refl,
                          (
                            refl,
                            (
                              refl,
                              (
                                refl,
                                (
                                  refl,
                                  (
                                    refl,
                                    (
                                      refl,
                                      (
                                        replayed_at-fits is_uuid is_json e.replayed_at,
                                        (refl, (refl, tt)),
                                      ),
                                    ),
                                  ),
                                ),
                              ),
                            ),
                          ),
                        ),
                      ),
                    ),
                  ),
                ),
              ),
            ),
          ),
        ),
      ),
    ),
  ),
)
