-- ===== src/Postgres/Schema/Laws.antt =====
-- The statements of `ddl` (internal/infrastructure/postgres/store.go) bring every older table up to
-- date, and change nothing a second time.
use nocturne_atlas_event_str.Prelude.{
  String, ◌≡◌, refl, Bool, true, false, Option, none, some, List, [], ◌∷◌, ◌==◌, ◌&&◌, ◌||◌, inl,
  inr, Bool-cases, All, eq_iff, arith,
}
use nocturne_atlas_event_str.Exec.{ok}
use nocturne_atlas_event_str.Postgres.Rows.{insert_columns, select_cols}
use nocturne_atlas_event_str.Postgres.Schema.{
  Columns, Statement, create_table, add_column, create_index, Schema, has_column, step,
  run_statements, table_columns, additions, ddl,
}
use nocturne_atlas_event_str.Postgres.Schema.Steps.{
  columns_of, Keeps, Has, Has-Keeps, is_in, is_in-Has, with_table, Done, run_reaches, run_again,
}

-- The columns of the first version of the table.
abbrev pub base_columns : List String
base_columns =
    "id" ∷ "stream_id" ∷ "type" ∷ "source" ∷ "version" ∷ "occurred_at" ∷ "payload" ∷ "metadata" ∷ []

abbrev pub IsOlder : Option Columns → Type 0
IsOlder none = Unit
IsOlder (some columns) = All (λ c. has_column c columns ≡ true) base_columns

abbrev is_added : String → List Statement → Bool
is_added c [] = false
is_added c (add_column d _ ∷ statements) = (d == c) || is_added c statements
is_added c (create_table _ ∷ statements) = is_added c statements
is_added c (create_index _ _ ∷ statements) = is_added c statements

is_added-Done :
    (c : String) (statements : List Statement) (s : Schema)
    → is_added c statements ≡ true
    → Done statements s
    → has_column c (columns_of s) ≡ true
is_added-Done c [] s e h = cc
is_added-Done c (add_column d _ ∷ statements) s e (h, hs) = elim (Bool-cases (d == c)) [
  | inl same ↦ rw (← (eq_iff d c).0 same) h
  | inr differ ↦ is_added-Done c statements s (rw differ at e) hs
]
is_added-Done c (create_table _ ∷ statements) s e (h, hs) = is_added-Done c statements s e hs
is_added-Done c (create_index _ _ ∷ statements) s e (h, hs) = is_added-Done c statements s e hs

both : (a b : Bool) → (a && b) ≡ true → (a ≡ true) × (b ≡ true)
both a b h = ground arith

module _ (have : List String) (statements : List Statement) where
  abbrev are_provided : List String → Bool
  are_provided [] = true
  are_provided (c ∷ cs) = (is_in c have || is_added c statements) && are_provided cs

  Has-provided :
      (cs : List String) (s : Schema)
      → are_provided cs ≡ true
      → Has have s
      → Done statements s
      → Has cs s
  Has-provided [] s e h d = tt
  Has-provided (c ∷ cs) s e h d =
      let (one, rest) = both (is_in c have || is_added c statements) (are_provided cs) e in
      elim (Bool-cases (is_in c have)) [
        | inl old ↦ (is_in-Has c have s old h, Has-provided cs s rest h d)
        | inr new ↦ (is_added-Done c statements s (rw new at one) d, Has-provided cs s rest h d)
      ]

-- The database is as the store needs it, and applying the schema again changes nothing.
pub record UpToDate (s : Schema) : Type 0 where
  pub insert_ready : All (λ c. has_column c (columns_of s) ≡ true) insert_columns
  pub select_ready : All (λ c. has_column c (columns_of s) ≡ true) select_cols
  pub same_again : run_statements ddl s ≡ ok s

additions_lem :
    (columns : Columns) (indexes : List String)
    → Has base_columns (with_table columns indexes)
    → (s' : Schema) × (run_statements additions (with_table columns indexes) ≡ ok s')
      × Keeps (with_table columns indexes) s'
      × UpToDate s'
additions_lem columns indexes base =
    let (columns1, indexes1, made, kept, done) =
      run_reaches additions base_columns columns indexes base refl in
    let base1 = Has-Keeps base_columns kept base in
    (
      with_table columns1 indexes1,
      made,
      kept,
      record {
        insert_ready =
            Has-provided base_columns additions insert_columns (with_table columns1 indexes1) refl
              base1 done;
        select_ready =
            Has-provided base_columns additions select_cols (with_table columns1 indexes1) refl
              base1 done;
        same_again = run_again ddl columns1 indexes1 (tt, done);
      },
    )

-- Applied to a database with no table, or with a table that has the columns of the first version,
-- whatever others it has, the schema is accepted: then the table has every column that the INSERT
-- and the SELECTs name, nothing that was there is lost, and applying the schema again changes
-- nothing.
pub ddl-UpToDate :
    (s : Schema)
    → IsOlder s.table
    → (s' : Schema) × (run_statements ddl s ≡ ok s') × Keeps s s' × UpToDate s'
unfolding run_statements step
ddl-UpToDate s older = go s.table s.indexes older
  where
    go :
        (table : Option Columns) (indexes : List String)
        → IsOlder table
        → let s : Schema = record { table = table; indexes = indexes } in
          (s' : Schema) × (run_statements ddl s ≡ ok s') × Keeps s s' × UpToDate s'
    go none indexes older =
        let (s', made, kept, ready) =
          additions_lem table_columns indexes
            (refl, (refl, (refl, (refl, (refl, (refl, (refl, (refl, tt)))))))) in
        (s', made, record { columns_kept = λ c h. cc; indexes_kept = kept.indexes_kept }, ready)
    go (some columns) indexes older = additions_lem columns indexes older
