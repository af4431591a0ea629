-- ===== src/Postgres/Schema/Steps.antt =====
-- The statements of a schema (`ddl` of internal/infrastructure/postgres/store.go) as steps.
use nocturne_atlas_event_str.Prelude.{
  String, ◌≡◌, refl, ap, ◌∙◌, Bool, true, Option, none, some, List, [], ◌∷◌, ◌++◌, ◌==◌, ◌&&◌, ◌||◌,
  any, inl, inr, Bool-cases, All, eq_iff, arith,
}
use nocturne_atlas_event_str.Exec.{Result, ok, err}
use nocturne_atlas_event_str.Postgres.Schema.{
  Columns, Statement, create_table, add_column, create_index, Schema, has_column, has_columns,
  has_index, step, run_statements,
}

abbrev pub columns_of : Schema → Columns
columns_of s = elim s.table [ none ↦ [] | some columns ↦ columns ]

abbrev pub HasTable : Option Columns → Type 0
HasTable none = ⊥
HasTable (some _) = Unit

-- A later schema has the columns and the indexes of an earlier one.
pub record Keeps (s s' : Schema) : Type 0 where
  pub columns_kept :
      (c : String) → has_column c (columns_of s) ≡ true → has_column c (columns_of s') ≡ true
  pub indexes_kept : (n : String) → has_index n s.indexes ≡ true → has_index n s'.indexes ≡ true

pub Keeps-refl : (s : Schema) → Keeps s s
Keeps-refl s = record { columns_kept = λ c h. h; indexes_kept = λ n h. h }

Keeps-trans : {s t u : Schema} → Keeps s t → Keeps t u → Keeps s u
Keeps-trans k l = record {
  columns_kept = λ c h. l.columns_kept c (k.columns_kept c h);
  indexes_kept = λ n h. l.indexes_kept n (k.indexes_kept n h);
}

-- What a statement is there for.
abbrev pub Holds : Statement → Schema → Type 0
Holds (create_table _) s = Unit
Holds (add_column c _) s = has_column c (columns_of s) ≡ true
Holds (create_index n _) s = has_index n s.indexes ≡ true

pub Holds-Keeps : (st : Statement) {s s' : Schema} → Keeps s s' → Holds st s → Holds st s'
Holds-Keeps (create_table _) k h = tt
Holds-Keeps (add_column c _) k h = k.columns_kept c h
Holds-Keeps (create_index n _) k h = k.indexes_kept n h

abbrev pub is_in : String → List String → Bool
is_in c cs = any (λ d. d == c) cs

abbrev pub are_in : List String → List String → Bool
are_in [] have = true
are_in (c ∷ cs) have = is_in c have && are_in cs have

-- Every index is over columns that are there, or that a statement before it adds.
abbrev pub is_ordered : List String → List Statement → Bool
is_ordered have [] = true
is_ordered have (create_table _ ∷ statements) = is_ordered have statements
is_ordered have (add_column c _ ∷ statements) = is_ordered (c ∷ have) statements
is_ordered have (create_index _ cs ∷ statements) = are_in cs have && is_ordered have statements

abbrev pub Has : List String → Schema → Type 0
Has cs s = All (λ c. has_column c (columns_of s) ≡ true) cs

pub Has-Keeps : (cs : List String) {s s' : Schema} → Keeps s s' → Has cs s → Has cs s'
Has-Keeps [] k h = tt
Has-Keeps (c ∷ cs) k (h, hs) = (k.columns_kept c h, Has-Keeps cs k hs)

pub is_in-Has :
    (c : String) (have : List String) (s : Schema)
    → is_in c have ≡ true
    → Has have s
    → has_column c (columns_of s) ≡ true
is_in-Has c [] s e h = ground arith
is_in-Has c (d ∷ have) s e (h, hs) = elim (Bool-cases (d == c)) [
  | inl same ↦ rw (← (eq_iff d c).0 same) h
  | inr differ ↦ is_in-Has c have s (rw differ at e) hs
]

are_in-Has :
    (cs have : List String) (s : Schema)
    → are_in cs have ≡ true
    → Has have s
    → has_columns cs (columns_of s) ≡ true
are_in-Has [] have s e h = refl
are_in-Has (c ∷ cs) have s e h =
    let one = is_in-Has c have s (ground arith) h in
    let rest = are_in-Has cs have s (ground arith) h in ground arith

any_append :
    (c : String) (columns : Columns) (column : String × String)
    → has_column c (columns ++ column ∷ []) ≡ (has_column c columns || (column.0 == c))
any_append c [] column = ground arith
any_append c (d ∷ columns) column = let rest = any_append c columns column in ground arith

abbrev pub with_table : Columns → List String → Schema
with_table columns indexes = record { table = some columns; indexes = indexes }

-- The statements succeed on a table, keep what is there and do what `Done` says.
abbrev pub Reaches : Result Schema → Schema → (Schema → Type 0) → Type 0
Reaches r s Done =
    (columns : Columns) × (indexes : List String) × (r ≡ ok (with_table columns indexes))
    × Keeps s (with_table columns indexes)
    × Done (with_table columns indexes)

step_reaches :
    (st : Statement) (statements : List Statement) (have : List String) (columns : Columns)
    (indexes : List String)
    → Has have (with_table columns indexes)
    → is_ordered have (st ∷ statements) ≡ true
    → Reaches (step st (with_table columns indexes)) (with_table columns indexes) (Holds st)
unfolding step
step_reaches (create_table _) statements have columns indexes h e =
    (columns, indexes, refl, Keeps-refl _, tt)
step_reaches (add_column c d) statements have columns indexes h e =
    elim (Bool-cases (has_column c columns)) [
      | inl old ↦ (columns, indexes, rw old refl, Keeps-refl _, old)
      | inr new ↦ (
        columns ++ (c, d) ∷ [],
        indexes,
        rw new refl,
        record {
          columns_kept = λ b there. let p = any_append b columns (c, d) in ground arith;
          indexes_kept = λ n there. there;
        },
        let p = any_append c columns (c, d) in ground (arith, eq_iff c c),
      )
    ]
step_reaches (create_index n cs) statements have columns indexes h e =
    elim (Bool-cases (has_index n indexes)) [
      | inl old ↦ (columns, indexes, rw old refl, Keeps-refl _, old)
      | inr new ↦
          let given = are_in-Has cs have (with_table columns indexes) (ground arith) h in
          (
            columns,
            n ∷ indexes,
            rw (new, given) refl,
            record { columns_kept = λ b there. there; indexes_kept = λ m there. ground arith },
            ground (arith, eq_iff n n),
          )
    ]

-- Everything that the statements are there for.
abbrev pub Done : List Statement → Schema → Type 0
Done statements s = All (λ st. Holds st s) statements

abbrev have_after : Statement → List String → List String
have_after (add_column c _) have = c ∷ have
have_after (create_table _) have = have
have_after (create_index _ _) have = have

Has-have_after :
    (st : Statement) (have : List String) (s : Schema)
    → Has have s
    → Holds st s
    → Has (have_after st have) s
Has-have_after (add_column c _) have s h k = (k, h)
Has-have_after (create_table _) have s h k = h
Has-have_after (create_index _ _) have s h k = h

is_ordered-tail :
    (st : Statement) (statements : List Statement) (have : List String)
    → is_ordered have (st ∷ statements) ≡ true
    → is_ordered (have_after st have) statements ≡ true
is_ordered-tail (add_column c _) statements have e = e
is_ordered-tail (create_table _) statements have e = e
is_ordered-tail (create_index _ _) statements have e = ground arith

run_step :
    (st : Statement) (statements : List Statement) (s s1 : Schema)
    → step st s ≡ ok s1
    → run_statements (st ∷ statements) s ≡ run_statements statements s1
unfolding run_statements
run_step st statements s s1 made =
    ap (λ r. elim r [ err e ↦ err e | ok s' ↦ run_statements statements s' ]) made

pub run_reaches :
    (statements : List Statement) (have : List String) (columns : Columns) (indexes : List String)
    → Has have (with_table columns indexes)
    → is_ordered have statements ≡ true
    → Reaches
        (run_statements statements (with_table columns indexes))
        (with_table columns indexes)
        (Done statements)
unfolding run_statements
run_reaches [] have columns indexes h e = (columns, indexes, refl, Keeps-refl _, tt)
run_reaches (st ∷ statements) have columns indexes h e =
    let (columns1, indexes1, made, kept, holds) =
      step_reaches st statements have columns indexes h e in
    let (columns2, indexes2, made2, kept2, done) =
      run_reaches statements (have_after st have) columns1 indexes1
        (Has-have_after st have _ (Has-Keeps have kept h) holds)
        (is_ordered-tail st statements have e) in
    (
      columns2,
      indexes2,
      run_step st statements _ _ made ∙ made2,
      Keeps-trans kept kept2,
      (Holds-Keeps st kept2 holds, done),
    )

-- Statements that have done what they are there for change nothing.
pub run_again :
    (statements : List Statement) (columns : Columns) (indexes : List String)
    → Done statements (with_table columns indexes)
    → run_statements statements (with_table columns indexes) ≡ ok (with_table columns indexes)
unfolding run_statements step
run_again [] columns indexes h = refl
run_again (create_table _ ∷ statements) columns indexes (h, hs) =
    run_again statements columns indexes hs
run_again (add_column c _ ∷ statements) columns indexes (h, hs) =
    rw (h, run_statements) (run_again statements columns indexes hs)
run_again (create_index n _ ∷ statements) columns indexes (h, hs) =
    rw (h, run_statements) (run_again statements columns indexes hs)
