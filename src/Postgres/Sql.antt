-- ===== src/Postgres/Sql.antt =====
-- The SQL that internal/infrastructure/postgres/store.go assembles: conditions with numbered
-- placeholders, the arguments that the placeholders stand for, ORDER BY, LIMIT and OFFSET.
use nocturne_atlas_event_str.Prelude.{
  ℕ, ◌+◌, ◌-◌, String, Bool, true, false, Option, some, List, [], ◌∷◌, ◌++◌, ◌&&◌, ◌==◌, any, take,
  drop, get_elem?, if◌then◌else◌,
}
use nocturne_atlas_event_str.Prelude.Int.{ℤ, pos, negsuc, leb_ℤ}
use nocturne_atlas_event_str.Exec.{Result, ok, err, text, wrap}
use nocturne_atlas_event_str.Domain.{Time, Event}

pub data Column : Type 0 where
  tenant stream correlation causation kind actor : Column

abbrev pub column_of : Event → Column → String
column_of e tenant = e.tenant_id
column_of e stream = e.stream_id
column_of e correlation = e.correlation_id
column_of e causation = e.causation_id
column_of e kind = e.type
column_of e actor = e.actor_id

pub data Value : Type 0 where
  txt : String → Value
  time : Time → Value
  int : ℤ → Value

-- `column = $n`, `version >= $n`, `occurred_at >= $n`, `occurred_at <= $n`, `id::text IN ($n, …)`.
pub data Clause : Type 0 where
  equals : Column → ℕ → Clause
  from_version at_least at_most : ℕ → Clause
  id_in : List ℕ → Clause

-- The argument that `$n` stands for; placeholders count from 1.
abbrev pub arg : List Value → ℕ → Option Value
arg args n = get_elem? args (n - 1)

abbrev pub is_text : Option Value → String → Bool
is_text (some (txt t)) s = s == t
is_text _ s = false

abbrev pub is_from : Option Value → ℤ → Bool
is_from (some (int v)) w = leb_ℤ v w
is_from _ w = false

abbrev pub since : Option Value → Time → Bool
since (some (time t)) u = leb_ℤ t u
since _ u = false

abbrev pub until : Option Value → Time → Bool
until (some (time t)) u = leb_ℤ u t
until _ u = false

unfoldable pub holds : List Value → Event → Clause → Bool
holds args e (equals c n) = is_text (arg args n) (column_of e c)
holds args e (from_version n) = is_from (arg args n) e.version
holds args e (at_least n) = since (arg args n) e.occurred_at
holds args e (at_most n) = until (arg args n) e.occurred_at
holds args e (id_in ns) = any (λ n. is_text (arg args n) e.id) ns

-- `WHERE c AND …`
unfoldable pub where_all : List Value → Event → List Clause → Bool
where_all args e [] = true
where_all args e (c ∷ cs) = holds args e c && where_all args e cs

-- ORDER BY, as an insertion sort. SQL leaves the order of rows with equal keys open.
module _ (before : Event → Event → Bool) where
  unfoldable pub place : Event → List Event → List Event
  place e [] = e ∷ []
  place e (r ∷ rows) = if before e r then e ∷ r ∷ rows else r ∷ place e rows

  unfoldable pub order_by : List Event → List Event
  order_by [] = []
  order_by (r ∷ rows) = place r (order_by rows)

abbrev pub version_asc : Event → Event → Bool
version_asc a b = leb_ℤ a.version b.version

abbrev pub occurred_asc : Event → Event → Bool
occurred_asc a b = leb_ℤ a.occurred_at b.occurred_at

abbrev pub occurred_desc : Event → Event → Bool
occurred_desc a b = leb_ℤ b.occurred_at a.occurred_at

-- `LIMIT $n` and `OFFSET $n` with an integer argument.
abbrev pub int_or_zero : Option Value → ℤ
int_or_zero (some (int v)) = v
int_or_zero _ = pos 0

-- LIMIT and OFFSET; the database refuses a negative number, and the caller wraps its error.
unfoldable pub limit_rows : String → ℤ → List Event → Result (List Event)
limit_rows caller (pos n) rows = ok (take n rows)
limit_rows caller (negsuc n) rows = err (wrap caller (text "LIMIT must not be negative"))

unfoldable pub offset_rows : String → ℤ → List Event → Result (List Event)
offset_rows caller (pos n) rows = ok (drop n rows)
offset_rows caller (negsuc n) rows = err (wrap caller (text "OFFSET must not be negative"))

-- The WHERE clause under construction: `clauses`, `args` and `argIdx`.
pub record Builder : Type 0 where
  pub clauses : List Clause
  pub args : List Value
  pub arg_idx : ℕ

abbrev pub no_clause : Builder
no_clause = record { clauses = []; args = []; arg_idx = 1 }

-- One clause with one argument: the three lines that the source repeats for each condition.
unfoldable pub add : (ℕ → Clause) → Value → Builder → Builder
add clause v b = record {
  clauses = b.clauses ++ clause b.arg_idx ∷ [];
  args = b.args ++ v ∷ [];
  arg_idx = b.arg_idx + 1;
}

unfoldable pub add_if : Bool → (ℕ → Clause) → Value → Builder → Builder
add_if test clause v b = if test then add clause v b else b

-- The loop over `f.EventIDs`: a placeholder and an argument for each.
unfoldable pub add_ids : List String → List ℕ → Builder → List ℕ × Builder
add_ids [] placeholders b = (placeholders, b)
add_ids (id ∷ ids) placeholders b =
    add_ids ids (placeholders ++ b.arg_idx ∷ [])
      (record b { args = b.args ++ txt id ∷ []; arg_idx = b.arg_idx + 1 })
