-- ===== src/Postgres/Queries.antt =====
-- The SELECT methods of internal/infrastructure/postgres/store.go, as functions of the table's
-- rows.
use nocturne_atlas_event_str.Prelude.{
  ℕ, ◌+◌, String, Bool, true, false, not, none, some, List, [], ◌∷◌, ◌++◌, ◌==◌, length, select,
  if◌then◌else◌,
}
use nocturne_atlas_event_str.Prelude.Int.{ℤ, pos, ltb_ℤ, int64_add}
use nocturne_atlas_event_str.Exec.{Result, ok, err, text, sentinel, not_found, over_limit}
use nocturne_atlas_event_str.Domain.{
  Time, is_zero, Event, ReplayFilter, Context, identity_from_context, tenant_of,
}
use nocturne_atlas_event_str.Postgres.Table.{row_by_id}
use nocturne_atlas_event_str.Postgres.Sql.{
  tenant, stream, correlation, causation, kind, actor, Value, txt, time, int, Clause, equals,
  from_version, at_least, at_most, id_in, arg, where_all, order_by, version_asc, occurred_asc,
  occurred_desc, int_or_zero, limit_rows, offset_rows, Builder, no_clause, add, add_if, add_ids,
}

-- SELECT … FROM events WHERE … ORDER BY ….
unfoldable pub select_where :
    List Value → List Clause → (Event → Event → Bool) → List Event → List Event
select_where args clauses before rows =
    order_by before (select (λ e. where_all args e clauses) rows)

-- `GetByStreamID`
unfoldable pub get_by_stream_id : Context → String → List Event → List Event
get_by_stream_id ctx stream_id rows = elim (tenant_of (identity_from_context ctx)) [
  | some identity ↦
      select_where (txt stream_id ∷ txt identity.tenant_id ∷ [])
        (equals stream 1 ∷ equals tenant 2 ∷ []) version_asc rows
  | none ↦ select_where (txt stream_id ∷ []) (equals stream 1 ∷ []) version_asc rows
]

-- `GetFromVersion`
unfoldable pub get_from_version : Context → String → ℤ → List Event → List Event
get_from_version ctx stream_id from rows = elim (tenant_of (identity_from_context ctx)) [
  | some identity ↦
      select_where (txt stream_id ∷ int from ∷ txt identity.tenant_id ∷ [])
        (equals stream 1 ∷ from_version 2 ∷ equals tenant 3 ∷ []) version_asc rows
  | none ↦
      select_where (txt stream_id ∷ int from ∷ []) (equals stream 1 ∷ from_version 2 ∷ [])
        version_asc rows
]

-- `GetByID`
unfoldable pub get_by_id : String → List Event → Result Event
get_by_id id rows = elim (row_by_id id rows) [ some e ↦ ok e | none ↦ err (sentinel not_found) ]

-- COUNT(*) OVER(): each row of a page comes with the number of rows that match.
abbrev pub with_total : ℤ → List Event → List (Event × ℤ)
with_total n [] = []
with_total n (e ∷ page) = (e, n) ∷ with_total n page

-- The loop of `listWithCount`: `total` is that of the last row scanned.
unfoldable pub scan_totals : List (Event × ℤ) → List Event → ℤ → List Event × ℤ
scan_totals [] evts total = (evts, total)
scan_totals ((e, n) ∷ rows) evts total = scan_totals rows (evts ++ e ∷ []) n

abbrev bind {ℓ κ} : {A : Type ℓ} {B : Type κ} → Result A → (A → Result B) → Result B
bind (ok a) f = f a
bind (err e) f = err e

-- `listWithCount`, with the numbers of the placeholders of LIMIT and OFFSET
unfoldable pub list_with_count :
    List Clause → (Event → Event → Bool) → ℕ → ℕ → List Value → List Event → Result (List Event × ℤ)
list_with_count clauses before limit_arg offset_arg args rows =
    let matched = select_where args clauses before rows in
    bind (offset_rows "list events" (int_or_zero (arg args offset_arg)) matched) λ rest.
      bind (limit_rows "list events" (int_or_zero (arg args limit_arg)) rest)
        λ page. ok (scan_totals (with_total (pos (length matched)) page) [] (pos 0))

-- `ListByCorrelationID`
unfoldable pub list_by_correlation_id :
    String → String → ℤ → ℤ → List Event → Result (List Event × ℤ)
list_by_correlation_id tenant_id correlation_id limit offset =
    list_with_count (equals tenant 1 ∷ equals correlation 2 ∷ []) occurred_desc 3 4
      (txt tenant_id ∷ txt correlation_id ∷ int limit ∷ int offset ∷ [])

-- `ListByCausationID`
unfoldable pub list_by_causation_id : String → String → ℤ → ℤ → List Event → Result (List Event × ℤ)
list_by_causation_id tenant_id causation_id limit offset =
    list_with_count (equals tenant 1 ∷ equals causation 2 ∷ []) occurred_asc 3 4
      (txt tenant_id ∷ txt causation_id ∷ int limit ∷ int offset ∷ [])

-- The WHERE clause of `ListTimeline`.
unfoldable pub timeline_clauses : String → Time → Time → Builder
timeline_clauses tenant_id from_time to_time =
    add_if (not (is_zero to_time)) at_most (time to_time) (
      add_if (not (is_zero from_time)) at_least (time from_time)
        (add (equals tenant) (txt tenant_id) no_clause))

-- `ListTimeline`
unfoldable pub list_timeline : String → Time → Time → ℤ → ℤ → List Event → Result (List Event × ℤ)
list_timeline tenant_id from_time to_time limit offset =
    let b = timeline_clauses tenant_id from_time to_time in
    list_with_count b.clauses occurred_desc b.arg_idx (b.arg_idx + 1)
      (b.args ++ int limit ∷ int offset ∷ [])

abbrev pub is_empty {ℓ} : {A : Type ℓ} → List A → Bool
is_empty [] = true
is_empty (x ∷ xs) = false

-- The WHERE clause of `QueryForReplay`, by IDs and by the other conditions.
unfoldable pub clauses_by_ids : ReplayFilter → Builder
clauses_by_ids f =
    let (placeholders, b) = add_ids f.event_ids [] no_clause in
    add_if (not (f.tenant_id == "")) (equals tenant) (txt f.tenant_id)
      (record b { clauses = b.clauses ++ id_in placeholders ∷ [] })

unfoldable pub clauses_by_filter : ReplayFilter → Builder
clauses_by_filter f =
    let b1 = add (equals tenant) (txt f.tenant_id) no_clause in
    let b2 = add_if (not (f.stream_id == "")) (equals stream) (txt f.stream_id) b1 in
    let b3 = add_if (not (f.correlation_id == "")) (equals correlation) (txt f.correlation_id) b2 in
    let b4 = add_if (not (f.event_type == "")) (equals kind) (txt f.event_type) b3 in
    let b5 = add_if (not (f.actor_id == "")) (equals actor) (txt f.actor_id) b4 in
    let b6 = add_if (not (is_zero f.from_time)) at_least (time f.from_time) b5 in
    add_if (not (is_zero f.to_time)) at_most (time f.to_time) b6

unfoldable pub replay_clauses : ReplayFilter → Result Builder
replay_clauses f =
    if not (is_empty f.event_ids)
    then ok (clauses_by_ids f)
    else if f.tenant_id == ""
    then err (text "replay filter: tenant_id is required when event_ids is not specified")
    else ok (clauses_by_filter f)

-- The statement of `QueryForReplay`: one row more than the limit is fetched, to see whether there
-- are more. The addition is that of a 64-bit `int`.
unfoldable pub run_replay_query : Builder → ℤ → List Event → Result (List Event)
run_replay_query b safety_limit rows =
    let args = b.args ++ int (int64_add safety_limit (pos 1)) ∷ [] in
    bind
      (limit_rows "query for replay" (int_or_zero (arg args b.arg_idx))
        (select_where args b.clauses occurred_asc rows))
      λ evts.
        if ltb_ℤ safety_limit (pos (length evts))
        then err (over_limit (length evts) safety_limit)
        else ok evts
