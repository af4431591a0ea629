-- ===== src/Postgres/Pages.antt =====
-- The pages of `listWithCount` and the result of `QueryForReplay`
-- (internal/infrastructure/postgres/store.go), against the rows that the conditions select.
use mathlib.Core.Path.{fun_ext}
use mathlib.Core.List.{append_assoc, append-nil}
use nocturne_atlas_event_str.Prelude.{
  ◌++◌, ℕ, suc, ◌+◌, ◌-◌, ◌≤◌, ◌^◌, String, ◌≡◌, refl, ap, ◌∙◌, Bool, true, not, some, List, [],
  ◌∷◌, ◌==◌, arith, ◌&&◌, if◌then◌else◌, length, length-append, length-take, take_all, take, drop,
  select, ltb,
}
use nocturne_atlas_event_str.Prelude.Int.{ℤ, pos, leb_ℤ, ltb_ℤ, int64_add_one}
use nocturne_atlas_event_str.Exec.{ok, err, over_limit}
use nocturne_atlas_event_str.Domain.{Event, Time, is_zero, ReplayFilter}
use nocturne_atlas_event_str.Postgres.{query_for_replay, statement}
use nocturne_atlas_event_str.Postgres.Sql.{
  Value, int, Clause, arg, Builder, occurred_asc, occurred_desc, limit_rows, offset_rows, order_by,
}
use nocturne_atlas_event_str.Postgres.Queries.{
  select_where, timeline_clauses, with_total, scan_totals, list_with_count, list_timeline,
  run_replay_query,
}
use nocturne_atlas_event_str.Postgres.Filters.{
  Selects, filter_matches, is_scoped, is_set_and, replay_clauses-Selects, timeline_clauses-Selects,
  arg_added,
}

-- The rows that pass a test, in order.
abbrev pub rows_in : (Event → Event → Bool) → (Event → Bool) → List Event → List Event
rows_in before test rows = order_by before (select test rows)

select_where-Selects :
    (b : Builder) (test : Event → Bool) (extra : List Value) (before : Event → Event → Bool)
    (rows : List Event)
    → Selects b test
    → select_where (b.args ++ extra) b.clauses before rows ≡ rows_in before test rows
unfolding select_where
select_where-Selects b test extra before rows h =
    ap (λ (p : Event → Bool). order_by before (select p rows)) (fun_ext (λ e. h.1 extra e))

-- The total that a page reports: none if it has no row.
abbrev pub total_of : ℕ → List Event → ℤ → ℤ
total_of n [] t = t
total_of n (e ∷ page) t = pos n

scan_totals_lem :
    (n : ℕ) (page acc : List Event) (t : ℤ)
    → scan_totals (with_total (pos n) page) acc t ≡ (acc ++ page, total_of n page t)
unfolding scan_totals
scan_totals_lem n [] acc t = rw append-nil
scan_totals_lem n (e ∷ page) acc t =
    rw (scan_totals_lem n page (acc ++ e ∷ []) (pos n), append_assoc) (rw (last page))
  where
    last : (p : List Event) → total_of n p (pos n) ≡ pos n
    last [] = refl
    last (x ∷ p) = refl

-- A page: `offset` rows are skipped, `limit` at most are kept.
abbrev pub page_of : ℕ → ℕ → List Event → List Event × ℤ
page_of limit offset matched =
    let page = take limit (drop offset matched) in (page, total_of (length matched) page (pos 0))

pub list_with_count_lem :
    (clauses : List Clause) (before : Event → Event → Bool) (l o limit offset : ℕ)
    (args : List Value) (rows : List Event)
    → arg args l ≡ some (int (pos limit))
    → arg args o ≡ some (int (pos offset))
    → list_with_count clauses before l o args rows
      ≡ ok (page_of limit offset (select_where args clauses before rows))
unfolding list_with_count limit_rows offset_rows
list_with_count_lem clauses before l o limit offset args rows p q =
    rw (q, list_with_count) (rw (p, list_with_count) (rw scan_totals_lem))

arg_second :
    (args : List Value) (v w : Value) → arg (args ++ v ∷ w ∷ []) (suc (length args) + 1) ≡ some w
arg_second args v w =
    let e : suc (length args) + 1 ≡ suc (length (args ++ v ∷ [])) =
      omega (arith, length-append args (v ∷ [])) in
    rw (e, ← append_assoc args (v ∷ []) (w ∷ [])) (arg_added (args ++ v ∷ []) w [])

-- The condition of `ListTimeline`.
abbrev pub in_window : String → Time → Time → Event → Bool
in_window tenant_id from to e =
    (e.tenant_id == tenant_id)
    && is_set_and (not (is_zero from)) (leb_ℤ from e.occurred_at)
    && is_set_and (not (is_zero to)) (leb_ℤ e.occurred_at to)

-- A timeline page holds exactly the tenant's events in the window, both bounds inclusive and each
-- applied only if it is set, with the newest first, from `offset` on and `limit` at most; its total
-- is the number of all of them if the page has an event, and 0 if it has none.
pub list_timeline_exact :
    (tenant_id : String) (from to : Time) (limit offset : ℕ) (rows : List Event)
    → list_timeline tenant_id from to (pos limit) (pos offset) rows
      ≡ ok (page_of limit offset (rows_in occurred_desc (in_window tenant_id from to) rows))
unfolding list_timeline
list_timeline_exact tenant_id from to limit offset rows =
    let b = timeline_clauses tenant_id from to in
    let sel = timeline_clauses-Selects tenant_id from to in
    let extra : List Value = int (pos limit) ∷ int (pos offset) ∷ [] in
    list_with_count_lem b.clauses occurred_desc b.arg_idx (b.arg_idx + 1) limit offset
      (b.args ++ extra) rows (rw sel.0 (arg_added b.args (int (pos limit)) (int (pos offset) ∷ [])))
      (rw sel.0 (arg_second b.args (int (pos limit)) (int (pos offset))))
    ∙ ap (λ (m : List Event). ok (page_of limit offset m))
        (select_where-Selects b _ extra occurred_desc rows sel)

run_replay_query_lem :
    (b : Builder) (test : Event → Bool) (n : ℕ) (rows : List Event)
    → suc n ≤ 2 ^ 63 - 1
    → Selects b test
    → run_replay_query b (pos n) rows ≡ (
        let matched = rows_in occurred_asc test rows in
        if ltb n (length matched) then err (over_limit (suc n) (pos n)) else ok matched)
unfolding run_replay_query limit_rows
run_replay_query_lem b test n rows small sel =
    rw
      (
        int64_add_one n small,
        run_replay_query,
        sel.0,
        arg_added b.args (int (pos (n + 1))) [],
        select_where-Selects b test (int (pos (n + 1)) ∷ []) occurred_asc rows sel,
      )
      (cut_off (rows_in occurred_asc test rows))
  where
    cut_off :
        (m : List Event)
        → (if ltb_ℤ (pos n) (pos (length (take (n + 1) m)))
            then err (over_limit (length (take (n + 1) m)) (pos n))
            else ok (take (n + 1) m))
          ≡ (if ltb n (length m) then err (over_limit (suc n) (pos n)) else ok m)
    cut_off m = ground (arith, length-take (n + 1) m, take_all (n + 1) m)

-- With a limit of `n` below the largest 64-bit `int`, `QueryForReplay` returns exactly the events
-- that the filter asks for, the oldest first, if they are `n` at most, and else an error that wraps
-- `ErrReplayLimitExceeded`. The table is left as it was. (No statement fails, and the filter has an
-- event ID or a tenant.)
pub query_for_replay_exact :
    (f : ReplayFilter) (n : ℕ) (rows : List Event)
    → suc n ≤ 2 ^ 63 - 1
    → is_scoped f ≡ true
    → query_for_replay f (pos n) (record { rows = rows; faults = [] }) ≡ (
      let matched = rows_in occurred_asc (filter_matches f) rows in
          if ltb n (length matched) then err (over_limit (suc n) (pos n)) else ok matched,
      record { rows = rows; faults = [] },
    )
unfolding query_for_replay statement
query_for_replay_exact f n rows small scoped =
    let (b, built, sel) = replay_clauses-Selects f scoped in
    rw (built, query_for_replay) (rw (run_replay_query_lem b (filter_matches f) n rows small sel))
