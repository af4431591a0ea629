-- ===== src/Query/Exact.antt =====
-- internal/application/query/service.go on the PostgreSQL store
-- (internal/infrastructure/postgres/store.go).
use nocturne_atlas_event_str.Prelude.{
  ℕ, String, ◌≡◌, refl, ap, ◌∙◌, false, Option, none, some, List, [], ◌∷◌, ◌==◌, eq_iff, arith,
}
use nocturne_atlas_event_str.Prelude.Int.{ℤ, pos}
use nocturne_atlas_event_str.Exec.{Result, ok, err, sentinel, not_found, Exec, or_wrap, pure, ◌>>=◌}
use nocturne_atlas_event_str.Exec.Rules.{bind_ok, or_wrap_ok}
use nocturne_atlas_event_str.Domain.{
  Event, Identity, Context, identity_from_context, tenant_of, Searcher,
}
use nocturne_atlas_event_str.Postgres.{Db, event_store, statement}
use nocturne_atlas_event_str.Postgres.Table.{row_by_id}
use nocturne_atlas_event_str.Postgres.Sql.{occurred_asc, occurred_desc}
use nocturne_atlas_event_str.Postgres.Queries
use nocturne_atlas_event_str.Postgres.Pages.{rows_in, page_of, in_window, list_timeline_exact}
use nocturne_atlas_event_str.Postgres.Listings.{
  is_correlated, is_caused, list_by_correlation_id_lem, list_by_causation_id_lem, page_of-All,
}
use nocturne_atlas_event_str.Query
use nocturne_atlas_event_str.Query.{clamp_limit, clamp_offset, screened}
use nocturne_atlas_event_str.Query.Scope.{Listings, PageOf}
use nocturne_atlas_event_str.Query.Answers.{
  limit_of, offset_of, clamp_limit-pos, clamp_offset-pos, listed, caused, timed, with_id,
  row_by_id-with_id, own_or_absent,
}

-- A listing gives what its statement gives, if the statement does not fail.
listing_lem :
    (t : String) (n : ℕ) (q : List Event → Result (List Event × ℤ)) (db : Db)
    → PageOf t n (q db.rows)
    → PageOf t n (statement "list events" (λ rows. (q rows, rows)) db).0
unfolding statement
listing_lem t n q db h = go db.faults
  where
    go :
        (faults : List (Option Query.Error))
        → PageOf t n
            (statement "list events" (λ rows. (q rows, rows)) (record db { faults = faults })).0
    go [] = h
    go (none ∷ faults) = h
    go (some e ∷ faults) = tt

-- The PostgreSQL store keeps to what the query service relies on.
pub event_store-Listings : Listings event_store
unfolding event_store
event_store-Listings = record {
  correlation_law = λ ctx t id n o db.
      listing_lem t n (Queries.list_by_correlation_id t id (pos n) (pos o)) db (
        rw (list_by_correlation_id_lem t id n o db.rows) (
          page_of-All (λ e. e.tenant_id ≡ t) occurred_desc (is_correlated t id)
            (λ e h. ground (arith, eq_iff e.tenant_id t)) n o db.rows));
  causation_law = λ ctx t id n o db.
      listing_lem t n (Queries.list_by_causation_id t id (pos n) (pos o)) db (
        rw (list_by_causation_id_lem t id n o db.rows) (
          page_of-All (λ e. e.tenant_id ≡ t) occurred_asc (is_caused t id)
            (λ e h. ground (arith, eq_iff e.tenant_id t)) n o db.rows));
  timeline_law = λ ctx t from to n o db.
      listing_lem t n (Queries.list_timeline t from to (pos n) (pos o)) db (
        rw (list_timeline_exact t from to n o db.rows) (
          page_of-All (λ e. e.tenant_id ≡ t) occurred_desc (in_window t from to)
            (λ e h. ground (arith, eq_iff e.tenant_id t)) n o db.rows));
}

-- A database whose statements do not fail.
abbrev pub healthy : List Event → Db
healthy rows = record { rows = rows; faults = [] }

-- A listing of the store at the settled limit and offset.
settled :
    (f : ℤ → ℤ → Result (List Event × ℤ)) (spec : ℕ → ℕ → List Event × ℤ) (limit offset : ℤ)
    → ((n o : ℕ) → f (pos n) (pos o) ≡ ok (spec n o))
    → f (clamp_limit limit) (clamp_offset offset) ≡ ok (spec (limit_of limit) (offset_of offset))
settled f spec limit offset h =
    ap (λ l. f l (clamp_offset offset)) (clamp_limit-pos limit)
    ∙ ap (λ o. f (pos (limit_of limit)) o) (clamp_offset-pos offset)
    ∙ h (limit_of limit) (offset_of offset)

-- A result built from a page of the store.
page_ok :
    {A : Type 0} (t : String) (m : Exec Db (List Event × ℤ)) (mk : List Event × ℤ → A)
    (rows : List Event) (r : Result (List Event × ℤ)) (p : List Event × ℤ)
    → m (healthy rows) ≡ (r, healthy rows)
    → r ≡ ok p
    → (or_wrap t m >>= λ q. pure (mk q)) (healthy rows) ≡ (ok (mk p), healthy rows)
page_ok t m mk rows r p h e =
    bind_ok (or_wrap t m) (λ q. pure (mk q)) (healthy rows) (or_wrap_ok t m _ (ap (λ x. x.0) h ∙ e))
    ∙ ap (λ (s : Db). (ok (mk p), s)) (ap (λ (x : Result (List Event × ℤ) × Db). x.1) h)

module _ (searcher : Searcher Db) (ctx : Context) (caller : Identity)
    (who : tenant_of (identity_from_context ctx) ≡ some caller) (rows : List Event) where
  list_all_lem :
      (q : Query.ListQuery)
      → (q.correlation_id == "") ≡ false
      → Query.list_all event_store searcher ctx q (healthy rows) ≡ (
        ok (
            Query.list_result "postgres" (clamp_limit q.limit) (clamp_offset q.offset) (
              page_of
                (limit_of q.limit)
                (offset_of q.offset)
                (rows_in occurred_desc (is_correlated caller.tenant_id q.correlation_id) rows))),
        healthy rows,
      )
  unfolding Query.list_all Query.list_all_for event_store statement
  list_all_lem q given =
      rw (who, given)
        (page_ok "list events by correlation_id"
          (event_store.list_by_correlation_id ctx caller.tenant_id q.correlation_id
            (clamp_limit q.limit) (clamp_offset q.offset))
          (Query.list_result "postgres" (clamp_limit q.limit) (clamp_offset q.offset)) rows _ _ refl
          (settled
            (λ l o. Queries.list_by_correlation_id caller.tenant_id q.correlation_id l o rows) _
            q.limit q.offset
            (λ n o. list_by_correlation_id_lem caller.tenant_id q.correlation_id n o rows)))

  list_by_causation_id_exact :
      (q : Query.CausationQuery)
      → (q.event_id == "") ≡ false
      → Query.list_by_causation_id event_store searcher ctx q (healthy rows) ≡ (
        ok (
            Query.causation_result q.event_id (clamp_limit q.limit) (clamp_offset q.offset) (
              page_of
                (limit_of q.limit)
                (offset_of q.offset)
                (rows_in occurred_asc (is_caused caller.tenant_id q.event_id) rows))),
        healthy rows,
      )
  unfolding Query.list_by_causation_id Query.list_causation_for event_store statement
  list_by_causation_id_exact q given =
      rw (who, given)
        (page_ok "list events by causation_id"
          (event_store.list_by_causation_id ctx caller.tenant_id q.event_id (clamp_limit q.limit)
            (clamp_offset q.offset))
          (Query.causation_result q.event_id (clamp_limit q.limit) (clamp_offset q.offset)) rows _ _
          refl
          (settled (λ l o. Queries.list_by_causation_id caller.tenant_id q.event_id l o rows) _
            q.limit q.offset
            (λ n o. list_by_causation_id_lem caller.tenant_id q.event_id n o rows)))

  get_timeline_exact :
      (q : Query.TimelineQuery)
      → Query.get_timeline event_store searcher ctx q (healthy rows) ≡ (
        ok (
            Query.timeline_result caller.tenant_id (clamp_limit q.limit) (clamp_offset q.offset) (
              page_of
                (limit_of q.limit)
                (offset_of q.offset)
                (rows_in occurred_desc (in_window caller.tenant_id q.from_time q.to_time) rows))),
        healthy rows,
      )
  unfolding Query.get_timeline Query.timeline_for event_store statement
  get_timeline_exact q = rw who (
      page_ok "list timeline"
        (event_store.list_timeline ctx caller.tenant_id q.from_time q.to_time (clamp_limit q.limit)
          (clamp_offset q.offset))
        (Query.timeline_result caller.tenant_id (clamp_limit q.limit) (clamp_offset q.offset)) rows
        _ _ refl
        (settled (λ l o. Queries.list_timeline caller.tenant_id q.from_time q.to_time l o rows) _
          q.limit q.offset
          (λ n o. list_timeline_exact caller.tenant_id q.from_time q.to_time n o rows)))

  get_by_id_lem :
      (id : String)
      → Query.get_by_id event_store searcher ctx id (healthy rows)
        ≡ (own_or_absent caller (row_by_id id rows), healthy rows)
  unfolding Query.get_by_id event_store statement screened Queries.get_by_id
  get_by_id_lem id = rw who (rw (go (row_by_id id rows)))
    where
      go :
          (o : Option Event)
          → screened caller (elim o [ some e ↦ ok e | none ↦ err (sentinel not_found) ])
            ≡ own_or_absent caller o
      go none = refl
      go (some e) = ground arith

-- For a caller with a tenant, on the PostgreSQL store when no statement fails: `ListAll` with a
-- correlation ID, `ListByCausationID` and `GetTimeline` each return exactly the page of the
-- caller's events that have the correlation ID, have the causation ID or lie in the window, in
-- their order, with their number as the total unless the page is empty, at a limit of 20 where none
-- is given and at most 100, and at the offset where it is not negative; `GetByID` returns the
-- caller's event with the ID, and answers in the same way (not found) for an event of another
-- tenant and for an ID that is not there. The table is left as it was.
pub store_reads_exact :
    (searcher : Searcher Db) (ctx : Context) (caller : Identity) (rows : List Event)
    → tenant_of (identity_from_context ctx) ≡ some caller
    → ((q : Query.ListQuery)
        → (q.correlation_id == "") ≡ false
        → Query.list_all event_store searcher ctx q (healthy rows) ≡ (
          ok (
              listed
                (limit_of q.limit)
                (offset_of q.offset)
                (rows_in occurred_desc (is_correlated caller.tenant_id q.correlation_id) rows)),
          healthy rows,
        ))
      × ((q : Query.CausationQuery)
          → (q.event_id == "") ≡ false
          → Query.list_by_causation_id event_store searcher ctx q (healthy rows) ≡ (
            ok (
                caused q.event_id
                  (limit_of q.limit)
                  (offset_of q.offset)
                  (rows_in occurred_asc (is_caused caller.tenant_id q.event_id) rows)),
            healthy rows,
          ))
      × ((q : Query.TimelineQuery)
          → Query.get_timeline event_store searcher ctx q (healthy rows) ≡ (
            ok (
                timed caller.tenant_id
                  (limit_of q.limit)
                  (offset_of q.offset)
                  (rows_in occurred_desc (in_window caller.tenant_id q.from_time q.to_time) rows)),
            healthy rows,
          ))
      × ((id : String)
          → Query.get_by_id event_store searcher ctx id (healthy rows)
            ≡ (own_or_absent caller (with_id id rows), healthy rows))
store_reads_exact searcher ctx caller rows who = (
  λ q given.
      rw (clamp_limit-pos q.limit, clamp_offset-pos q.offset) at
        (list_all_lem searcher ctx caller who rows q given),
  λ q given.
      rw (clamp_limit-pos q.limit, clamp_offset-pos q.offset) at
        (list_by_causation_id_exact searcher ctx caller who rows q given),
  λ q.
      rw (clamp_limit-pos q.limit, clamp_offset-pos q.offset) at
        (get_timeline_exact searcher ctx caller who rows q),
  λ id. rw (row_by_id-with_id id rows) at (get_by_id_lem searcher ctx caller who rows id),
)
