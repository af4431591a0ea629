-- ===== src/Postgres/Contract.antt =====
-- The PostgreSQL store (internal/infrastructure/postgres/store.go) keeps to what the services rely
-- on of the port `event.Store`.
use nocturne_atlas_event_str.Prelude.{
  String, ◌≡◌, ◌≢◌, refl, false, Option, none, some, List, [], ◌∷◌, ◌-◌, ◌^◌, arith, Bool-cases,
  inl, inr,
}
use nocturne_atlas_event_str.Prelude.Int.{ℤ, pos, ltb_ℤ}
use nocturne_atlas_event_str.Exec.{Error, Result, ok, err, lift, ◌>>=◌}
use nocturne_atlas_event_str.Domain.{
  Event, Context, ReplayFilter, Runtime, Publisher, knows, Appended, Contracts,
}
use nocturne_atlas_event_str.Postgres.{
  Db, append, query_for_replay, event_store, statement, inserted,
}
use nocturne_atlas_event_str.Postgres.Table.{
  row_by_id, next_version, has_version, add_row, insert_event,
}
use nocturne_atlas_event_str.Postgres.Queries.{replay_clauses, run_replay_query}
use nocturne_atlas_event_str.Postgres.Sql.{Builder}

row_by_id-knows :
    (id : String) (rows : List Event) → knows rows id ≡ false → row_by_id id rows ≡ none
unfolding knows row_by_id
row_by_id-knows id [] h = refl
row_by_id-knows id (r ∷ rows) h = ground (arith, row_by_id-knows id rows)

add_row-Appended :
    (v : ℤ) (e : Event) (rows : List Event)
    → let (r, rows') = add_row v e rows in Appended rows e (inserted e r) rows'
unfolding add_row
add_row-Appended v e rows = elim (Bool-cases (ltb_ℤ (pos (2 ^ 63 - 1)) v)) [
  | inl big ↦ rw big refl
  | inr fits ↦ elim (Bool-cases (has_version e.stream_id v rows)) [
    | inl taken ↦ rw (fits, taken) refl
    | inr free ↦ rw (fits, free) (refl, refl)
  ]
]

insert_event-Appended :
    (e : Event) (rows : List Event)
    → knows rows e.id ≡ false
    → let (r, rows') = insert_event rows e rows in Appended rows e (inserted e r) rows'
unfolding insert_event
insert_event-Appended e rows new =
    rw (row_by_id-knows e.id rows new, insert_event)
      (add_row-Appended (next_version e.stream_id rows) e rows)

-- An `Append` of an event with a new UUID returns the event with its version set and adds it to the
-- table, and to nothing else; or fails and leaves the table as it was.
pub append_lem :
    (ctx : Context) (e : Event) (db : Db)
    → knows db.rows e.id ≡ false
    → let (r, db') = append ctx e db in Appended db.rows e r db'.rows
unfolding append statement
append_lem ctx e db new = go db.faults
  where
    go :
        (faults : List (Option Error))
        → let (r, db') = append ctx e (record db { faults = faults }) in
          Appended db.rows e r db'.rows
    go [] = insert_event-Appended e db.rows new
    go (none ∷ faults) = insert_event-Appended e db.rows new
    go (some x ∷ faults) = refl

reading-rows :
    {A : Type 0} (caller : String) (q : List Event → Result A) (db : Db)
    → (statement caller (λ rows. (q rows, rows)) db).1.rows ≡ db.rows
unfolding statement
reading-rows {A} caller q db = go db.faults
  where
    go :
        (faults : List (Option Error))
        → (statement caller (λ rows. (q rows, rows)) (record db { faults = faults })).1.rows
          ≡ db.rows
    go [] = refl
    go (none ∷ faults) = refl
    go (some x ∷ faults) = refl

query_for_replay-rows :
    (f : ReplayFilter) (limit : ℤ) (db : Db) → (query_for_replay f limit db).1.rows ≡ db.rows
unfolding query_for_replay
query_for_replay-rows f limit db = go (replay_clauses f)
  where
    go :
        (r : Result Builder)
        → ((lift r >>= λ b.
              statement "query for replay" (λ rows. (run_replay_query b limit rows, rows)))
            db).1.rows
          ≡ db.rows
    go (ok b) = reading-rows "query for replay" (run_replay_query b limit) db
    go (err x) = refl

-- The database keeps to the contract that `Ingest` and `Execute` are proved over, whatever of its
-- statements fail, with any publisher, clock and UUID generator that leave it alone, the UUIDs
-- being new and not empty.
pub event_store-Contracts :
    (rt : Runtime Db) (publisher : Publisher Db)
    → ((ctx : Context) (e : Event) (db : Db) → (publisher.publish ctx e db).1.rows ≡ db.rows)
    → ((db : Db) → (rt.new_uuid db).1.rows ≡ db.rows)
    → ((db : Db) → knows db.rows (rt.new_uuid db).0 ≡ false)
    → ((db : Db) → (rt.new_uuid db).0 ≢ "")
    → ((db : Db) → (rt.now db).1.rows ≡ db.rows)
    → Contracts rt event_store publisher (λ db. db.rows)
unfolding event_store
event_store-Contracts rt publisher publishes keeps fresh nonempty clock = record {
  append_law = append_lem;
  query_keeps = λ ctx f limit db. query_for_replay-rows f limit db;
  publish_keeps = publishes;
  uuid_keeps = keeps;
  uuid_fresh = fresh;
  uuid_nonempty = nonempty;
  now_keeps = clock;
}
