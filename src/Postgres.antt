-- ===== src/Postgres.antt =====
-- internal/infrastructure/postgres/store.go: the event store as an implementation of the port
-- `event.Store`. Every method is one SQL statement; a statement may fail, which the list `faults`
-- of what the coming statements meet says, and then leaves the table as it was.
pub mod Table
pub mod Sql
pub mod Queries
pub mod Versions
pub mod Order
pub mod Pages
pub mod Filters
pub mod Listings
pub mod Contract
pub mod Concurrent
pub mod Rows
pub mod Typing
pub mod Schema
pub mod Startup
use nocturne_atlas_event_str.Prelude.{String, Option, none, some, List, [], ◌∷◌}
use nocturne_atlas_event_str.Prelude.Int.{ℤ}
use nocturne_atlas_event_str.Exec.{Result, ok, err, Error, wrap, Exec, lift, ◌>>=◌}
use nocturne_atlas_event_str.Domain.{Event, set_version, Context, ReplayFilter, Store}
use Table.{insert_event}
use Queries

pub record Db : Type 0 where
  pub rows : List Event
  pub faults : List (Option Error)

-- What the next statement meets.
abbrev next_fault : List (Option Error) → Option Error
next_fault [] = none
next_fault (f ∷ fs) = f

abbrev later_faults : List (Option Error) → List (Option Error)
later_faults [] = []
later_faults (f ∷ fs) = fs

-- A statement on the table; what goes wrong is wrapped by the caller's text.
unfoldable pub statement : {A : Type 0} → String → (List Event → Result A × List Event) → Exec Db A
statement caller run db = elim (next_fault db.faults) [
  | some e ↦ (err (wrap caller e), record db { faults = later_faults db.faults })
  | none ↦
      let (r, rows) = run db.rows in (r, record { rows = rows; faults = later_faults db.faults })
]

-- A statement that reads.
abbrev reading : {A : Type 0} → String → (List Event → Result A) → Exec Db A
reading caller q = statement caller (λ rows. (q rows, rows))

abbrev pub inserted : Event → Result ℤ → Result Event
inserted e (ok v) = ok (set_version e v)
inserted e (err x) = err (wrap "insert event" x)

-- `Append`; encoding a string map as JSON does not fail.
unfoldable pub append : Context → Event → Exec Db Event
append ctx e =
    statement "insert event"
      (λ rows. let (r, rows') = insert_event rows e rows in (inserted e r, rows'))

-- `QueryForReplay`
unfoldable pub query_for_replay : ReplayFilter → ℤ → Exec Db (List Event)
query_for_replay f safety_limit = lift (Queries.replay_clauses f) >>= λ b.
    reading "query for replay" (Queries.run_replay_query b safety_limit)

unfoldable pub event_store : Store Db
event_store = record {
  append = append;
  get_by_stream_id = λ ctx stream_id.
      reading "query by stream" (λ rows. ok (Queries.get_by_stream_id ctx stream_id rows));
  get_by_id = λ ctx id. reading "get by id" (Queries.get_by_id id);
  get_from_version = λ ctx stream_id from.
      reading "query from version" (λ rows. ok (Queries.get_from_version ctx stream_id from rows));
  list_by_correlation_id = λ ctx tenant_id id limit offset.
      reading "list events" (Queries.list_by_correlation_id tenant_id id limit offset);
  list_by_causation_id = λ ctx tenant_id id limit offset.
      reading "list events" (Queries.list_by_causation_id tenant_id id limit offset);
  list_timeline = λ ctx tenant_id from to limit offset.
      reading "list events" (Queries.list_timeline tenant_id from to limit offset);
  query_for_replay = λ ctx f limit. query_for_replay f limit;
}
