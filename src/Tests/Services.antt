-- ===== src/Tests/Services.antt =====
-- The theorems on the application services at concrete inputs.
use nocturne_atlas_event_str.Prelude.{
  String, ◌≡◌, refl, false, none, List, [], ◌∷◌, arith, take, select, length-take, All-take, ◌==◌,
  eq_iff,
}
use nocturne_atlas_event_str.Prelude.Int.{pos, pos_part}
use nocturne_atlas_event_str.Exec.{ok, pure}
use nocturne_atlas_event_str.Domain.{Event, ReplayFilter, SearchQuery, Searcher}
use nocturne_atlas_event_str.Postgres.{Db, event_store}
use nocturne_atlas_event_str.Postgres.Listings.{select-All}
use nocturne_atlas_event_str.Ingest
use nocturne_atlas_event_str.Ingest.Laws.{Recorded, ingest_records}
use nocturne_atlas_event_str.Replay.Engine.{ReplayRequest, execute}
use nocturne_atlas_event_str.Replay.Execute.{ExecuteEnded, execute_ends}
use nocturne_atlas_event_str.Replay.Contiguous.{CountsFrom, validate_contiguous_iff}
use nocturne_atlas_event_str.Replay.{validate_contiguous}
use nocturne_atlas_event_str.Query
use nocturne_atlas_event_str.Query.Scope.{Searches}
use nocturne_atlas_event_str.Query.Isolation.{
  AsList, AsStream, AsCausation, AsTimeline, Screened, reads_isolated,
}
use nocturne_atlas_event_str.Query.Exact.{event_store-Listings, healthy, store_reads_exact}
use nocturne_atlas_event_str.Query.Answers.{
  limit_of, offset_of, listed, caused, timed, with_id, own_or_absent,
}
use nocturne_atlas_event_str.Query.{clamp_limit, clamp_offset}
use nocturne_atlas_event_str.Postgres.Sql.{occurred_asc, occurred_desc}
use nocturne_atlas_event_str.Postgres.Pages.{rows_in, in_window}
use nocturne_atlas_event_str.Postgres.Listings.{is_correlated, is_caused}
use nocturne_atlas_event_str.Tests.World.{
  world, broken, world-Contracts, alice, as_alice, created, paid, rows, table,
}

abbrev order_paid : Ingest.Command
order_paid = record {
  stream_id = "order:1";
  type = "paid";
  source = "shop";
  payload = "{}";
  metadata = none;
  correlation_id = "";
  event_version = pos 0;
  causation_id = "a";
  actor_id = "";
  trace_id = "";
  source_version = "";
}

ingest_records_example :
    let (r, db) = Ingest.ingest world event_store broken as_alice order_paid table in
    Recorded world event_store broken (λ db. db.rows) world-Contracts as_alice order_paid table r db
ingest_records_example =
    ingest_records world event_store broken (λ db. db.rows) world-Contracts as_alice order_paid
      table

abbrev any_of_acme : ReplayFilter
any_of_acme = record {
  tenant_id = "acme";
  stream_id = "";
  correlation_id = "";
  event_type = "";
  actor_id = "";
  from_time = pos 0;
  to_time = pos 0;
  event_ids = [];
}

abbrev again : ReplayRequest
again = record {
  filter = any_of_acme;
  options = record { dry_run = false; replay_reason = "again"; safety_limit = pos 10 };
}

execute_ends_example :
    let (r, db) = execute world event_store broken as_alice again table in
    ExecuteEnded world event_store broken (λ db. db.rows) world-Contracts as_alice again table r db
execute_ends_example =
    execute_ends world event_store broken (λ db. db.rows) world-Contracts as_alice again table

validate_contiguous_iff_example :
    (validate_contiguous (created ∷ paid ∷ []) ≡ ok tt → CountsFrom 1 (created ∷ paid ∷ []))
    × (CountsFrom 1 (created ∷ paid ∷ []) → validate_contiguous (created ∷ paid ∷ []) ≡ ok tt)
validate_contiguous_iff_example = validate_contiguous_iff 1 created (paid ∷ []) refl (omega arith)

-- A search index that holds what the table holds.
abbrev hits : SearchQuery → List Event
hits q = select (λ e. e.tenant_id == q.tenant_id) rows

abbrev pub index : Searcher Db
index = record { search = λ ctx q. pure (take (pos_part q.limit) (hits q), pos 0) }

pub index-Searches : Searches index
index-Searches = record {
  search_law = λ ctx q n s named e. rw e (
    All-take (λ x. x.tenant_id ≡ q.tenant_id) n (hits q)
        (select-All (λ x. x.tenant_id ≡ q.tenant_id) _ (λ x h. (eq_iff x.tenant_id q.tenant_id).0 h)
          rows),
    omega (arith, length-take n (hits q)),
  );
}

reads_isolated_example :
    ((q : Query.ListQuery)
      → let (r, db) = Query.list_all event_store index as_alice q table in
        AsList event_store index event_store-Listings index-Searches as_alice r db)
    × ((q : Query.StreamQuery)
        → let (r, db) = Query.query_by_stream event_store index as_alice q table in
          AsStream event_store index event_store-Listings index-Searches as_alice r db)
    × ((q : Query.CausationQuery)
        → let (r, db) = Query.list_by_causation_id event_store index as_alice q table in
          AsCausation event_store index event_store-Listings index-Searches as_alice r db)
    × ((q : Query.TimelineQuery)
        → let (r, db) = Query.get_timeline event_store index as_alice q table in
          AsTimeline event_store index event_store-Listings index-Searches as_alice r db)
    × ((id : String)
        → let (r, db) = Query.get_by_id event_store index as_alice id table in
          Screened event_store index event_store-Listings index-Searches as_alice id table r db)
reads_isolated_example =
    reads_isolated event_store index event_store-Listings index-Searches as_alice table

store_reads_exact_example :
    ((q : Query.ListQuery)
      → (q.correlation_id == "") ≡ false
      → Query.list_all event_store index as_alice q (healthy rows) ≡ (
        ok (
            listed
              (limit_of q.limit)
              (offset_of q.offset)
              (rows_in occurred_desc (is_correlated "acme" q.correlation_id) rows)),
        healthy rows,
      ))
    × ((q : Query.CausationQuery)
        → (q.event_id == "") ≡ false
        → Query.list_by_causation_id event_store index as_alice q (healthy rows) ≡ (
          ok (
              caused q.event_id
                (limit_of q.limit)
                (offset_of q.offset)
                (rows_in occurred_asc (is_caused "acme" q.event_id) rows)),
          healthy rows,
        ))
    × ((q : Query.TimelineQuery)
        → Query.get_timeline event_store index as_alice q (healthy rows) ≡ (
          ok (
              timed "acme"
                (limit_of q.limit)
                (offset_of q.offset)
                (rows_in occurred_desc (in_window "acme" q.from_time q.to_time) rows)),
          healthy rows,
        ))
    × ((id : String)
        → Query.get_by_id event_store index as_alice id (healthy rows)
          ≡ (own_or_absent alice (with_id id rows), healthy rows))
store_reads_exact_example = store_reads_exact index as_alice alice rows refl
