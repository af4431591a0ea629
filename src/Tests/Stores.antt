-- ===== src/Tests/Stores.antt =====
-- The theorems on the event store at concrete inputs.
use nocturne_atlas_event_str.Prelude.{◌≡◌, refl, [], ◌∷◌, arith, length, ltb, if◌then◌else◌}
use nocturne_atlas_event_str.Prelude.Int.{pos}
use nocturne_atlas_event_str.Exec.{ok, err, over_limit}
use nocturne_atlas_event_str.Domain.{ReplayFilter, Contracts}
use nocturne_atlas_event_str.Postgres.{event_store, query_for_replay}
use nocturne_atlas_event_str.Postgres.Table.{insert_event}
use nocturne_atlas_event_str.Postgres.Sql.{occurred_asc, occurred_desc}
use nocturne_atlas_event_str.Postgres.Queries.{list_timeline}
use nocturne_atlas_event_str.Postgres.Filters.{filter_matches}
use nocturne_atlas_event_str.Postgres.Pages.{
  rows_in, page_of, in_window, list_timeline_exact, query_for_replay_exact,
}
use nocturne_atlas_event_str.Postgres.Contract.{event_store-Contracts}
use nocturne_atlas_event_str.Postgres.Concurrent.{
  Server, begins, inserts, Reach, here, next, empty_server, appends-IsNumbered,
}
use nocturne_atlas_event_str.Postgres.Versions.{IsNumbered}
use nocturne_atlas_event_str.Tests.World.{
  world, broken, fresh_lem, fresh-nonempty, created, paid, rows,
}

event_store-Contracts_example : Contracts world event_store broken (λ db. db.rows)
event_store-Contracts_example =
    event_store-Contracts world broken (λ ctx e db. refl) (λ db. refl) (λ db. fresh_lem db.rows)
      (λ db. fresh-nonempty db.rows) (λ db. refl)

list_timeline_exact_example :
    list_timeline "acme" (pos 1000) (pos 0) (pos 1) (pos 1) rows
    ≡ ok (page_of 1 1 (rows_in occurred_desc (in_window "acme" (pos 1000) (pos 0)) rows))
list_timeline_exact_example = list_timeline_exact "acme" (pos 1000) (pos 0) 1 1 rows

abbrev by_id : ReplayFilter
by_id = record {
  tenant_id = "acme";
  stream_id = "ignored";
  correlation_id = "";
  event_type = "";
  actor_id = "";
  from_time = pos 0;
  to_time = pos 0;
  event_ids = "a" ∷ "z" ∷ [];
}

query_for_replay_exact_example :
    query_for_replay by_id (pos 5) (record { rows = rows; faults = [] }) ≡ (
      let matched = rows_in occurred_asc (filter_matches by_id) rows in
          if ltb 5 (length matched) then err (over_limit 6 (pos 5)) else ok matched,
      record { rows = rows; faults = [] },
    )
query_for_replay_exact_example = query_for_replay_exact by_id 5 rows (omega arith) refl

-- Two statements that begin on the empty table: the second to end meets the version of the first.
abbrev both_begun : Server
both_begun = record { rows = []; pending = ([], paid) ∷ ([], created) ∷ [] }

abbrev first_in : Server
first_in = record { rows = (insert_event [] created []).1; pending = ([], paid) ∷ [] }

abbrev second_in : Server
second_in = record { rows = (insert_event [] paid first_in.rows).1; pending = [] }

race : Reach empty_server second_in
race =
    next
      (next
        (next (next here (begins empty_server created))
          (begins (record { rows = []; pending = ([], created) ∷ [] }) paid))
        (inserts both_begun (([], paid) ∷ []) [] [] created refl))
      (inserts first_in [] [] [] paid refl)

appends-IsNumbered_example : IsNumbered second_in.rows
appends-IsNumbered_example = appends-IsNumbered second_in race
