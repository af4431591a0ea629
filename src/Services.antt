-- ===== src/Services.antt =====
-- The entry points of the services, cmd/*/main.go: how each connects its parts before it serves. A
-- process that exits with status 1 is an error with the text of its log line.
pub mod Steps
pub mod IngestApi
pub mod ConsumerService
pub mod ReplayService
use nocturne_atlas_event_str.Exec.{Exec}
use nocturne_atlas_event_str.Domain.{Store, Publisher, Searcher}

-- The three systems that the services work with, which change independently.
pub record World (P K E : Type 0) : Type 0 where
  pub postgres : P
  pub kafka : K
  pub elastic : E

module _ {P K E A : Type 0} where
  abbrev pub on_postgres : Exec P A → Exec (World P K E) A
  on_postgres m w =
      let (r, p) = m w.postgres in
      (r, record { postgres = p; kafka = w.kafka; elastic = w.elastic })

  abbrev pub on_kafka : Exec K A → Exec (World P K E) A
  on_kafka m w =
      let (r, k) = m w.kafka in
      (r, record { postgres = w.postgres; kafka = k; elastic = w.elastic })

  abbrev pub on_elastic : Exec E A → Exec (World P K E) A
  on_elastic m w =
      let (r, e) = m w.elastic in
      (r, record { postgres = w.postgres; kafka = w.kafka; elastic = e })

module _ {P K E : Type 0} where
  abbrev pub store_on : Store P → Store (World P K E)
  store_on store = record {
    append = λ ctx e. on_postgres (store.append ctx e);
    get_by_stream_id = λ ctx id. on_postgres (store.get_by_stream_id ctx id);
    get_by_id = λ ctx id. on_postgres (store.get_by_id ctx id);
    get_from_version = λ ctx id from. on_postgres (store.get_from_version ctx id from);
    list_by_correlation_id = λ ctx tenant id limit offset.
        on_postgres (store.list_by_correlation_id ctx tenant id limit offset);
    list_by_causation_id = λ ctx tenant id limit offset.
        on_postgres (store.list_by_causation_id ctx tenant id limit offset);
    list_timeline = λ ctx tenant from to limit offset.
        on_postgres (store.list_timeline ctx tenant from to limit offset);
    query_for_replay = λ ctx f limit. on_postgres (store.query_for_replay ctx f limit);
  }

  abbrev pub publisher_on : Publisher K → Publisher (World P K E)
  publisher_on publisher = record { publish = λ ctx e. on_kafka (publisher.publish ctx e) }

  abbrev pub searcher_on : Searcher E → Searcher (World P K E)
  searcher_on searcher = record { search = λ ctx q. on_elastic (searcher.search ctx q) }
