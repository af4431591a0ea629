-- ===== src/Services/IngestApi/Ready.antt =====
-- What holds when the ingest API (cmd/ingest-api/main.go) starts to serve, and when it does not.
use nocturne_atlas_event_str.Prelude.{
  String, refl, ◌≡◌, ◌≢◌, Bool, true, false, Option, none, some, List, ◌==◌, eq_iff,
}
use nocturne_atlas_event_str.Exec.{Error, text, wrap, Result, ok, err}
use nocturne_atlas_event_str.Exec.Rules.{after_guard}
use nocturne_atlas_event_str.Domain.{Event}
use nocturne_atlas_event_str.Config.{Config}
use nocturne_atlas_event_str.Auth.{Authenticator}
use nocturne_atlas_event_str.Kafka.Routing.{
  new_topic_resolver, build_topic_specs, resolve, contains,
}
use nocturne_atlas_event_str.Kafka.Topics
use nocturne_atlas_event_str.Kafka.Provisioning.{ClusterWorks, ensure_topics-Provisioned}
use nocturne_atlas_event_str.Elastic.Startup
use nocturne_atlas_event_str.Elastic.Startup.Ready.{IndexWorks, Started-exists, new_indexer-Started}
use nocturne_atlas_event_str.Postgres.Schema.{Schema}
use nocturne_atlas_event_str.Postgres.Schema.Laws.{IsOlder, UpToDate}
use nocturne_atlas_event_str.Postgres.Startup.{new_event_store}
use nocturne_atlas_event_str.Postgres.Startup.Opened.{PoolsWork, new_event_store-Opened}
use nocturne_atlas_event_str.Services.{World}
use nocturne_atlas_event_str.Services.Steps.{after_postgres, after_kafka, after_elastic}
use nocturne_atlas_event_str.Services.IngestApi.{
  Parts, Server, serve_with, select_authenticator, with_authenticator, start_server,
  connect_elastic, connect_kafka, main,
}

-- What is relied on of the three systems, and how their states are read.
pub record Systems {P K E : Type 0} (parts : Parts P K E) : Type 0 where
  pub is_open : P → Bool
  pub schema : P → Schema
  pub topics : K → List String
  pub has_index : String → E → Bool
  pub pools_work : PoolsWork parts.pools is_open schema
  pub cluster_works : ClusterWorks parts.brokers topics
  pub index_works : IndexWorks parts.nodes has_index

module _ {P K E : Type 0} (parts : Parts P K E) (systems : Systems parts) (cfg : Config)
    (w : World P K E) where
  -- The service has connected to the three systems, which are left in these states.
  pub record Connected (p : P) (k : K) (e : E) : Type 0 where
    pub store_made : new_event_store parts.pools cfg.postgres w.postgres ≡ (ok tt, p)
    pub topics_made :
        Topics.ensure_topics parts.brokers
          (build_topic_specs cfg.kafka (new_topic_resolver cfg.kafka))
          w.kafka
        ≡ (ok tt, k)
    pub index_made : Startup.new_indexer parts.nodes cfg.elasticsearch w.elastic ≡ (ok tt, e)
    pub pool_open : systems.is_open p ≡ true
    pub schema_ready : UpToDate (systems.schema p)
    pub topics_ready :
        (event : Event)
        → contains (resolve (new_topic_resolver cfg.kafka) event) (systems.topics k) ≡ true
    pub index_ready : systems.has_index cfg.elasticsearch.index e ≡ true

  abbrev world : P → K → E → World P K E
  world p k e = record { postgres = p; kafka = k; elastic = e }

  pub data Launched : Result (Server (World P K E)) → World P K E → Type 0 where
    -- The service serves with the authenticator that the settings select and a non-empty admin key.
    serving :
        {p : P} {k : K} {e : E} {authenticator : Authenticator (World P K E)}
        → Connected p k e
        → cfg.auth.admin_key ≢ ""
        → select_authenticator parts cfg.auth ≡ some authenticator
        → Launched (ok (serve_with parts cfg authenticator)) (world p k e)
    -- The process exits: without having touched Kafka and Elasticsearch, ...
    no_store :
        {p : P} {x : Error}
        → new_event_store parts.pools cfg.postgres w.postgres ≡ (err x, p)
        → systems.is_open p ≡ false
        → systems.schema p ≡ systems.schema w.postgres
        → Launched (err (wrap "failed to init event store" x)) (world p w.kafka w.elastic)
    -- ... or without having touched Elasticsearch, ...
    no_topics :
        {p : P} {k : K} {x : Error}
        → new_event_store parts.pools cfg.postgres w.postgres ≡ (ok tt, p)
        → Topics.ensure_topics parts.brokers
            (build_topic_specs cfg.kafka (new_topic_resolver cfg.kafka))
            w.kafka
          ≡ (err x, k)
        → Launched (err (wrap "failed to ensure kafka topics" x)) (world p k w.elastic)
    no_index :
        {p : P} {k : K} {e : E} {x : Error}
        → new_event_store parts.pools cfg.postgres w.postgres ≡ (ok tt, p)
        → Topics.ensure_topics parts.brokers
            (build_topic_specs cfg.kafka (new_topic_resolver cfg.kafka))
            w.kafka
          ≡ (ok tt, k)
        → Startup.new_indexer parts.nodes cfg.elasticsearch w.elastic ≡ (err x, e)
        → Launched (err (wrap "failed to init elasticsearch" x)) (world p k e)
    -- ... or because of the settings.
    no_admin_key :
        {p : P} {k : K} {e : E} {x : Error}
        → Connected p k e
        → cfg.auth.admin_key ≡ ""
        → Launched (err x) (world p k e)
    no_authenticator :
        {p : P} {k : K} {e : E} {x : Error}
        → Connected p k e
        → select_authenticator parts cfg.auth ≡ none
        → Launched (err x) (world p k e)

  start_server_lem :
      (p : P) (k : K) (e : E)
      → Connected p k e
      → let (r, w') = start_server parts cfg (world p k e) in Launched r w'
  start_server_lem p k e connected =
      after_guard Launched (text "ADMIN_KEY must be set — refusing to start without an admin key")
        (with_authenticator parts cfg (select_authenticator parts cfg.auth)) (world p k e)
        (cfg.auth.admin_key == "")
        (λ empty. no_admin_key connected ((eq_iff cfg.auth.admin_key "").0 empty))
        (λ given. chosen given (select_authenticator parts cfg.auth) refl)
    where
      chosen :
          (cfg.auth.admin_key == "") ≡ false
          → (a : Option (Authenticator (World P K E))) → select_authenticator parts cfg.auth ≡ a
          → let (r, w') = with_authenticator parts cfg a (world p k e) in Launched r w'
      chosen given none q = no_authenticator connected q
      chosen given (some a) q =
          serving connected (λ h. let k = (eq_iff cfg.auth.admin_key "").1 h in cc) q

  exists_lem :
      (e : E)
      → Startup.new_indexer parts.nodes cfg.elasticsearch w.elastic ≡ (ok tt, e)
      → systems.has_index cfg.elasticsearch.index e ≡ true
  exists_lem e made =
      Started-exists
        (rw made at (
          new_indexer-Started parts.nodes systems.has_index systems.index_works cfg.elasticsearch
            w.elastic))
        refl

-- Started on a PostgreSQL with no pool open and with no table events or an older one, the ingest
-- API either serves or exits. It serves only when all three systems have been set up: the pool is
-- open, the table has every column that the store's statements name, every topic that an event can
-- be routed to exists, and so does the index; and only with a non-empty admin key and with the
-- authenticator that the settings select. It exits when one of the systems cannot be set up, before
-- it has touched those that come later, or when the admin key is empty or no authenticator is
-- selected.
pub main-Launched :
    {P K E : Type 0} (parts : Parts P K E) (systems : Systems parts) (cfg : Config)
    (w : World P K E)
    → IsOlder (systems.schema w.postgres).table
    → systems.is_open w.postgres ≡ false
    → let (r, w') = main parts cfg w in Launched parts systems cfg w r w'
unfolding main
main-Launched parts systems cfg w older closed =
    let Q : Result (Server _) → World _ _ _ → Type 0 = Launched parts systems cfg w in
    let specs = build_topic_specs cfg.kafka (new_topic_resolver cfg.kafka) in
    let opened =
      new_event_store-Opened parts.pools systems.is_open systems.schema systems.pools_work
        cfg.postgres w.postgres older closed in
    let provisioned =
      ensure_topics-Provisioned parts.brokers systems.topics systems.cluster_works cfg.kafka
        (new_topic_resolver cfg.kafka) w.kafka in
    after_postgres Q "failed to init event store" (λ _. connect_kafka parts cfg) w
      (new_event_store parts.pools cfg.postgres)
      (λ a p e1.
        after_kafka Q "failed to ensure kafka topics" (λ _. connect_elastic parts cfg) _
          (Topics.ensure_topics parts.brokers specs)
          (λ b k e2.
            after_elastic Q "failed to init elasticsearch" (λ _. start_server parts cfg) _
              (Startup.new_indexer parts.nodes cfg.elasticsearch)
              (λ c e e3.
                let (pool, kept, schema) = rw e1 at opened in
                start_server_lem parts systems cfg w p k e (record {
                  store_made = e1;
                  topics_made = e2;
                  index_made = e3;
                  pool_open = pool;
                  schema_ready = schema;
                  topics_ready = rw e2 at provisioned;
                  index_ready = exists_lem parts systems cfg w e e3;
                }))
              (λ y e e3. no_index e1 e2 e3))
          (λ y k e2. no_topics e1 e2))
      (λ y p e1. let (none_open, same) = rw e1 at opened in no_store e1 none_open same)
