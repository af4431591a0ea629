-- ===== src/Services/IngestApi.antt =====
-- `main` of cmd/ingest-api/main.go up to the point where the server listens. The signals, the
-- server loop and the shutdown are not modelled.
pub mod Ready
use nocturne_atlas_event_str.Prelude.{ℕ, List, String, Option, none, some, ◌==◌}
use nocturne_atlas_event_str.Exec.{Exec, text, raise, raise_if, or_wrap, pure, ◌>>=◌, ◌>>◌}
use nocturne_atlas_event_str.Domain.{Time, Runtime, Store, Publisher, Searcher}
use nocturne_atlas_event_str.Config.{Config, AuthConfig, ElasticsearchConfig}
use nocturne_atlas_event_str.Trace.Ids.{new_trace_id, new_span_id}
use nocturne_atlas_event_str.Auth.{Authenticator, JwtLibrary, build_authenticator, build_issuer}
use nocturne_atlas_event_str.Kafka.Routing.{TopicResolver, new_topic_resolver, build_topic_specs}
use nocturne_atlas_event_str.Kafka.Topics
use nocturne_atlas_event_str.Elastic.Startup
use nocturne_atlas_event_str.Postgres.Startup.{Pools, new_event_store}
use nocturne_atlas_event_str.Http.Messages.{HttpRequest, Response, Parsers}
use nocturne_atlas_event_str.Http.Routes.{Endpoint, router}
use nocturne_atlas_event_str.Services.{
  World, on_postgres, on_kafka, on_elastic, store_on, publisher_on, searcher_on,
}

-- What the constructors of the packages give, and the libraries.
pub record Parts (P K E : Type 0) : Type 0 where
  pub pools : Pools P
  pub store : Store P
  pub brokers : Topics.Cluster K
  pub producer : TopicResolver → Publisher K
  pub nodes : Startup.Cluster E
  pub index_searcher : ElasticsearchConfig → Searcher E
  pub parsers : Parsers
  pub runtime : Runtime (World P K E)
  pub jwt : JwtLibrary (World P K E)
  pub random : ℕ → World P K E → List ℕ × World P K E

-- The handler of the server.
abbrev pub Server : Type 0 → Type 0
Server W = Endpoint → HttpRequest → W → Response × W

module _ {P K E : Type 0} (parts : Parts P K E) where
  -- `httpserver.NewRouter` with the services over the parts.
  abbrev pub serve_with : Config → Authenticator (World P K E) → Server (World P K E)
  serve_with cfg authenticator =
      router parts.parsers parts.runtime (store_on parts.store)
        (publisher_on (parts.producer (new_topic_resolver cfg.kafka)))
        (searcher_on (parts.index_searcher cfg.elasticsearch)) authenticator
        (build_issuer parts.runtime.now parts.jwt cfg.auth.jwt_secret) cfg.auth.admin_key
        (new_trace_id parts.random) (new_span_id parts.random)

  abbrev pub select_authenticator : AuthConfig → Option (Authenticator (World P K E))
  select_authenticator cfg =
      build_authenticator parts.runtime.now parts.jwt cfg.mode cfg.jwt_secret cfg.api_key

  abbrev pub with_authenticator :
      Config → Option (Authenticator (World P K E)) → Exec (World P K E) (Server (World P K E))
  with_authenticator cfg none = raise (text "unusable AUTH_MODE or AUTH_JWT_SECRET")
  with_authenticator cfg (some authenticator) = pure (serve_with cfg authenticator)

  -- From the check of ADMIN_KEY on.
  abbrev pub start_server : Config → Exec (World P K E) (Server (World P K E))
  start_server cfg = do
    raise_if (cfg.auth.admin_key == "")
        (text "ADMIN_KEY must be set — refusing to start without an admin key")
    with_authenticator cfg (select_authenticator cfg.auth)

  abbrev pub connect_elastic : Config → Exec (World P K E) (Server (World P K E))
  connect_elastic cfg = do
    or_wrap "failed to init elasticsearch"
        (on_elastic (Startup.new_indexer parts.nodes cfg.elasticsearch))
    start_server cfg

  abbrev pub connect_kafka : Config → Exec (World P K E) (Server (World P K E))
  connect_kafka cfg = do
    or_wrap "failed to ensure kafka topics" (
        on_kafka (
          Topics.ensure_topics parts.brokers
            (build_topic_specs cfg.kafka (new_topic_resolver cfg.kafka))))
    connect_elastic cfg

  -- `main`
  unfoldable pub main : Config → Exec (World P K E) (Server (World P K E))
  main cfg = do
    or_wrap "failed to init event store" (on_postgres (new_event_store parts.pools cfg.postgres))
    connect_kafka cfg
