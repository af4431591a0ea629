-- ===== src/Lib.antt =====
-- Nocturne Atlas is an append-only event store with a streaming pipeline: events enter by an HTTP
-- API, are numbered and kept in PostgreSQL, are published to Kafka, and are indexed in
-- Elasticsearch for queries. This library models the program's own code and proves what makes it
-- correct.
--
-- The parts and how they interact. A request is authenticated and gets an identity with a tenant in
-- its context; the handlers call the application services; the services call ports (event.Store,
-- event.Publisher, event.Searcher), which PostgreSQL, Kafka and Elasticsearch stand behind. The
-- consumer service reads the published events from Kafka and indexes them; an event that cannot be
-- indexed goes to a dead-letter queue.
--
-- How the code is modelled. A Go function that returns (T, error) and reaches outside itself is a
-- function from a state to a result and a state (Exec); the ports are records of such functions
-- over any state S, so that a service is proved over every implementation, and the database is one
-- of them. Errors are values (Error) with errors.Is as is_error. An int, an int64 and a duration
-- are integers; where the code adds or multiplies without a bound, the 64-bit wrap-around is
-- written out (int64_add, int64_mul). A time is a number of microseconds, the precision of the
-- database, from Go's zero time. A string is a text, a UUID its canonical text, a map an
-- association list, a payload its JSON text. Postgres/Table.antt keeps an event's payload and times
-- as they are given to it. PostgreSQL renders a JSONB text anew (spaces, the order of keys) and
-- keeps no more than microseconds of a time: where a row is read back, in Postgres/Rows.antt, both
-- conversions are parameters.
--
-- Files:
--   Prelude.antt, Prelude/: the shared names; Boolean tests, lists, integers, maps, text functions.
--   Exec.antt, Exec/Rules.antt: fallible calls over a state, error values, and the rules for
--     proofs.
--   Domain.antt, Domain/Events.antt, Domain/Ports.antt: internal/domain/event/event.go,
--     repository.go.
--   Domain/Contexts.antt: the request context (internal/application/auth/identity.go,
--     internal/pkg/trace/trace.go).
--   Domain/Laws.antt: what the services rely on of the ports.
--   Trace.antt, Trace/: the traceparent header and new IDs (internal/pkg/trace/trace.go).
--   Ingest.antt, Ingest/Laws.antt: Ingest of internal/application/ingest/service.go.
--   Replay.antt: Replay and validateContiguous of internal/application/replay/service.go.
--   Replay/Engine.antt: the ReplayEngine of the same file; Replay/Metadata.antt, Replay/Laws.antt,
--     Replay/Outcome.antt and Replay/Execute.antt prove Execute, from the event that is built to
--     the whole call; Replay/Contiguous.antt proves the gap check, Replay/Suffix.antt,
--     Replay/Complete.antt and Replay/Shared.antt what Replay returns on the PostgreSQL store.
--   Query.antt, Query/: internal/application/query/service.go; Query/Scope.antt and
--     Query/Isolation.antt over any store, Query/Answers.antt and Query/Exact.antt on the database.
--   Consume.antt: internal/application/consume/service.go.
--   Postgres.antt: the EventStore of internal/infrastructure/postgres/store.go as a Store.
--   Postgres/Table.antt: the events table and the INSERT of Append.
--   Postgres/Sql.antt, Postgres/Queries.antt: the SELECT statements that the methods assemble.
--   Postgres/Versions.antt, Postgres/Concurrent.antt: the numbering, under overlapping statements.
--   Postgres/Filters.antt, Postgres/Order.antt, Postgres/Pages.antt, Postgres/Listings.antt,
--     Postgres/Contract.antt: what the statements return, and the contract of the port.
--   Postgres/Rows.antt: the columns of a row, written, stored and scanned; Postgres/Typing.antt:
--     their types. Postgres/Schema.antt, Postgres/Schema/: the schema that is applied at startup.
--     Postgres/Startup.antt, Postgres/Startup/Opened.antt: NewEventStore.
--   Retry.antt, Retry/Laws.antt: the loop of attempts of EnsureTopics and NewIndexer.
--   Kafka/Routing.antt: internal/infrastructure/kafka/topic_resolver.go and buildTopicSpecs of
--     cmd/ingest-api/main.go.
--   Kafka/Configured.antt: from the routes of the settings to the topic of an event.
--   Kafka/Topics.antt, Kafka/Attempts.antt, Kafka/Provisioning.antt: topic_manager.go of the same
--     directory.
--   Kafka/Producer.antt: producer.go and dlq_producer.go there; Kafka/Consumer.antt: consumer.go
--     there; Kafka/Propagation.antt relates the headers that one writes and the other reads.
--   Kafka/Delivery.antt, Kafka/Loop.antt: the consumer loop with the handler of Consume.antt;
--     Kafka/Publishing.antt, Kafka/Pipeline.antt: from the producer to the index.
--   Config.antt: internal/config/config.go.
--   Migrate.antt, Migrate/Laws.antt: cmd/migrate/main.go; Migrate/Files.antt: which files are SQL
--     files, and their order.
--   Auth.antt: internal/infrastructure/auth (none, simple, jwt),
--     internal/application/auth/issuer.go, and buildAuthenticator and buildIssuer of
--     cmd/ingest-api/main.go; Auth/Laws.antt, Auth/Tokens.antt: what is accepted.
--   Http.antt, Http/Messages.antt: the messages of internal/infrastructure/httpserver/dto.go and
--     the helpers of handler.go; Http/Middleware.antt: middleware/auth.go and middleware/trace.go;
--     Http/Reads.antt, Http/Writes.antt, Http/Credentials.antt: the handlers of handler.go;
--     Http/Routes.antt: NewRouter; Http/Refusals.antt, Http/Lifetimes.antt, Http/Recording.antt,
--     Http/Limits.antt (the part of a body that is read), Http/ReplayBodies.antt (what a replay's
--     body and answer say), Http/Replaying.antt, Http/Answers.antt and Http/Isolation.antt prove
--     what the routes answer, Http/Traced.antt what the trace middleware does.
--   Grpc.antt, Grpc/Laws.antt: internal/infrastructure/grpcserver/handler.go.
--   Elastic.antt, Elastic/Laws.antt: internal/infrastructure/elasticsearch/indexer.go, its
--     NewIndexer in Elastic/Startup.antt and Elastic/Startup/Ready.antt.
--   Services.antt, Services/: the main functions of cmd/ingest-api/main.go,
--     cmd/consumer-service/main.go and cmd/replay-service/main.go, over the states of the three
--     systems; Services/Steps.antt has the rules for their steps, Services/IngestApi/Ready.antt,
--     Services/ConsumerService/Ready.antt and Services/ReplayService/Calls.antt prove what holds
--     once they serve.
--   Tests.antt, Tests/: a small world, and the theorems at concrete inputs.
--
-- Bounds and fuel. No definition runs on fuel: a loop of the code is over a list, or, in
-- EnsureTopics and NewIndexer, over the attempts that are left of their five and ten. The consumer
-- loop, which runs until its context is cancelled, takes the list of what the fetches return. The
-- theorems on versions, limits and replays ask that a number is below the largest int64 where the
-- code adds one to it.
--
-- Parameters, with what is assumed of them where a theorem uses it: the clock, the UUID generator,
-- rand.Read, the Kafka writer and reader, the broker's admin calls, what a migration's script does
-- to the schema, JSON encoding and decoding, the environment and strconv.Atoi, the JWT library, the
-- Elasticsearch client, the calls of pgx that open a pool, net.Listen, and the parsers of JSON,
-- numbers, times and UUIDs. A database statement either fails and changes nothing or does what the
-- SQL says; every INSERT sees the rows that were committed when it began.
--
-- Not modelled: log lines, deadlines (an expired one is an error of a statement), connection pools
-- beyond their opening and closing, signals, the loops of the HTTP and gRPC servers and their
-- shutdown, generated code.
pub mod Prelude
pub mod Exec
pub mod Domain
pub mod Ingest
pub mod Postgres
pub mod Replay
pub mod Trace
pub mod Config
pub mod Consume
pub mod Retry
pub mod Kafka
pub mod Migrate
pub mod Query
pub mod Auth
pub mod Http
pub mod Grpc
pub mod Elastic
pub mod Services
pub mod Tests
