-- ===== src/Tests/Mains.antt =====
-- The theorems on the entry points at concrete inputs.
use mathlib.Core.Path.{Path}
use nocturne_atlas_event_str.Prelude.{
  String, ◌≡◌, refl, true, none, some, List, [], ◌∷◌, ◌==◌, eq_iff, arith, Bool-cases, inl, inr,
  if◌then◌else◌,
}
use nocturne_atlas_event_str.Prelude.Int.{pos}
use nocturne_atlas_event_str.Exec.{Error, Result, ok, err, Exec, raise, pure}
use nocturne_atlas_event_str.Domain.{Event, Store}
use nocturne_atlas_event_str.Config.{Config}
use nocturne_atlas_event_str.Kafka.Routing.{contains}
use nocturne_atlas_event_str.Kafka.Topics
use nocturne_atlas_event_str.Kafka.Producer.{Message}
use nocturne_atlas_event_str.Kafka.Consumer.{Fetch, message}
use nocturne_atlas_event_str.Elastic.Startup
use nocturne_atlas_event_str.Postgres.Schema.{run_statements, step}
use nocturne_atlas_event_str.Postgres.Startup.{new_event_store}
use nocturne_atlas_event_str.Grpc.{data_loss}
use nocturne_atlas_event_str.Services.{World}
use nocturne_atlas_event_str.Services.IngestApi
use nocturne_atlas_event_str.Services.IngestApi.Ready.{
  Systems as IngestSystems, Launched, main-Launched,
}
use nocturne_atlas_event_str.Services.ConsumerService
use nocturne_atlas_event_str.Services.ConsumerService.Ready.{
  Systems as ConsumerSystems, Served, main-Served,
}
use nocturne_atlas_event_str.Services.ReplayService
use nocturne_atlas_event_str.Services.ReplayService.Calls.{main_refuses}
use nocturne_atlas_event_str.Tests.World.{created, paid}
use nocturne_atlas_event_str.Tests.Api.{parsers, whole_stream}
use nocturne_atlas_event_str.Tests.Tracing.{filled}
use nocturne_atlas_event_str.Tests.Streaming.{settings}
use nocturne_atlas_event_str.Tests.Topics.{
  cluster, cluster-ClusterWorks, add_names, add_names-covers,
}
use nocturne_atlas_event_str.Kafka.Provisioning.{ClusterWorks}
use nocturne_atlas_event_str.Tests.Startup.{
  status, Node, node, node-IndexWorks, es_settings, booting, Server, server, server-PoolsWork,
  pg_settings, idle,
}

abbrev cfg : Config
cfg = record {
  http_addr = ":8080";
  grpc_addr = ":50051";
  postgres = pg_settings;
  kafka = settings;
  elasticsearch = es_settings;
  auth = record { mode = "simple"; api_key = "k1"; jwt_secret = ""; admin_key = "admin" };
}

abbrev down : {S A : Type 0} → Exec S A
down = raise (Error.text "down")

-- A store of which only the startup is looked at.
abbrev closed_store : Store Server
closed_store = record {
  append = λ ctx e. down;
  get_by_stream_id = λ ctx id. down;
  get_by_id = λ ctx id. down;
  get_from_version = λ ctx id from. down;
  list_by_correlation_id = λ ctx tenant id limit offset. down;
  list_by_causation_id = λ ctx tenant id limit offset. down;
  list_timeline = λ ctx tenant from to limit offset. down;
  query_for_replay = λ ctx f limit. down;
}

abbrev Three : Type 0
Three = World Server (List String) Node

abbrev ingest_parts : IngestApi.Parts Server (List String) Node
ingest_parts = record {
  pools = server;
  store = closed_store;
  brokers = cluster;
  producer = λ resolver. record { publish = λ ctx e. down };
  nodes = node;
  index_searcher = λ c. record { search = λ ctx q. down };
  parsers = parsers;
  runtime = record { new_uuid = λ w. ("u", w); now = λ w. (pos 5000, w) };
  jwt = record { signed_string = λ secret c. down; parse_with_claims = λ secret t. down };
  random = λ n w. (filled n, w);
}

abbrev ingest_systems : IngestSystems ingest_parts
ingest_systems = record {
  is_open = λ s. s.open_pool;
  schema = λ s. s.has_schema;
  topics = λ k. k;
  has_index = λ index s. s.has;
  pools_work = server-PoolsWork;
  cluster_works = cluster-ClusterWorks;
  index_works = node-IndexWorks;
}

abbrev fresh_start : Three
fresh_start = record { postgres = idle; kafka = "events" ∷ []; elastic = booting }

main-Launched_example :
    let (r, w) = IngestApi.main ingest_parts cfg fresh_start in
    Launched ingest_parts ingest_systems cfg fresh_start r w
main-Launched_example =
    main-Launched ingest_parts ingest_systems cfg fresh_start
      (refl, (refl, (refl, (refl, (refl, (refl, (refl, (refl, tt)))))))) refl

abbrev replay_parts : ReplayService.Parts Server
replay_parts = record { pools = server; store = closed_store; listen = λ address. pure tt }

replay_started :
    ReplayService.main replay_parts cfg idle
    ≡ (ok (ReplayService.serve replay_parts), (ReplayService.main replay_parts cfg idle).1)
unfolding ReplayService.main new_event_store run_statements step
replay_started = refl

main_refuses_example :
    (e : Error) × (ReplayService.serve replay_parts whole_stream idle ≡ (data_loss e, idle))
main_refuses_example =
    main_refuses replay_parts cfg idle (ReplayService.main replay_parts cfg idle).1
      (ReplayService.serve replay_parts) replay_started whole_stream idle
      (λ e. ground (arith, eq_iff "order:1" ""))

-- A broker with its topics, the events of the dead-letter queue and the committed messages.
record Broker : Type 0 where
  names : List String
  dead : List String
  committed : List Message

abbrev on_names : {A : Type 0} → Exec (List String) A → Exec Broker A
on_names m b = let (r, names) = m b.names in (r, record b { names = names })

abbrev brokers : Topics.Cluster Broker
brokers = record {
  dial = pure tt;
  read_partitions = λ b. (ok b.names, b);
  controller = pure "broker-1";
  dial_controller = λ address. pure tt;
  create_topics = λ specs b. (ok tt, record b { names = add_names specs b.names });
  wait = λ seconds. pure tt;
}

brokers_agree :
    {A : Type 0} {a b : A} {s t : Broker}
    → Path (Result A × Broker) (ok a, s) (ok b, t)
    → (s ≡ t) × (a ≡ b)
brokers_agree e = (cc, cc)

brokers-ClusterWorks : ClusterWorks brokers (λ b. b.names)
brokers-ClusterWorks = record {
  read_law = λ s s1 ts t e h.
      let (same, read) = brokers_agree e in
      let k : contains t s.names ≡ true = rw read h in rw (← same) k;
  controller_keeps = λ s s1 a t e h. rw (← (brokers_agree e).0) h;
  dial_keeps = λ s s1 a t e h. rw (← (brokers_agree e).0) h;
  create_law = λ s s1 specs t e h. rw (← (brokers_agree e).0) (add_names-covers specs s.names t h);
}

-- An index that is there, with its documents; it refuses the event "b".
record Shard : Type 0 where
  documents : List String

abbrev shards : Startup.Cluster Shard
shards = record {
  new_client = λ c. pure tt;
  index_exists = λ index. pure (status 200);
  create_index = λ index mapping. pure (status 200);
  sleep = λ seconds s. s;
}

abbrev index_document : Event → Exec Shard (Unit {0})
index_document e s =
    if e.id == "b"
    then (err (Error.text "mapping"), s)
    else (ok tt, record s { documents = e.id ∷ s.documents })

abbrev Two : Type 0
Two = World (Unit {0}) Broker Shard

abbrev consumer_parts : ConsumerService.Parts (Unit {0}) Broker Shard
consumer_parts = record {
  brokers = brokers;
  nodes = shards;
  index_writer = λ c. record { index = λ ctx e. index_document e };
  dlq_producer =
      λ c. record { publish = λ ctx m b. (ok tt, record b { dead = m.event.id ∷ b.dead }) };
  commit = λ m b. (ok tt, record b { committed = m ∷ b.committed });
  unmarshal = λ v. if v == "a" then some created else if v == "b" then some paid else none;
  now = λ w. (pos 5000, w);
}

consumer_systems : ConsumerSystems consumer_parts cfg
consumer_systems = record {
  topics = λ b. b.names;
  has_index = λ index s. true;
  indexed = λ s. s.documents;
  dead = λ b. b.dead;
  committed = λ b. b.committed;
  cluster_works = brokers-ClusterWorks;
  index_works = record {
    exists_law = λ index s s1 res e h. refl;
    create_law = λ index s s1 res e h. refl;
  };
  sinks = record {
    index_law = λ ctx e w. elim (Bool-cases (e.id == "b")) [
      | inl refused ↦ rw refused (refl, refl, refl)
      | inr taken ↦ rw taken (refl, refl, refl)
    ];
    dlq_law = λ ctx m w. (refl, refl, refl);
    commit_law = λ m w. (refl, refl, refl);
    now_law = λ w. (refl, refl, refl);
  };
  dlq_works = λ ctx m w. refl;
}

abbrev carrying : String → Message
carrying v = record { topic = "events"; key = ""; value = v; time = pos 0; headers = [] }

abbrev fetched : List Fetch
fetched = message (carrying "a") ∷ message (carrying "?") ∷ message (carrying "b") ∷ []

abbrev consumer_start : Two
consumer_start = record {
  postgres = tt;
  kafka = record { names = []; dead = []; committed = [] };
  elastic = record { documents = [] };
}

main-Served_example :
    let (r, w) = ConsumerService.main consumer_parts cfg fetched consumer_start in
    Served consumer_parts cfg consumer_systems fetched consumer_start r w
main-Served_example = main-Served consumer_parts cfg consumer_systems fetched consumer_start
