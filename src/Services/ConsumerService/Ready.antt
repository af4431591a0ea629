-- ===== src/Services/ConsumerService/Ready.antt =====
-- The consumer service (cmd/consumer-service/main.go) from its start to its end.
use nocturne_atlas_event_str.Prelude.{String, ◌≡◌, refl, Bool, true, List, eq_iff, arith}
use nocturne_atlas_event_str.Exec.{Error, wrap, Result, ok, err, or_wrap}
use nocturne_atlas_event_str.Exec.Rules.{after_wrap}
use nocturne_atlas_event_str.Domain.{Context, background}
use nocturne_atlas_event_str.Config.{Config, dlq_topic_name}
use nocturne_atlas_event_str.Consume.{DlqMessage}
use nocturne_atlas_event_str.Kafka.Routing.{contains}
use nocturne_atlas_event_str.Kafka.Topics
use nocturne_atlas_event_str.Kafka.Producer.{Message}
use nocturne_atlas_event_str.Kafka.Consumer.{Fetch}
use nocturne_atlas_event_str.Kafka.Delivery.{Sinks}
use nocturne_atlas_event_str.Kafka.Loop.{RunDone, run_done}
use nocturne_atlas_event_str.Kafka.Provisioning.{ClusterWorks, ensure_topics-Ensured}
use nocturne_atlas_event_str.Elastic.Startup
use nocturne_atlas_event_str.Elastic.Startup.Ready.{IndexWorks, Started-exists, new_indexer-Started}
use nocturne_atlas_event_str.Services.{World}
use nocturne_atlas_event_str.Services.Steps.{after_kafka, after_elastic}
use nocturne_atlas_event_str.Services.ConsumerService.{
  Parts, needed_topics, indexer_on, dlq_on, commit_on, consume, connect_elastic, main,
}

-- What is relied on of Kafka and Elasticsearch, and how their states are read; the dead-letter
-- queue accepts what is sent to it.
pub record Systems {P K E : Type 0} (parts : Parts P K E) (cfg : Config) : Type 0 where
  pub topics : K → List String
  pub has_index : String → E → Bool
  pub indexed : E → List String
  pub dead : K → List String
  pub committed : K → List Message
  pub cluster_works : ClusterWorks parts.brokers topics
  pub index_works : IndexWorks parts.nodes has_index
  pub sinks :
      Sinks parts.now
        (indexer_on parts cfg)
        (dlq_on parts cfg)
        (commit_on parts)
        (λ w. indexed w.elastic)
        (λ w. dead w.kafka)
        (λ w. committed w.kafka)
  pub dlq_works :
      (ctx : Context) (m : DlqMessage) (w : World P K E)
      → ((dlq_on parts cfg).publish ctx m w).0 ≡ ok tt

module _ {P K E : Type 0} (parts : Parts P K E) (cfg : Config) (systems : Systems parts cfg)
    (fetches : List Fetch) (w : World P K E) where
  abbrev world : K → E → World P K E
  world k e = record { postgres = w.postgres; kafka = k; elastic = e }

  -- What `run_done` says of a run.
  abbrev pub Delivered : World P K E → Result (Unit {0}) → World P K E → Type 0
  Delivered v r v' =
      RunDone parts.now (indexer_on parts cfg) (dlq_on parts cfg) (commit_on parts) parts.unmarshal
        (λ w. systems.indexed w.elastic) (λ w. systems.dead w.kafka)
        (λ w. systems.committed w.kafka) systems.sinks systems.dlq_works fetches v r v'

  -- The topic that is read and that of the dead-letter queue exist, and so does the index.
  pub record Connected (k : K) (e : E) : Type 0 where
    pub topic_ready : contains cfg.kafka.topic (systems.topics k) ≡ true
    pub dlq_ready : contains (dlq_topic_name cfg.kafka) (systems.topics k) ≡ true
    pub index_ready : systems.has_index cfg.elasticsearch.index e ≡ true

  pub data Served : Result (Unit {0}) → World P K E → Type 0 where
    -- The service exits before it has read a message, or touched Elasticsearch, ...
    no_topics :
        {k : K} {x : Error}
        → Topics.ensure_topics parts.brokers (needed_topics cfg.kafka) w.kafka ≡ (err x, k)
        → Served (err (wrap "failed to ensure kafka topics" x)) (world k w.elastic)
    no_index :
        {k : K} {e : E} {x : Error}
        → Topics.ensure_topics parts.brokers (needed_topics cfg.kafka) w.kafka ≡ (ok tt, k)
        → Startup.new_indexer parts.nodes cfg.elasticsearch w.elastic ≡ (err x, e)
        → Served (err (wrap "failed to init elasticsearch indexer" x)) (world k e)
    -- ... or it has run, from the state that the startup left.
    stopped :
        {k : K} {e : E} {w' : World P K E}
        → Connected k e
        → Delivered (world k e) (ok tt) w'
        → Served (ok tt) w'
    broken :
        {k : K} {e : E} {x : Error} {w' : World P K E}
        → Connected k e
        → Delivered (world k e) (err x) w'
        → Served (err (wrap "consumer-service error" x)) w'

  topics_lem :
      (k : K)
      → Topics.ensure_topics parts.brokers (needed_topics cfg.kafka) w.kafka ≡ (ok tt, k)
      → (contains cfg.kafka.topic (systems.topics k) ≡ true)
        × (contains (dlq_topic_name cfg.kafka) (systems.topics k) ≡ true)
  unfolding needed_topics
  topics_lem k e =
      let all = rw e at (
        ensure_topics-Ensured parts.brokers systems.topics systems.cluster_works
          (needed_topics cfg.kafka) w.kafka) in
      let topic = cfg.kafka.topic in
      let dead = dlq_topic_name cfg.kafka in
      (all topic (ground (arith, eq_iff topic topic)), all dead (ground (arith, eq_iff dead dead)))

  consume_lem :
      (k : K) (e : E)
      → Connected k e
      → let (r, w') = or_wrap "consumer-service error" (consume parts cfg fetches) (world k e) in
        Served r w'
  consume_lem k e connected =
      let done =
        run_done parts.now (indexer_on parts cfg) (dlq_on parts cfg) (commit_on parts)
          parts.unmarshal (λ w. systems.indexed w.elastic) (λ w. systems.dead w.kafka)
          (λ w. systems.committed w.kafka) systems.sinks systems.dlq_works background fetches
          (world k e) in
      after_wrap Served "consumer-service error" (consume parts cfg fetches) (world k e)
        (λ a w' ran. stopped connected (rw ran at done))
        (λ x w' ran. broken connected (rw ran at done))

-- With a dead-letter queue that accepts what is sent to it (every publish to it succeeds), a Kafka
-- and an Elasticsearch whose topics, index, indexed events, dead letters and committed messages
-- change only by the calls that add to them, and any other failure: the consumer service ends in
-- one of four ways. It exits before it has read a message, when the topics or the index cannot be
-- set up. Or it runs, with the topic that it reads, the dead-letter topic and the index in place:
-- then every committed message's event is in the index or in the dead-letter queue if that was so
-- before, and it has committed all its messages in order when it is stopped, an initial part of
-- them when its run fails.
pub main-Served :
    {P K E : Type 0} (parts : Parts P K E) (cfg : Config) (systems : Systems parts cfg)
    (fetches : List Fetch) (w : World P K E)
    → let (r, w') = main parts cfg fetches w in Served parts cfg systems fetches w r w'
unfolding main
main-Served parts cfg systems fetches w =
    let Q = Served parts cfg systems fetches w in
    after_kafka Q "failed to ensure kafka topics" (λ _. connect_elastic parts cfg fetches) w
      (Topics.ensure_topics parts.brokers (needed_topics cfg.kafka))
      (λ a k e1.
        after_elastic Q "failed to init elasticsearch indexer"
          (λ _. or_wrap "consumer-service error" (consume parts cfg fetches)) _
          (Startup.new_indexer parts.nodes cfg.elasticsearch)
          (λ b e e2.
            let (topic, dead) = topics_lem parts cfg systems fetches w k e1 in
            let started =
              new_indexer-Started parts.nodes systems.has_index systems.index_works
                cfg.elasticsearch w.elastic in
            consume_lem parts cfg systems fetches w k e (record {
              topic_ready = topic;
              dlq_ready = dead;
              index_ready = Started-exists (rw e2 at started) refl;
            }))
          (λ x e e2. no_index e1 e2))
      (λ x k e1. no_topics e1)
