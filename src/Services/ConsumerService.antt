-- ===== src/Services/ConsumerService.antt =====
-- `main` of cmd/consumer-service/main.go. The consumer runs on what its fetches return, up to the
-- signal that ends it; closing the clients is not modelled.
pub mod Ready
use nocturne_atlas_event_str.Prelude.{String, Option, List, [], ◌∷◌}
use nocturne_atlas_event_str.Prelude.Int.{pos}
use nocturne_atlas_event_str.Exec.{Exec, or_wrap, ◌>>=◌, ◌>>◌}
use nocturne_atlas_event_str.Domain.{Time, Event, Indexer, background}
use nocturne_atlas_event_str.Config.{Config, KafkaConfig, ElasticsearchConfig, dlq_topic_name}
use nocturne_atlas_event_str.Consume.{DlqPublisher, handle}
use nocturne_atlas_event_str.Kafka.Routing.{TopicSpec}
use nocturne_atlas_event_str.Kafka.Topics
use nocturne_atlas_event_str.Kafka.Producer.{Message}
use nocturne_atlas_event_str.Kafka.Consumer
use nocturne_atlas_event_str.Kafka.Consumer.{Fetch}
use nocturne_atlas_event_str.Elastic.Startup
use nocturne_atlas_event_str.Services.{World, on_kafka, on_elastic}

pub record Parts (P K E : Type 0) : Type 0 where
  pub brokers : Topics.Cluster K
  pub nodes : Startup.Cluster E
  pub index_writer : ElasticsearchConfig → Indexer E
  pub dlq_producer : KafkaConfig → DlqPublisher K
  pub commit : Message → Exec K (Unit {0})
  pub unmarshal : String → Option Event
  pub now : World P K E → Time × World P K E

-- The topics that the service needs.
unfoldable pub needed_topics : KafkaConfig → List TopicSpec
needed_topics cfg =
    record {
      name = cfg.topic;
      partitions = cfg.topic_partitions;
      replication = cfg.topic_replication;
    }
    ∷ record { name = dlq_topic_name cfg; partitions = pos 1; replication = cfg.topic_replication }
    ∷ []

module _ {P K E : Type 0} (parts : Parts P K E) where
  abbrev pub indexer_on : Config → Indexer (World P K E)
  indexer_on cfg = record {
    index = λ ctx e. on_elastic ((parts.index_writer cfg.elasticsearch).index ctx e);
  }

  abbrev pub dlq_on : Config → DlqPublisher (World P K E)
  dlq_on cfg = record { publish = λ ctx m. on_kafka ((parts.dlq_producer cfg.kafka).publish ctx m) }

  abbrev pub commit_on : Message → Exec (World P K E) (Unit {0})
  commit_on m = on_kafka (parts.commit m)

  -- `svc.Run(ctx)`
  abbrev pub consume : Config → List Fetch → Exec (World P K E) (Unit {0})
  consume cfg fetches =
      Consumer.run commit_on parts.unmarshal (handle parts.now (indexer_on cfg) (dlq_on cfg))
        background fetches

  abbrev pub connect_elastic : Config → List Fetch → Exec (World P K E) (Unit {0})
  connect_elastic cfg fetches = do
    or_wrap "failed to init elasticsearch indexer"
        (on_elastic (Startup.new_indexer parts.nodes cfg.elasticsearch))
    or_wrap "consumer-service error" (consume cfg fetches)

  -- `main`
  unfoldable pub main : Config → List Fetch → Exec (World P K E) (Unit {0})
  main cfg fetches = do
    or_wrap "failed to ensure kafka topics"
        (on_kafka (Topics.ensure_topics parts.brokers (needed_topics cfg.kafka)))
    connect_elastic cfg fetches
