-- ===== src/Kafka/Attempts.antt =====
-- How `EnsureTopics` (internal/infrastructure/kafka/topic_manager.go) ends.
use nocturne_atlas_event_str.Prelude.{List}
use nocturne_atlas_event_str.Retry.Laws.{Ended, retry_ends}
use nocturne_atlas_event_str.Kafka.Routing.{TopicSpec}
use nocturne_atlas_event_str.Kafka.Topics.{Cluster, try_ensure_topics, ensure_topics, max_attempts}

-- `EnsureTopics` ends in one of three ways: it succeeds when one of five attempts does, each after
-- the waits that follow the failed ones before it; it returns the context's error when a wait
-- fails; or it returns the last attempt's error, wrapped, after five failed attempts and their
-- waits.
pub ensure_topics_ends :
    {S : Type 0} (cluster : Cluster S) (specs : List TopicSpec) (s : S)
    → let (r, s') = ensure_topics cluster specs s in
      Ended (try_ensure_topics cluster specs) cluster.wait "ensure topics after 5 attempts" 5 s r s'
unfolding ensure_topics
ensure_topics_ends cluster specs s =
    retry_ends (try_ensure_topics cluster specs) cluster.wait "ensure topics after 5 attempts"
      max_attempts s
