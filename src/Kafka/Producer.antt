-- ===== src/Kafka/Producer.antt =====
-- internal/infrastructure/kafka/producer.go and dlq_producer.go: the messages that are written. The
-- JSON encodings are parameters, and so is the fresh span ID of the header.
use nocturne_atlas_event_str.Prelude.{String, not, List, [], ◌∷◌, ◌++◌, ◌==◌, true, if◌then◌else◌}
use nocturne_atlas_event_str.Exec.{Exec, or_wrap}
use nocturne_atlas_event_str.Config.{KafkaConfig, dlq_topic_name}
use nocturne_atlas_event_str.Consume.{DlqMessage, DlqPublisher}
use nocturne_atlas_event_str.Domain.{Time, Event, Publisher}
use nocturne_atlas_event_str.Trace.{traceparent}
use nocturne_atlas_event_str.Kafka.Routing.{TopicResolver, resolve}

pub record Message : Type 0 where
  pub topic : String
  pub key : String
  pub value : String
  pub time : Time
  pub headers : List (String × String)

-- The headers of `Publish`, with the span ID of the traceparent header.
unfoldable pub headers_of : String → Event → List (String × String)
headers_of span_id e =
    (("event_id", e.id) ∷ ("event_type", e.type) ∷ ("source", e.source) ∷ [])
    ++ ((if not (e.trace_id == "")
          then ((
            "traceparent",
            traceparent (record { trace_id = e.trace_id; parent_span_id = ""; sampled = true })
                span_id,
          )
              ∷ [])
          else [])
        ++ (if not (e.correlation_id == "") then ("correlation_id", e.correlation_id) ∷ [] else []))

-- The message of `Publish`.
unfoldable pub message_of : (Event → String) → TopicResolver → String → Event → Message
message_of marshal resolver span_id e = record {
  topic = resolve resolver e;
  key = e.stream_id;
  value = marshal e;
  time = e.occurred_at;
  headers = headers_of span_id e;
}

-- `Publish`; `write` is the Kafka writer and `new_span_id` the source of span IDs.
unfoldable pub publish :
    {S : Type 0}
    → (Message → Exec S (Unit {0}))
    → (S → String × S)
    → (Event → String)
    → TopicResolver
    → Event
    → Exec S (Unit {0})
publish write new_span_id marshal resolver e s =
    let drawn = new_span_id s in
    let (span_id, s1) = if e.trace_id == "" then ("", s) else drawn in
    or_wrap "write to kafka" (write (message_of marshal resolver span_id e)) s1

-- The producer as an implementation of the port `event.Publisher`.
unfoldable pub producer :
    {S : Type 0}
    → (Message → Exec S (Unit {0}))
    → (S → String × S)
    → (Event → String)
    → TopicResolver
    → Publisher S
producer write new_span_id marshal resolver = record {
  publish = λ ctx e. publish write new_span_id marshal resolver e;
}

-- The message of the dead-letter queue, in the topic of its writer.
unfoldable pub dlq_message_of : (DlqMessage → String) → KafkaConfig → DlqMessage → Message
dlq_message_of marshal cfg m = record {
  topic = dlq_topic_name cfg;
  key = m.event.id;
  value = marshal m;
  time = m.failed_at;
  headers = [];
}

-- `DLQProducer.Publish`
unfoldable pub dlq_producer :
    {S : Type 0}
    → (Message → Exec S (Unit {0}))
    → (DlqMessage → String)
    → KafkaConfig
    → DlqPublisher S
dlq_producer write marshal cfg = record {
  publish = λ ctx m. or_wrap "write to dlq topic" (write (dlq_message_of marshal cfg m));
}
