-- ===== src/Tests/Streaming.antt =====
-- The theorems on the trace header, the topics and the consumer at concrete inputs.
use nocturne_atlas_event_str.Prelude.{
  String, ◌≡◌, refl, true, Option, none, some, List, [], ◌∷◌, ◌==◌, any, if◌then◌else◌, Bool-cases,
  inl, inr,
}
use nocturne_atlas_event_str.Prelude.Int.{pos}
use nocturne_atlas_event_str.Exec.{ok, err, Exec, Error}
use nocturne_atlas_event_str.Domain.{
  Time, Event, TraceContext, background, Indexer, with_trace_context, with_correlation_id,
}
use nocturne_atlas_event_str.Trace.{parse_traceparent, traceparent, is_hex, is_hex_digit, all_hex}
use nocturne_atlas_event_str.Trace.RoundTrip.{parse_traceparent-traceparent}
use nocturne_atlas_event_str.Config.{KafkaConfig}
use nocturne_atlas_event_str.Kafka.Routing.{prefix, resolve, build_topic_specs, resolve_provisioned}
use nocturne_atlas_event_str.Kafka.Producer.{Message, headers_of}
use nocturne_atlas_event_str.Kafka.Consumer.{Fetch, message, run, message_context}
use nocturne_atlas_event_str.Kafka.Propagation.{message_context-headers_of}
use nocturne_atlas_event_str.Kafka.Delivery.{Sinks}
use nocturne_atlas_event_str.Kafka.Loop.{RunDone, run_done}
use nocturne_atlas_event_str.Consume.{DlqPublisher, handle}
use nocturne_atlas_event_str.Tests.World.{created, paid}

abbrev sampled_trace : TraceContext
sampled_trace = record {
  trace_id = "4bf92f3577b34da6a3ce929d0e0e4736";
  parent_span_id = "";
  sampled = true;
}

hex_trace : is_hex "4bf92f3577b34da6a3ce929d0e0e4736" ≡ true
unfolding is_hex all_hex is_hex_digit
hex_trace = refl

hex_span : is_hex "00f067aa0ba902b7" ≡ true
unfolding is_hex all_hex is_hex_digit
hex_span = refl

parse_traceparent-traceparent_example :
    parse_traceparent (traceparent sampled_trace "00f067aa0ba902b7")
    ≡ some (record {
      trace_id = "4bf92f3577b34da6a3ce929d0e0e4736";
      parent_span_id = "00f067aa0ba902b7";
      sampled = true;
    })
parse_traceparent-traceparent_example =
    parse_traceparent-traceparent sampled_trace "00f067aa0ba902b7" refl hex_trace refl hex_span

abbrev traced : Event
traced = record {
  id = created.id;
  tenant_id = created.tenant_id;
  stream_id = created.stream_id;
  type = created.type;
  source = created.source;
  version = created.version;
  event_version = created.event_version;
  occurred_at = created.occurred_at;
  correlation_id = "checkout-7";
  causation_id = created.causation_id;
  actor_id = created.actor_id;
  trace_id = "4bf92f3577b34da6a3ce929d0e0e4736";
  source_version = created.source_version;
  is_replay = created.is_replay;
  replay_id = created.replay_id;
  replayed_at = created.replayed_at;
  replay_reason = created.replay_reason;
  replay_source_event_id = created.replay_source_event_id;
  payload = created.payload;
  metadata = created.metadata;
}

message_context-headers_of_example :
    message_context background (headers_of "00f067aa0ba902b7" traced)
    ≡ with_correlation_id
        (with_trace_context background (record {
          trace_id = "4bf92f3577b34da6a3ce929d0e0e4736";
          parent_span_id = "00f067aa0ba902b7";
          sampled = true;
        }))
        "checkout-7"
message_context-headers_of_example =
    message_context-headers_of background traced "00f067aa0ba902b7" refl hex_trace refl hex_span
      refl refl

abbrev pub settings : KafkaConfig
settings = record {
  brokers = [];
  topic = "events";
  dlq_topic = "events.dlq";
  group_id = "indexer";
  topic_routes = ("order", "orders") ∷ [];
  topic_partitions = pos 3;
  topic_replication = pos 1;
}

resolve_provisioned_example :
    any
      (λ spec. spec.name == resolve (prefix (("order", "orders") ∷ []) "events") created)
      (build_topic_specs settings (prefix (("order", "orders") ∷ []) "events"))
    ≡ true
resolve_provisioned_example =
    resolve_provisioned settings (prefix (("order", "orders") ∷ []) "events") created

pub record Sunk : Type 0 where
  pub indexed : List String
  pub dead : List String
  pub committed : List Message

abbrev pub clock : Sunk → Time × Sunk
clock s = (pos 5000, s)

-- The index refuses the event "b".
abbrev pub indexer : Indexer Sunk
indexer = record {
  index = λ ctx e s.
      if e.id == "b"
      then (err (Error.text "mapping"), s)
      else (ok tt, record s { indexed = e.id ∷ s.indexed });
}

abbrev pub dlq : DlqPublisher Sunk
dlq = record { publish = λ ctx m s. (ok tt, record s { dead = m.event.id ∷ s.dead }) }

abbrev pub commit : Message → Exec Sunk (Unit {0})
commit m s = (ok tt, record s { committed = m ∷ s.committed })

abbrev pub decode : String → Option Event
decode v = if v == "a" then some created else if v == "b" then some paid else none

abbrev carrying : String → Message
carrying v = record { topic = "events"; key = ""; value = v; time = pos 0; headers = [] }

pub sunk-Sinks : Sinks clock indexer dlq commit (λ s. s.indexed) (λ s. s.dead) (λ s. s.committed)
sunk-Sinks = record {
  index_law = λ ctx e s. elim (Bool-cases (e.id == "b")) [
    | inl refused ↦ rw refused (refl, refl, refl)
    | inr taken ↦ rw taken (refl, refl, refl)
  ];
  dlq_law = λ ctx m s. (refl, refl, refl);
  commit_law = λ m s. (refl, refl, refl);
  now_law = λ s. (refl, refl, refl);
}

abbrev fetched : List Fetch
fetched = message (carrying "a") ∷ message (carrying "?") ∷ message (carrying "b") ∷ []

abbrev pub start : Sunk
start = record { indexed = []; dead = []; committed = [] }

run_done_example :
    let (r, s) = run commit decode (handle clock indexer dlq) background fetched start in
    RunDone clock indexer dlq commit decode
      (λ s. s.indexed)
      (λ s. s.dead)
      (λ s. s.committed)
      sunk-Sinks
      (λ ctx m s. refl)
      fetched
      start
      r
      s
run_done_example =
    run_done clock indexer dlq commit decode (λ s. s.indexed) (λ s. s.dead) (λ s. s.committed)
      sunk-Sinks (λ ctx m s. refl) background fetched start
