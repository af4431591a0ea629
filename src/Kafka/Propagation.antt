-- ===== src/Kafka/Propagation.antt =====
-- The trace context and the correlation ID travel with a message: what the producer
-- (internal/infrastructure/kafka/producer.go) writes into the headers, the consumer (consumer.go)
-- puts into the context of the handler.
use Prim.Native.String
use nocturne_atlas_event_str.Prelude.{
  String, ◌≡◌, refl, ap, ◌∙◌, true, false, not, none, some, List, [], ◌∷◌, ◌==◌, if◌then◌else◌,
}
use nocturne_atlas_event_str.Domain.{
  Event, TraceContext, Context, with_trace_context, with_correlation_id,
}
use nocturne_atlas_event_str.Trace.{is_hex, parse_traceparent}
use nocturne_atlas_event_str.Trace.RoundTrip.{parse_traceparent-traceparent}
use nocturne_atlas_event_str.Kafka.Producer.{headers_of}
use nocturne_atlas_event_str.Kafka.Consumer.{message_context}

-- A header that parses sets the context's trace.
parsed_header :
    (ctx : Context) (v : String) (tc : TraceContext) (headers : List (String × String))
    → parse_traceparent v ≡ some tc
    → message_context ctx (("traceparent", v) ∷ headers)
      ≡ message_context (with_trace_context ctx tc) headers
unfolding message_context
parsed_header ctx v tc headers parses =
    ap (λ o. message_context (elim o [ none ↦ ctx | some tc ↦ with_trace_context ctx tc ]) headers)
      parses

-- A correlation header sets the context's correlation ID.
correlation_header :
    (ctx : Context) (v : String)
    → (v == "") ≡ false
    → message_context ctx (("correlation_id", v) ∷ []) ≡ with_correlation_id ctx v
unfolding message_context
correlation_header ctx v named = ap (λ b. if not b then with_correlation_id ctx v else ctx) named

-- The other headers leave the context as it is.
event_headers :
    (ctx : Context) (e : Event) (headers : List (String × String))
    → message_context ctx
        (("event_id", e.id) ∷ ("event_type", e.type) ∷ ("source", e.source) ∷ headers)
      ≡ message_context ctx headers
unfolding message_context
event_headers ctx e headers = refl

-- For an event with a correlation ID and a W3C trace ID, and a span ID, of hexadecimal digits, the
-- handler's context has the event's correlation ID and its trace ID, with the producer's span as
-- the parent and sampled, and is otherwise the consumer's.
pub message_context-headers_of :
    (ctx : Context) (e : Event) (span_id : String)
    → String.len e.trace_id ≡ 32
    → is_hex e.trace_id ≡ true
    → String.len span_id ≡ 16
    → is_hex span_id ≡ true
    → (e.trace_id == "") ≡ false
    → (e.correlation_id == "") ≡ false
    → message_context ctx (headers_of span_id e)
      ≡ with_correlation_id
          (with_trace_context ctx
            (record { trace_id = e.trace_id; parent_span_id = span_id; sampled = true }))
          e.correlation_id
unfolding headers_of
message_context-headers_of ctx e span_id l h m k traced correlated =
    let tc : TraceContext = record { trace_id = e.trace_id; parent_span_id = ""; sampled = true } in
    rw (traced, correlated)
      (event_headers ctx e _
        ∙ parsed_header ctx _ _ _ (parse_traceparent-traceparent tc span_id l h m k)
        ∙ correlation_header _ e.correlation_id correlated)
