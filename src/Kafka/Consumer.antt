-- ===== src/Kafka/Consumer.antt =====
-- internal/infrastructure/kafka/consumer.go: the loop over the messages of a partition. What each
-- `FetchMessage` returns is listed, up to the end of the run; JSON decoding is a parameter.
use Prim.Native.String
use nocturne_atlas_event_str.Prelude.{
  String, not, Option, none, some, List, [], ◌∷◌, ◌==◌, if◌then◌else◌,
}
use nocturne_atlas_event_str.Exec.{Error, wrap, Exec, or_wrap, raise, ◌>>◌, pure}
use nocturne_atlas_event_str.Domain.{Event, Context, with_trace_context, with_correlation_id}
use nocturne_atlas_event_str.Trace.{parse_traceparent}
use nocturne_atlas_event_str.Kafka.Producer.{Message}

-- The end of a run: the context was cancelled, or a fetch failed.
pub data Fetch : Type 0 where
  message : Message → Fetch
  failed : Error → Fetch

abbrev with_parsed : Context → String → Context
with_parsed ctx v = elim (parse_traceparent v) [ none ↦ ctx | some tc ↦ with_trace_context ctx tc ]

-- One round of the loop over the headers.
abbrev pub add_header : Context → String × String → Context
add_header ctx (key, v) =
    if key == "traceparent"
    then with_parsed ctx v
    else if key == "correlation_id"
    then (if not (v == "") then with_correlation_id ctx v else ctx)
    else ctx

unfoldable pub message_context : Context → List (String × String) → Context
message_context ctx [] = ctx
message_context ctx (h ∷ headers) = message_context (add_header ctx h) headers

module _ {S : Type 0} (commit : Message → Exec S (Unit {0})) (unmarshal : String → Option Event)
    (handle : Context → Event → Exec S (Unit {0})) where
  abbrev pub handled : Context → Message → Option Event → Exec S (Unit {0})
  handled ctx msg none = or_wrap "commit after skip" (commit msg)
  handled ctx msg (some e) = do
    or_wrap (String.◌++◌ "handle event " e.id) (handle (message_context ctx msg.headers) e)
    or_wrap "commit message" (commit msg)

  -- One round of `Run` on a fetched message: a malformed one is committed and skipped, another is
  -- committed after the handler has accepted it.
  unfoldable pub process : Context → Message → Exec S (Unit {0})
  process ctx msg = handled ctx msg (unmarshal msg.value)

  -- `Run`; the list ends where the context is cancelled.
  unfoldable pub run : Context → List Fetch → Exec S (Unit {0})
  run ctx [] = pure tt
  run ctx (failed e ∷ fetches) = raise (wrap "fetch message" e)
  run ctx (message msg ∷ fetches) = do process ctx msg; run ctx fetches
