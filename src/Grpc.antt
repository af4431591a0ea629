-- ===== src/Grpc.antt =====
-- internal/infrastructure/grpcserver/handler.go: the replay call of the gRPC API. Log lines are not
-- modelled.
pub mod Laws
use nocturne_atlas_event_str.Prelude.{
  String, Bool, not, Option, none, some, List, [], ◌∷◌, ◌==◌, map, if◌then◌else◌,
}
use nocturne_atlas_event_str.Prelude.Int.{ℤ}
use nocturne_atlas_event_str.Exec.{Error, Result, ok, err}
use nocturne_atlas_event_str.Domain.{Time, Metadata, Event, Context, with_correlation_id, Store}
use nocturne_atlas_event_str.Replay

-- `eventsv1.ReplayRequest`, with the values of the metadata key `correlation-id`.
pub record ReplayCall : Type 0 where
  pub stream_id : String
  pub from_version : ℤ
  pub correlation_ids : List String

-- `eventsv1.Event`
pub record ProtoEvent : Type 0 where
  pub id : String
  pub stream_id : String
  pub type : String
  pub source : String
  pub version : ℤ
  pub occurred_at : Time
  pub payload : String
  pub metadata : Metadata
  pub correlation_id : String

-- `domainToProto`
unfoldable pub domain_to_proto : Event → ProtoEvent
domain_to_proto e = record {
  id = e.id;
  stream_id = e.stream_id;
  type = e.type;
  source = e.source;
  version = e.version;
  occurred_at = e.occurred_at;
  payload = e.payload;
  metadata = e.metadata;
  correlation_id = e.correlation_id;
}

-- The answer: a stream of events, or a status code.
pub data Answer : Type 0 where
  event_stream : String → List ProtoEvent → Answer
  invalid_argument : Answer
  data_loss : Error → Answer

-- The first value of the metadata key, if it is not empty.
unfoldable pub call_context : Context → List String → Context
call_context ctx [] = ctx
call_context ctx (v ∷ vs) = if not (v == "") then with_correlation_id ctx v else ctx

unfoldable pub replay_answer : String → Result (List Event) → Answer
replay_answer stream_id (ok events) = event_stream stream_id (map domain_to_proto events)
replay_answer stream_id (err e) = data_loss e

-- `Handler.Replay`
unfoldable pub replay : {S : Type 0} → Store S → Context → ReplayCall → S → Answer × S
replay store ctx call s =
    let (r, s') =
      Replay.replay store (call_context ctx call.correlation_ids)
        (record { stream_id = call.stream_id; from_version = call.from_version }) s in
    if call.stream_id == "" then (invalid_argument, s) else (replay_answer call.stream_id r, s')
