-- ===== src/Http/Writes.antt =====
-- The handlers of internal/infrastructure/httpserver/handler.go that write: `ingest` and
-- `replayEvents`. Deadlines and log lines are not modelled.
use nocturne_atlas_event_str.Prelude.{
  ℕ, String, Option, none, some, [], ◌∷◌, ◌==◌, map, if◌then◌else◌,
}
use nocturne_atlas_event_str.Exec.{
  is_error, replay_limit_exceeded, deadline_exceeded, Result, ok, err,
}
use nocturne_atlas_event_str.Domain.{
  Time, Event, Context, with_correlation_id, trace_id_from_context, Runtime, Store, Publisher,
}
use nocturne_atlas_event_str.Ingest
use nocturne_atlas_event_str.Replay.Engine
use nocturne_atlas_event_str.Http.Messages.{
  HttpRequest, IngestRequest, ReplayBody, Response, Handler, Parsers, write_json, write_error,
  correlation_of, limit_reader, ingested_body, failure, replay_body, domain_to_event_response,
}
use nocturne_atlas_event_str.Http.Reads.{time_param}

abbrev pub first_given : String → String → String
first_given a b = if a == "" then b else a

-- The command that `ingest` hands to the service.
unfoldable pub command_of : HttpRequest → Context → String → IngestRequest → Ingest.Command
command_of r ctx correlation_id req = record {
  stream_id = req.stream_id;
  type = req.type;
  source = req.source;
  payload = req.payload;
  metadata = req.metadata;
  correlation_id = correlation_id;
  event_version = req.event_version;
  causation_id = first_given (r.header "X-Causation-ID") req.causation_id;
  actor_id = req.actor_id;
  trace_id =
      first_given (trace_id_from_context ctx) (first_given (r.header "X-Trace-ID") req.trace_id);
  source_version = req.source_version;
}

unfoldable pub ingest_answer : String → Result Event → Response
ingest_answer c (ok e) = write_json 201 (("X-Correlation-ID", c) ∷ []) (ingested_body e)
ingest_answer c (err e) = write_json 422 (("X-Correlation-ID", c) ∷ []) (failure e)

-- The request that `replayEvents` hands to the engine.
unfoldable pub request_of : ReplayBody → Time → Time → Engine.ReplayRequest
request_of req from_time to_time = record {
  filter = record {
    tenant_id = req.filter.tenant_id;
    stream_id = req.filter.stream_id;
    correlation_id = req.filter.correlation_id;
    event_type = req.filter.event_type;
    actor_id = req.filter.actor_id;
    from_time = from_time;
    to_time = to_time;
    event_ids = req.filter.event_ids;
  };
  options = record {
    dry_run = req.options.dry_run;
    replay_reason = req.options.replay_reason;
    safety_limit = req.options.safety_limit;
  };
}

unfoldable pub replay_answer : HttpRequest → Result Engine.ReplayResult → Response
replay_answer r (ok res) =
    write_json 200 (("X-Correlation-ID", correlation_of r) ∷ [])
      (replay_body res (map domain_to_event_response res.events))
replay_answer r (err e) =
    let headers = ("X-Correlation-ID", correlation_of r) ∷ [] in
    if is_error e replay_limit_exceeded
    then write_json 422 headers (failure e)
    else if is_error e deadline_exceeded
    then write_error 504 headers "replay timed out"
    else write_error 500 headers "replay failed"

abbrev pub max_body_read : ℕ
max_body_read = 4096

module _ {S : Type 0} (parsers : Parsers) (rt : Runtime S) (store : Store S)
    (publisher : Publisher S) where
  -- `ingest` once the correlation ID is settled and the body is decoded.
  unfoldable pub ingest_decoded : String → Option IngestRequest → Handler S
  ingest_decoded c none r ctx s =
      (write_error 400 (("X-Correlation-ID", c) ∷ []) "invalid request body", s)
  ingest_decoded c (some req) r ctx s =
      let ctx' = with_correlation_id ctx c in
      let (res, s') = Ingest.ingest rt store publisher ctx' (command_of r ctx' c req) s in
      (ingest_answer c res, s')

  -- The header, else the request ID, else a fresh UUID.
  unfoldable pub settled_correlation : HttpRequest → S → String × S
  settled_correlation r s =
      let c = correlation_of r in
      let (fresh, s') = rt.new_uuid s in if c == "" then (fresh, s') else (c, s)

  -- `ingest`
  unfoldable pub ingest : Handler S
  ingest r ctx s =
      let (c, s') = settled_correlation r s in
      ingest_decoded c (parsers.ingest_request (limit_reader max_body_read r.body)) r ctx s'

  -- `replayEvents` once the times are parsed
  unfoldable pub replay_between : ReplayBody → Option Time → Option Time → Handler S
  replay_between req none to_time r ctx s = (
    write_error 400 (("X-Correlation-ID", correlation_of r) ∷ [])
        "from_time must be an ISO-8601 timestamp (e.g. 2026-04-21T10:00:00Z)",
    s,
  )
  replay_between req (some from_time) none r ctx s = (
    write_error 400 (("X-Correlation-ID", correlation_of r) ∷ [])
        "to_time must be an ISO-8601 timestamp (e.g. 2026-04-21T10:00:00Z)",
    s,
  )
  replay_between req (some from_time) (some to_time) r ctx s =
      let (res, s') =
        Engine.execute rt store publisher (with_correlation_id ctx (correlation_of r))
          (request_of req from_time to_time) s in
      (replay_answer r res, s')

  unfoldable pub replay_decoded : Option ReplayBody → Handler S
  replay_decoded none r ctx s =
      (write_error 400 (("X-Correlation-ID", correlation_of r) ∷ []) "invalid request body", s)
  replay_decoded (some req) r ctx s =
      replay_between req (time_param parsers req.filter.from_time)
        (time_param parsers req.filter.to_time) r ctx s

  -- `replayEvents`, of a server with a replay engine.
  abbrev pub replay_events : Handler S
  replay_events r = replay_decoded (parsers.replay_request r.body) r
