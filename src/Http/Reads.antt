-- ===== src/Http/Reads.antt =====
-- The handlers of internal/infrastructure/httpserver/handler.go that read. Deadlines and log lines
-- are not modelled.
use nocturne_atlas_event_str.Prelude.{
  String, Option, none, some, List, [], ◌∷◌, ◌==◌, if◌then◌else◌,
}
use nocturne_atlas_event_str.Prelude.Int.{pos}
use nocturne_atlas_event_str.Exec.{is_error, not_found, Result, ok, err}
use nocturne_atlas_event_str.Domain.{Time, Event, with_correlation_id, Store, Searcher}
use nocturne_atlas_event_str.Query
use nocturne_atlas_event_str.Http.Messages.{
  HttpRequest, Response, Handler, Parsers, write_json, write_error, parse_int_param, correlation_of,
  page, domain_to_event_response, list_body, stream_body, event_body, causation_body, timeline_body,
}

abbrev pub correlated : HttpRequest → List (String × String)
correlated r = ("X-Correlation-ID", correlation_of r) ∷ []

abbrev pub source_headers : HttpRequest → String → String → List (String × String)
source_headers r model consistency =
    ("X-Correlation-ID", correlation_of r)
    ∷ ("X-Read-Model", model)
    ∷ ("X-Data-Consistency", consistency)
    ∷ []

abbrev pub consistency_of : String → String
consistency_of model = if model == "postgres" then "strong" else "eventual"

unfoldable pub list_answer : HttpRequest → Result Query.ListResult → Response
list_answer r (err _) = write_error 500 (correlated r) "query failed"
list_answer r (ok res) =
    write_json 200 (source_headers r res.read_model (consistency_of res.read_model))
      (list_body res.read_model (page res.events res.total res.limit res.offset))

unfoldable pub stream_answer : HttpRequest → Result Query.StreamResult → Response
stream_answer r (err _) = write_error 500 (correlated r) "query failed"
stream_answer r (ok res) =
    write_json 200 (source_headers r "elasticsearch" "eventual")
      (stream_body res.stream_id res.read_model (page res.events res.total res.limit res.offset))

unfoldable pub event_answer : HttpRequest → Result Event → Response
event_answer r (err e) =
    if is_error e not_found
    then write_error 404 (correlated r) "event not found"
    else write_error 500 (correlated r) "lookup failed"
event_answer r (ok e) =
    write_json 200 (source_headers r "postgres" "strong") (event_body (domain_to_event_response e))

unfoldable pub causation_answer : HttpRequest → Result Query.CausationResult → Response
causation_answer r (err _) = write_error 500 (correlated r) "causation query failed"
causation_answer r (ok res) =
    write_json 200 (source_headers r "postgres" "strong")
      (causation_body res.source_event_id (page res.events res.total res.limit res.offset))

unfoldable pub timeline_answer : HttpRequest → Time → Time → Result Query.TimelineResult → Response
timeline_answer r from_time to_time (err _) = write_error 500 (correlated r) "timeline query failed"
timeline_answer r from_time to_time (ok res) =
    write_json 200 (source_headers r "postgres" "strong") (
      timeline_body res.tenant_id from_time to_time
        (page res.events res.total res.limit res.offset))

-- A time parameter: the zero time where it is absent, `none` where it cannot be parsed.
unfoldable pub time_param : Parsers → String → Option Time
time_param parsers s = if s == "" then some (pos 0) else parsers.parse_time s

module _ {S : Type 0} (parsers : Parsers) (store : Store S) (searcher : Searcher S) where
  -- `listEvents`
  unfoldable pub list_events : Handler S
  list_events r ctx s =
      let (res, s') =
        Query.list_all store searcher (with_correlation_id ctx (correlation_of r))
          (record {
            limit = parse_int_param parsers r "limit" (pos 20);
            offset = parse_int_param parsers r "offset" (pos 0);
            correlation_id = r.query "correlation_id";
          })
          s in
      (list_answer r res, s')

  -- `getByStream`
  unfoldable pub get_by_stream : Handler S
  get_by_stream r ctx s =
      let (res, s') =
        Query.query_by_stream store searcher (with_correlation_id ctx (correlation_of r))
          (record {
            stream_id = r.param;
            limit = parse_int_param parsers r "limit" (pos 20);
            offset = parse_int_param parsers r "offset" (pos 0);
          })
          s in
      if r.param == ""
      then (write_error 400 [] "stream_id is required", s)
      else (stream_answer r res, s')

  -- `getByID` once the ID is parsed
  unfoldable pub get_parsed : Option String → Handler S
  get_parsed none r ctx s = (write_error 400 [] "id must be a valid UUID", s)
  get_parsed (some id) r ctx s =
      let (res, s') =
        Query.get_by_id store searcher (with_correlation_id ctx (correlation_of r)) id s in
      (event_answer r res, s')

  -- `getByID`
  abbrev pub get_by_id : Handler S
  get_by_id r = get_parsed (parsers.parse_uuid r.param) r

  -- `getEventCauses`
  unfoldable pub get_event_causes : Handler S
  get_event_causes r ctx s =
      let (res, s') =
        Query.list_by_causation_id store searcher (with_correlation_id ctx (correlation_of r))
          (record {
            event_id = r.param;
            limit = parse_int_param parsers r "limit" (pos 20);
            offset = parse_int_param parsers r "offset" (pos 0);
          })
          s in
      (causation_answer r res, s')

  -- `getTimeline` once the times are parsed
  unfoldable pub timeline_between : Option Time → Option Time → Handler S
  timeline_between none to_time r ctx s =
      (write_error 400 [] "from_time must be an ISO-8601 timestamp (e.g. 2026-04-21T10:00:00Z)", s)
  timeline_between (some from_time) none r ctx s =
      (write_error 400 [] "to_time must be an ISO-8601 timestamp (e.g. 2026-04-21T10:00:00Z)", s)
  timeline_between (some from_time) (some to_time) r ctx s =
      let (res, s') =
        Query.get_timeline store searcher (with_correlation_id ctx (correlation_of r))
          (record {
            from_time = from_time;
            to_time = to_time;
            limit = parse_int_param parsers r "limit" (pos 20);
            offset = parse_int_param parsers r "offset" (pos 0);
          })
          s in
      (timeline_answer r from_time to_time res, s')

  -- `getTimeline`
  abbrev pub get_timeline : Handler S
  get_timeline r =
      timeline_between (time_param parsers (r.query "from_time"))
        (time_param parsers (r.query "to_time")) r
