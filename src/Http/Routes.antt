-- ===== src/Http/Routes.antt =====
-- `NewRouter` of internal/infrastructure/httpserver/handler.go: which handler serves which route,
-- and behind which middleware. The match of a path with a route is chi's; recovery from panics and
-- swagger are not modelled.
use nocturne_atlas_event_str.Prelude.{String, Option, []}
use nocturne_atlas_event_str.Domain.{background, Runtime, Store, Publisher, Searcher}
use nocturne_atlas_event_str.Auth.{Authenticator, Issuer}
use nocturne_atlas_event_str.Http.Messages.{
  HttpRequest, Response, Handler, Parsers, write_json, health_body,
}
use nocturne_atlas_event_str.Http.Middleware.{auth, trace_context}
use nocturne_atlas_event_str.Http.Reads
use nocturne_atlas_event_str.Http.Writes
use nocturne_atlas_event_str.Http.Credentials

pub data Endpoint : Type 0 where
  get_health post_auth_token post_auth_issue post_tenants get_stream_events post_replay : Endpoint
  post_event get_events get_timeline get_event get_causes : Endpoint

-- `health`
unfoldable pub health : {S : Type 0} → Handler S
health r ctx s = (write_json 200 [] health_body, s)

module _ {S : Type 0} (parsers : Parsers) (rt : Runtime S) (store : Store S)
    (publisher : Publisher S) (searcher : Searcher S) (authenticator : Authenticator S)
    (issuer : Option (Issuer S)) (admin_key : String) where
  unfoldable pub serve : Endpoint → Handler S
  serve get_health = health
  serve post_auth_token = Credentials.auth_token authenticator
  serve post_auth_issue = auth authenticator (Credentials.auth_issue parsers issuer)
  serve post_tenants = Credentials.create_tenant parsers admin_key issuer
  serve get_stream_events = Reads.get_by_stream parsers store searcher
  serve post_replay = auth authenticator (Writes.replay_events parsers rt store publisher)
  serve post_event = auth authenticator (Writes.ingest parsers rt store publisher)
  serve get_events = auth authenticator (Reads.list_events parsers store searcher)
  serve get_timeline = auth authenticator (Reads.get_timeline parsers store searcher)
  serve get_event = auth authenticator (Reads.get_by_id parsers store searcher)
  serve get_causes = auth authenticator (Reads.get_event_causes parsers store searcher)

  -- A request comes with no identity in its context; the trace middleware stands in front.
  unfoldable pub router :
      (S → String × S) → (S → String × S) → Endpoint → HttpRequest → S → Response × S
  router new_trace_id new_span_id endpoint r s =
      trace_context new_trace_id new_span_id (serve endpoint) r background s
