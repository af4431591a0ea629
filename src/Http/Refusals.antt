-- ===== src/Http/Refusals.antt =====
-- Requests that the routes of internal/infrastructure/httpserver/handler.go turn away.
use nocturne_atlas_event_str.Prelude.{
  String, ◌≡◌, ap, Bool, true, false, Option, [], ◌==◌, inl, inr, Bool-cases, if◌then◌else◌, arith,
}
use nocturne_atlas_event_str.Exec.{Error, err}
use nocturne_atlas_event_str.Domain.{Context, Runtime, Store, Publisher, Searcher}
use nocturne_atlas_event_str.Auth.{Authenticator, Issuer}
use nocturne_atlas_event_str.Query
use nocturne_atlas_event_str.Http.Messages.{HttpRequest, Handler, Parsers, write_error}
use nocturne_atlas_event_str.Http.Middleware.{auth, after_authenticate, trace_context}
use nocturne_atlas_event_str.Http.Reads.{stream_answer, get_by_stream}
use nocturne_atlas_event_str.Http.Routes.{
  Endpoint, get_health, post_auth_token, post_auth_issue, post_tenants, get_stream_events,
  post_replay, post_event, get_events, get_timeline, get_event, get_causes, serve, router,
}

-- The routes that the API's documentation puts behind credentials, but for the stream listing.
abbrev pub is_protected : Endpoint → Bool
is_protected get_health = false
is_protected post_auth_token = false
is_protected post_tenants = false
is_protected get_stream_events = false
is_protected post_auth_issue = true
is_protected post_replay = true
is_protected post_event = true
is_protected get_events = true
is_protected get_timeline = true
is_protected get_event = true
is_protected get_causes = true

auth_refused :
    {S : Type 0} (authenticator : Authenticator S) (next : Handler S) (r : HttpRequest)
    (ctx : Context) (s s1 : S) (e : Error)
    → authenticator.authenticate r.header s ≡ (err e, s1)
    → auth authenticator next r ctx s ≡ (write_error 401 [] "unauthorized", s1)
unfolding auth after_authenticate
auth_refused authenticator next r ctx s s1 e h = ap (λ a. after_authenticate next r ctx a.0 a.1) h

-- When the authenticator refuses a request, each protected route answers 401 and nothing of the
-- services has run: the state is what the authenticator left.
pub serve_refused :
    {S : Type 0} (parsers : Parsers) (rt : Runtime S) (store : Store S) (publisher : Publisher S)
    (searcher : Searcher S) (authenticator : Authenticator S) (issuer : Option (Issuer S))
    (admin_key : String) (endpoint : Endpoint) (r : HttpRequest) (ctx : Context) (s s1 : S)
    (e : Error)
    → is_protected endpoint ≡ true
    → authenticator.authenticate r.header s ≡ (err e, s1)
    → serve parsers rt store publisher searcher authenticator issuer admin_key endpoint r ctx s
      ≡ (write_error 401 [] "unauthorized", s1)
unfolding serve
serve_refused parsers rt store publisher searcher a issuer k post_auth_issue r ctx s s1 e p h =
    auth_refused a _ r ctx s s1 e h
serve_refused parsers rt store publisher searcher a issuer k post_replay r ctx s s1 e p h =
    auth_refused a _ r ctx s s1 e h
serve_refused parsers rt store publisher searcher a issuer k post_event r ctx s s1 e p h =
    auth_refused a _ r ctx s s1 e h
serve_refused parsers rt store publisher searcher a issuer k get_events r ctx s s1 e p h =
    auth_refused a _ r ctx s s1 e h
serve_refused parsers rt store publisher searcher a issuer k get_timeline r ctx s s1 e p h =
    auth_refused a _ r ctx s s1 e h
serve_refused parsers rt store publisher searcher a issuer k get_event r ctx s s1 e p h =
    auth_refused a _ r ctx s s1 e h
serve_refused parsers rt store publisher searcher a issuer k get_causes r ctx s s1 e p h =
    auth_refused a _ r ctx s s1 e h
serve_refused parsers rt store publisher searcher a issuer k get_health r ctx s s1 e p h =
    absurd (ground arith)
serve_refused parsers rt store publisher searcher a issuer k post_auth_token r ctx s s1 e p h =
    absurd (ground arith)
serve_refused parsers rt store publisher searcher a issuer k post_tenants r ctx s s1 e p h =
    absurd (ground arith)
serve_refused parsers rt store publisher searcher a issuer k get_stream_events r ctx s s1 e p h =
    absurd (ground arith)

-- No request gets the events of a stream by its route, whatever its credentials: without the
-- authentication middleware there is no identity for the service, so the answer is 500, or 400
-- where the stream ID is empty.
pub get_stream_events_fails :
    {S : Type 0} (parsers : Parsers) (rt : Runtime S) (store : Store S) (publisher : Publisher S)
    (searcher : Searcher S) (authenticator : Authenticator S) (issuer : Option (Issuer S))
    (admin_key : String) (new_trace_id new_span_id : S → String × S) (r : HttpRequest) (s : S)
    → (router parsers rt store publisher searcher authenticator issuer admin_key new_trace_id
        new_span_id get_stream_events r s).0.status
      ≡ (if r.param == "" then 400 else 500)
unfolding router serve trace_context get_by_stream Query.query_by_stream stream_answer
get_stream_events_fails parsers rt store publisher searcher a issuer k new_trace_id new_span_id r
      s =
    elim (Bool-cases (r.param == "")) [ inl empty ↦ rw empty | inr given ↦ rw given ]
