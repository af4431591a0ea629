-- ===== src/Http/Isolation.antt =====
-- Tenant isolation of the routes that read (internal/infrastructure/httpserver/handler.go), over
-- what the query service promises.
use nocturne_atlas_event_str.Prelude.{
  String, ◌≡◌, ◌≢◌, refl, ◌⊎◌, inl, inr, Bool, true, false, Option, none, some, [], arith, All,
  Bool-cases,
}
use nocturne_atlas_event_str.Prelude.Int.{pos}
use nocturne_atlas_event_str.Exec.{Result, ok, err, is_error, not_found}
use nocturne_atlas_event_str.Domain.{
  Time, Event, Identity, Context, with_identity, identity_from_context, with_correlation_id,
  Runtime, Store, Publisher, Searcher,
}
use nocturne_atlas_event_str.Query.Scope.{Listings, Searches, caller_tenant}
use nocturne_atlas_event_str.Query.Isolation.{Screened, reads_isolated}
use nocturne_atlas_event_str.Auth.{Authenticator, Issuer}
use nocturne_atlas_event_str.Http.Messages.{
  HttpRequest, Response, Handler, Parsers, domain_to_event_response, correlation_of,
  parse_int_param,
}
use nocturne_atlas_event_str.Http.Answers.{
  shown, Private, list_answer_lem, causation_answer_lem, timeline_answer_lem,
}
use nocturne_atlas_event_str.Http.Middleware.{auth, after_authenticate}
use nocturne_atlas_event_str.Http.Reads
use nocturne_atlas_event_str.Http.Routes.{
  Endpoint, get_events, get_timeline, get_event, get_causes, get_health, post_auth_token,
  post_auth_issue, post_tenants, get_stream_events, post_replay, post_event, serve,
}

module _ {S : Type 0} (parsers : Parsers) (store : Store S) (searcher : Searcher S)
    (listings : Listings store) (searches : Searches searcher) where
  event_answer_lem :
      (ctx : Context) (r : HttpRequest) (id : String) (s s' : S) (res : Result Event)
      → Screened store searcher listings searches ctx id s res s'
      → Private (identity_from_context ctx) (Reads.event_answer r res)
  unfolding Reads.event_answer domain_to_event_response shown
  event_answer_lem ctx r id s s' (ok e) (caller, who, own, held) =
      inl (refl, (caller, who, (own, tt)))
  event_answer_lem ctx r id s s' (err x) h = elim (Bool-cases (is_error x not_found)) [
    | inl missing ↦ rw missing (inr (λ e. ground arith, refl))
    | inr other ↦ rw other (inr (λ e. ground arith, refl))
  ]

  -- The handlers, in any context.
  unfoldable KeepsApart : Handler S → Type 0
  KeepsApart h =
      (r : HttpRequest) (ctx : Context) (s : S) → Private (identity_from_context ctx) (h r ctx s).0

  list_events_lem : KeepsApart (Reads.list_events parsers store searcher)
  unfolding KeepsApart Reads.list_events
  list_events_lem r ctx s =
      let at_id = with_correlation_id ctx (correlation_of r) in
      list_answer_lem at_id r _ _ (
        (reads_isolated store searcher listings searches at_id s).0 (record {
          limit = parse_int_param parsers r "limit" (pos 20);
          offset = parse_int_param parsers r "offset" (pos 0);
          correlation_id = r.query "correlation_id";
        }))

  get_event_causes_lem : KeepsApart (Reads.get_event_causes parsers store searcher)
  unfolding KeepsApart Reads.get_event_causes
  get_event_causes_lem r ctx s =
      let at_id = with_correlation_id ctx (correlation_of r) in
      causation_answer_lem at_id r _ _ (
        (reads_isolated store searcher listings searches at_id s).2 (record {
          event_id = r.param;
          limit = parse_int_param parsers r "limit" (pos 20);
          offset = parse_int_param parsers r "offset" (pos 0);
        }))

  timeline_between_lem :
      (from to : Option Time) → KeepsApart (Reads.timeline_between parsers store searcher from to)
  unfolding KeepsApart Reads.timeline_between shown
  timeline_between_lem none to r ctx s = inr (λ e. ground arith, refl)
  timeline_between_lem (some from) none r ctx s = inr (λ e. ground arith, refl)
  timeline_between_lem (some from) (some to) r ctx s =
      let at_id = with_correlation_id ctx (correlation_of r) in
      timeline_answer_lem at_id r _ from to _ (
        (reads_isolated store searcher listings searches at_id s).3 (record {
          from_time = from;
          to_time = to;
          limit = parse_int_param parsers r "limit" (pos 20);
          offset = parse_int_param parsers r "offset" (pos 0);
        }))

  get_parsed_lem : (id : Option String) → KeepsApart (Reads.get_parsed parsers store searcher id)
  unfolding KeepsApart Reads.get_parsed shown
  get_parsed_lem none r ctx s = inr (λ e. ground arith, refl)
  get_parsed_lem (some id) r ctx s =
      let at_id = with_correlation_id ctx (correlation_of r) in
      event_answer_lem at_id r id s _ _
        ((reads_isolated store searcher listings searches at_id s).4 id)

  -- The answer behind the authentication.
  abbrev pub Apart : Authenticator S → HttpRequest → S → Response → Type 0
  Apart authenticator r s resp =
      ((resp.status ≡ 200)
        × ((caller : Identity) × ((authenticator.authenticate r.header s).0 ≡ ok caller)
            × (caller.tenant_id ≢ "")
            × All (λ e. e.tenant_id ≡ caller.tenant_id) (shown resp.body)))
      ⊎ ((resp.status ≢ 200) × (shown resp.body ≡ []))

  authenticated :
      (authenticator : Authenticator S) (h : Handler S) (r : HttpRequest) (ctx : Context) (s s1 : S)
      (res : Result Identity)
      → KeepsApart h
      → (authenticator.authenticate r.header s).0 ≡ res
      → Apart authenticator r s (after_authenticate h r ctx res s1).0
  unfolding KeepsApart after_authenticate shown
  authenticated authenticator h r ctx s s1 (err x) keeps e = inr (λ e. ground arith, refl)
  authenticated authenticator h r ctx s s1 (ok id) keeps e =
      elim (keeps r (with_identity ctx id) s1) [
        | inl (status, (caller, who, own)) ↦
            let same : id ≡ caller = ground arith in
            let named : caller.tenant_id ≢ "" = caller_tenant (some id) caller who in
            inl (status, (caller, rw same at e, named, own))
        | inr other ↦ inr other
      ]

-- The routes that read behind the authentication.
abbrev pub is_read : Endpoint → Bool
is_read get_events = true
is_read get_timeline = true
is_read get_event = true
is_read get_causes = true
is_read _ = false

-- Over any store whose listings, and any search index whose searches, return no more events than
-- asked for and only of the tenant asked for: each of the four authenticated routes that read
-- answers in one of two ways. With 200, for an identity that the authenticator returned and that
-- names a tenant: then every event in the body is of that tenant. Or with another status: then the
-- body shows no event.
pub serve_isolated :
    {S : Type 0} (parsers : Parsers) (rt : Runtime S) (store : Store S) (publisher : Publisher S)
    (searcher : Searcher S) (authenticator : Authenticator S) (issuer : Option (Issuer S))
    (admin_key : String) (listings : Listings store) (searches : Searches searcher)
    (endpoint : Endpoint) (r : HttpRequest) (ctx : Context) (s : S)
    → is_read endpoint ≡ true
    → let (resp, s') =
        serve parsers rt store publisher searcher authenticator issuer admin_key endpoint r ctx s in
      Apart parsers store searcher listings searches authenticator r s resp
unfolding serve auth after_authenticate
serve_isolated parsers rt store publisher searcher a issuer k listings searches get_events r ctx s
      read =
    authenticated parsers store searcher listings searches a _ r ctx s _ _
      (list_events_lem parsers store searcher listings searches) refl
serve_isolated parsers rt store publisher searcher a issuer k listings searches get_timeline r ctx s
      read =
    authenticated parsers store searcher listings searches a _ r ctx s _ _
      (timeline_between_lem parsers store searcher listings searches _ _) refl
serve_isolated parsers rt store publisher searcher a issuer k listings searches get_event r ctx s
      read =
    authenticated parsers store searcher listings searches a _ r ctx s _ _
      (get_parsed_lem parsers store searcher listings searches _) refl
serve_isolated parsers rt store publisher searcher a issuer k listings searches get_causes r ctx s
      read =
    authenticated parsers store searcher listings searches a _ r ctx s _ _
      (get_event_causes_lem parsers store searcher listings searches) refl
serve_isolated parsers rt store publisher searcher a issuer k listings searches get_health r ctx s
      read =
    absurd (ground arith)
serve_isolated parsers rt store publisher searcher a issuer k listings searches post_auth_token r
      ctx s read =
    absurd (ground arith)
serve_isolated parsers rt store publisher searcher a issuer k listings searches post_auth_issue r
      ctx s read =
    absurd (ground arith)
serve_isolated parsers rt store publisher searcher a issuer k listings searches post_tenants r ctx s
      read =
    absurd (ground arith)
serve_isolated parsers rt store publisher searcher a issuer k listings searches get_stream_events r
      ctx s read =
    absurd (ground arith)
serve_isolated parsers rt store publisher searcher a issuer k listings searches post_replay r ctx s
      read =
    absurd (ground arith)
serve_isolated parsers rt store publisher searcher a issuer k listings searches post_event r ctx s
      read =
    absurd (ground arith)
