-- ===== src/Http/Recording.antt =====
-- `POST /events` as a whole (internal/infrastructure/httpserver/handler.go, middleware/auth.go),
-- over what `Ingest` promises.
use nocturne_atlas_event_str.Prelude.{
  String, ◌≡◌, ◌≢◌, refl, ap, sym, ◌∙◌, ◌⊎◌, inl, inr, Option, none, some, List, [], ◌∷◌, ◌==◌,
  ◌||◌, true, eq_iff, arith, Bool-cases, if◌then◌else◌,
}
use nocturne_atlas_event_str.Prelude.Int.{pos, ltb_ℤ}
use nocturne_atlas_event_str.Exec.{Error, Result, ok, err}
use nocturne_atlas_event_str.Domain.{
  Event, Identity, TraceContext, Context, with_identity, with_correlation_id, identity_from_context,
  tenant_of, Runtime, Store, Publisher, Searcher, Contracts,
}
use nocturne_atlas_event_str.Ingest.Laws
use nocturne_atlas_event_str.Ingest.Laws.{Labels, Describes, Failed, Recorded, ingest_records}
use nocturne_atlas_event_str.Auth.{Authenticator, Issuer}
use nocturne_atlas_event_str.Http.Routes.{post_event, serve}
use nocturne_atlas_event_str.Http.Messages.{
  HttpRequest, IngestRequest, Response, Parsers, write_json, ingested_body, correlation_of,
  limit_reader,
}
use nocturne_atlas_event_str.Http.Limits.{LongestWithin, limit_reader-LongestWithin}
use nocturne_atlas_event_str.Http.Middleware.{auth, after_authenticate}
use nocturne_atlas_event_str.Http.Writes

-- The event holds what the request says; headers and the trace of the context come before the body.
pub record Holds (r : HttpRequest) (trace : TraceContext) (req : IngestRequest) (e : Event)
    : Type 0 where
  pub stream : e.stream_id ≡ req.stream_id
  pub kind : e.type ≡ req.type
  pub origin : e.source ≡ req.source
  pub body : e.payload ≡ (if req.payload == "" then "null" else req.payload)
  pub labels : Labels req.metadata e.metadata
  pub schema :
      e.event_version ≡ (if ltb_ℤ (pos 0) req.event_version then req.event_version else pos 1)
  pub caused :
      e.causation_id
      ≡ (if r.header "X-Causation-ID" == "" then req.causation_id else r.header "X-Causation-ID")
  pub acted : e.actor_id ≡ req.actor_id
  pub traced : e.trace_id ≡ (
      if trace.trace_id == ""
      then (if r.header "X-Trace-ID" == "" then req.trace_id else r.header "X-Trace-ID")
      else trace.trace_id)
  pub revision : e.source_version ≡ req.source_version

module _ {S : Type 0} (parsers : Parsers) (rt : Runtime S) (store : Store S)
    (publisher : Publisher S) (events : S → List Event)
    (laws : Contracts rt store publisher events) where
  -- 201 with the one event that was added, which is the caller's, holds what the request says and has
  -- the correlation ID of the response.
  abbrev pub Stored : Option Identity → HttpRequest → TraceContext → S → Response → S → Type 0
  Stored who r trace s resp s' =
      (e : Event) × (caller : Identity) × (tenant_of who ≡ some caller)
      × (resp ≡ record {
        status = 201;
        headers = ("X-Correlation-ID", e.correlation_id) ∷ [];
        body = ingested_body e;
      })
      × (events s' ≡ e ∷ events s)
      × (e.tenant_id ≡ caller.tenant_id)
      × (e.correlation_id ≢ "")
      × ((req : IngestRequest) × (part : String) × LongestWithin 4096 r.body part
          × (parsers.ingest_request part ≡ some req)
          × Holds r trace req e)

  -- Why `Ingest` has failed for a request: there is no tenant, a field is missing, or the store did
  -- not append the event.
  pub data Rejected (who : Option Identity) (r : HttpRequest) (trace : TraceContext)
      (req : IngestRequest) : S → Type 0 where
    no_caller : {s' : S} → tenant_of who ≡ none → Rejected who r trace req s'
    incomplete :
        {s' : S}
        → (req.stream_id == "" || req.type == "" || req.source == "") ≡ true
        → Rejected who r trace req s'
    not_appended :
        (ctx : Context) (e : Event) (s1 : S) (x : Error) {s' : S}
        → Holds r trace req e
        → store.append ctx e s1 ≡ (err x, s')
        → Rejected who r trace req s'

  pub data Unstored (who : Option Identity) (r : HttpRequest) (trace : TraceContext) (s : S)
      : Response → S → Type 0 where
    malformed :
        (part : String) {resp : Response} {s' : S}
        → LongestWithin 4096 r.body part
        → parsers.ingest_request part ≡ none
        → resp.status ≡ 400
        → events s' ≡ events s
        → Unstored who r trace s resp s'
    rejected :
        (req : IngestRequest) (part : String) {resp : Response} {s' : S}
        → LongestWithin 4096 r.body part
        → parsers.ingest_request part ≡ some req
        → Rejected who r trace req s'
        → resp.status ≡ 422
        → events s' ≡ events s
        → Unstored who r trace s resp s'

  -- What the handler does for an identity of its context.
  abbrev pub Handled : Option Identity → HttpRequest → TraceContext → S → Response → S → Type 0
  Handled who r trace s resp s' = Stored who r trace s resp s' ⊎ Unstored who r trace s resp s'

  Describes-Holds :
      (r : HttpRequest) (ctx : Context) (c : String) (req : IngestRequest) (caller : Identity)
      (e : Event)
      → Describes caller (Writes.command_of r (with_correlation_id ctx c) c req) e
      → Holds r ctx.trace_context req e
  unfolding Writes.command_of
  Describes-Holds r ctx c req caller e says = record {
    stream = says.stream;
    kind = says.kind;
    origin = says.origin;
    body = says.body;
    labels = says.labels;
    schema = says.schema;
    caused = says.caused;
    acted = says.acted;
    traced = says.traced;
    revision = says.revision;
  }

  Failed-Rejected :
      (r : HttpRequest) (ctx : Context) (c : String) (req : IngestRequest) (s1 s2 : S)
      → let ctx' = with_correlation_id ctx c in
        Failed rt store publisher events laws ctx' (Writes.command_of r ctx' c req) s1 s2
        → Rejected (identity_from_context ctx) r ctx.trace_context req s2
  unfolding Writes.command_of
  Failed-Rejected r ctx c req s1 s2 (Laws.no_caller nobody) = no_caller nobody
  Failed-Rejected r ctx c req s1 s2 (Laws.incomplete missing) = incomplete missing
  Failed-Rejected r ctx c req s1 s2 (Laws.not_appended caller e s3 x says ran) =
      not_appended _ e s3 x (Describes-Holds r ctx c req caller e says) ran

  answered :
      (r : HttpRequest) (ctx : Context) (c : String) (req : IngestRequest) (s s1 s2 : S)
      (res : Result Event)
      → c ≢ ""
      → parsers.ingest_request (limit_reader 4096 r.body) ≡ some req
      → events s1 ≡ events s
      → let ctx' = with_correlation_id ctx c in
        Recorded rt store publisher events laws ctx' (Writes.command_of r ctx' c req) s1 res s2
        → Handled (identity_from_context ctx) r ctx.trace_context s (Writes.ingest_answer c res) s2
  unfolding Writes.ingest_answer Writes.command_of
  answered r ctx c req s s1 s2 (ok e) ne body same (caller, who, complete, h) =
      let says = h.describes in
      let right : e.correlation_id ≡ c = says.correlated ne in
      inl (
        e,
        caller,
        who,
        ap (λ x. write_json 201 (("X-Correlation-ID", x) ∷ []) (ingested_body e)) (sym right),
        rw same at h.kept,
        says.tenant,
        says.traceable,
        (
          req,
          _,
          limit_reader-LongestWithin 4096 r.body,
          body,
          Describes-Holds r ctx c req caller e says,
        ),
      )
  answered r ctx c req s s1 s2 (err x) ne body same (h, why) = inr (
      rejected req _ (limit_reader-LongestWithin 4096 r.body) body
        (Failed-Rejected r ctx c req s1 s2 why) refl (h ∙ same))

  decoded_lem :
      (c : String) (o : Option IngestRequest) (r : HttpRequest) (ctx : Context) (s s1 : S)
      → c ≢ ""
      → parsers.ingest_request (limit_reader 4096 r.body) ≡ o
      → events s1 ≡ events s
      → let (resp, s') = Writes.ingest_decoded parsers rt store publisher c o r ctx s1 in
        Handled (identity_from_context ctx) r ctx.trace_context s resp s'
  unfolding Writes.ingest_decoded
  decoded_lem c none r ctx s s1 ne body same =
      inr (malformed _ (limit_reader-LongestWithin 4096 r.body) body refl same)
  decoded_lem c (some req) r ctx s s1 ne body same =
      let ctx' = with_correlation_id ctx c in
      answered r ctx c req s s1 _ _ ne body same
        (ingest_records rt store publisher events laws ctx' (Writes.command_of r ctx' c req) s1)

  settled_lem :
      (r : HttpRequest) (s : S)
      → let (c, s') = Writes.settled_correlation parsers rt store publisher r s in
        (c ≢ "") × (events s' ≡ events s)
  unfolding Writes.settled_correlation
  settled_lem r s = elim (Bool-cases (correlation_of r == "")) [
    | inl empty ↦ rw empty (laws.uuid_nonempty s, laws.uuid_keeps s)
    | inr given ↦ rw given (λ e. ground (arith, eq_iff (correlation_of r) ""), refl)
  ]

  handler_lem :
      (r : HttpRequest) (ctx : Context) (s s0 : S)
      → events s0 ≡ events s
      → let (resp, s') = Writes.ingest parsers rt store publisher r ctx s0 in
        Handled (identity_from_context ctx) r ctx.trace_context s resp s'
  unfolding Writes.ingest
  handler_lem r ctx s s0 same =
      let (ne, keeps) = settled_lem r s0 in decoded_lem _ _ r ctx s _ ne refl (keeps ∙ same)

  abbrev pub Posted : Authenticator S → HttpRequest → Context → S → Response → S → Type 0
  Posted authenticator r ctx s resp s' =
      ((x : Error) × ((authenticator.authenticate r.header s).0 ≡ err x)
        × (resp.status ≡ 401)
        × (events s' ≡ events s))
      ⊎ ((caller : Identity) × ((authenticator.authenticate r.header s).0 ≡ ok caller)
          × Handled (some caller) r ctx.trace_context s resp s')

  posted_lem :
      (authenticator : Authenticator S) (r : HttpRequest) (ctx : Context) (s s0 : S)
      (res : Result Identity)
      → (authenticator.authenticate r.header s).0 ≡ res
      → events s0 ≡ events s
      → let (resp, s') =
          after_authenticate (Writes.ingest parsers rt store publisher) r ctx res s0 in
        Posted authenticator r ctx s resp s'
  unfolding after_authenticate
  posted_lem authenticator r ctx s s0 (err x) e same = inl (x, e, refl, same)
  posted_lem authenticator r ctx s s0 (ok id) e same =
      inr (id, e, handler_lem r (with_identity ctx id) s s0 same)

-- Over any store, publisher, clock and UUID generator that keep to their contracts, and an
-- authenticator that leaves the store alone, POST /events answers in one of four ways. With 401,
-- when the authenticator refuses. Or, for the identity that it returned, with 201: then exactly one
-- event was added, it is the answer's body, belongs to that identity's tenant, has the correlation
-- ID, never empty, that the response names, and holds what the request says: the stream, type,
-- source, payload, metadata, versions and actor of its body, decoded from its first 4096 bytes, the
-- causation of the header or else of the body, and the trace of the context, or else of the header
-- or the body. With 400, when these bytes are no request. Or with 422, when the identity has no
-- tenant, the request no stream, type or source, or the store did not append an event that holds
-- what the request says. In all but the second nothing was added.
pub post_event_records :
    {S : Type 0} (parsers : Parsers) (rt : Runtime S) (store : Store S) (publisher : Publisher S)
    (searcher : Searcher S) (authenticator : Authenticator S) (issuer : Option (Issuer S))
    (admin_key : String) (events : S → List Event) (laws : Contracts rt store publisher events)
    (leaves : (header : String → String) (s : S)
      → events (authenticator.authenticate header s).1 ≡ events s)
    (r : HttpRequest) (ctx : Context) (s : S)
    → let (resp, s') =
        serve parsers rt store publisher searcher authenticator issuer admin_key post_event r ctx
          s in
      Posted parsers rt store publisher events laws authenticator r ctx s resp s'
unfolding serve auth
post_event_records parsers rt store publisher searcher a issuer k events laws leaves r ctx s =
    posted_lem parsers rt store publisher events laws a r ctx s _ _ refl (leaves r.header s)
