-- ===== src/Http/ReplayBodies.antt =====
-- The body of a replay request and the events of its answer
-- (internal/infrastructure/httpserver/dto.go and replayEvents of handler.go), field by field.
use nocturne_atlas_event_str.Prelude.{
  String, ◌≡◌, ◌≢◌, ◌==◌, eq_iff, arith, refl, ◌⊎◌, inl, inr, none, some, List, [], ◌∷◌, map,
  Bool-cases,
}
use nocturne_atlas_event_str.Prelude.Int.{pos}
use nocturne_atlas_event_str.Domain.{Time, Event}
use nocturne_atlas_event_str.Replay.Engine.{ReplayRequest}
use nocturne_atlas_event_str.Http.Messages.{
  HttpRequest, ReplayBody, EventResponse, Parsers, domain_to_event_response,
}
use nocturne_atlas_event_str.Http.Reads.{time_param}
use nocturne_atlas_event_str.Http.Writes.{request_of}

-- A response shows an event field by field.
pub record Shows (e : Event) (v : EventResponse) : Type 0 where
  pub ids : (v.id ≡ e.id) × (v.tenant_id ≡ e.tenant_id) × (v.stream_id ≡ e.stream_id)
  pub kind : (v.type ≡ e.type) × (v.source ≡ e.source)
  pub versions :
      (v.version ≡ e.version)
      × (v.event_version ≡ e.event_version)
      × (v.source_version ≡ e.source_version)
  pub at : v.occurred_at ≡ e.occurred_at
  pub links :
      (v.correlation_id ≡ e.correlation_id)
      × (v.causation_id ≡ e.causation_id)
      × (v.actor_id ≡ e.actor_id)
      × (v.trace_id ≡ e.trace_id)
  pub body : (v.payload ≡ e.payload) × (v.metadata ≡ e.metadata)
  pub replay :
      (v.is_replay ≡ e.is_replay)
      × (v.replay_id ≡ e.replay_id)
      × (v.replayed_at ≡ e.replayed_at)
      × (v.replay_reason ≡ e.replay_reason)
      × (v.replay_source_event_id ≡ e.replay_source_event_id)

-- They show the events in order.
abbrev pub ShowsAll : List Event → List EventResponse → Type 0
ShowsAll [] [] = Unit
ShowsAll (e ∷ es) (v ∷ vs) = Shows e v × ShowsAll es vs
ShowsAll _ _ = ⊥

pub responses-ShowsAll : (es : List Event) → ShowsAll es (map domain_to_event_response es)
unfolding domain_to_event_response
responses-ShowsAll [] = tt
responses-ShowsAll (e ∷ es) = (
  record {
    ids = (refl, refl, refl);
    kind = (refl, refl);
    versions = (refl, refl, refl);
    at = refl;
    links = (refl, refl, refl, refl);
    body = (refl, refl);
    replay = (refl, refl, refl, refl, refl);
  },
  responses-ShowsAll es,
)

module _ (parsers : Parsers) where
  -- An absent time is the zero time, another is parsed.
  abbrev pub IsTime : String → Time → Type 0
  IsTime s t = ((s ≡ "") × (t ≡ pos 0)) ⊎ ((s ≢ "") × (parsers.parse_time s ≡ some t))

  abbrev pub IsNoTime : String → Type 0
  IsNoTime s = (s ≢ "") × (parsers.parse_time s ≡ none)

  time_param-some : (s : String) (t : Time) → time_param parsers s ≡ some t → IsTime s t
  unfolding time_param
  time_param-some s t h = elim (Bool-cases (s == "")) [
    | inl empty ↦ inl ((eq_iff s "").0 empty, ground arith)
    | inr given ↦ inr (λ e. ground (arith, eq_iff s ""), rw given at h)
  ]

  pub time_param-none : (s : String) → time_param parsers s ≡ none → IsNoTime s
  unfolding time_param
  time_param-none s h = elim (Bool-cases (s == "")) [
    | inl empty ↦ absurd (ground arith)
    | inr given ↦ (λ e. ground (arith, eq_iff s ""), rw given at h)
  ]

  -- The body is no request, or one of its times is none.
  abbrev pub Malformed : HttpRequest → Type 0
  Malformed r =
      (parsers.replay_request r.body ≡ none)
      ⊎ ((req : ReplayBody) × (parsers.replay_request r.body ≡ some req)
          × (IsNoTime req.filter.from_time ⊎ IsNoTime req.filter.to_time))

  -- The body and its times are decoded to the request.
  pub record Decodes (r : HttpRequest) (request : ReplayRequest) : Type 0 where
    pub req : ReplayBody
    pub decoded : parsers.replay_request r.body ≡ some req
    pub from : IsTime req.filter.from_time request.filter.from_time
    pub to : IsTime req.filter.to_time request.filter.to_time
    pub tenant : request.filter.tenant_id ≡ req.filter.tenant_id
    pub stream : request.filter.stream_id ≡ req.filter.stream_id
    pub correlated : request.filter.correlation_id ≡ req.filter.correlation_id
    pub kind : request.filter.event_type ≡ req.filter.event_type
    pub acted : request.filter.actor_id ≡ req.filter.actor_id
    pub selected : request.filter.event_ids ≡ req.filter.event_ids
    pub dry : request.options.dry_run ≡ req.options.dry_run
    pub reason : request.options.replay_reason ≡ req.options.replay_reason
    pub limit : request.options.safety_limit ≡ req.options.safety_limit

  pub request_of-Decodes :
      (r : HttpRequest) (req : ReplayBody) (from to : Time)
      → parsers.replay_request r.body ≡ some req
      → time_param parsers req.filter.from_time ≡ some from
      → time_param parsers req.filter.to_time ≡ some to
      → Decodes r (request_of req from to)
  unfolding request_of
  request_of-Decodes r req from to body a b = record {
    req = req;
    decoded = body;
    from = time_param-some req.filter.from_time from a;
    to = time_param-some req.filter.to_time to b;
    tenant = refl;
    stream = refl;
    correlated = refl;
    kind = refl;
    acted = refl;
    selected = refl;
    dry = refl;
    reason = refl;
    limit = refl;
  }
