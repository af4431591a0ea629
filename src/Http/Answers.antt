-- ===== src/Http/Answers.antt =====
-- What the answers of internal/infrastructure/httpserver/handler.go show of the events that the query
-- service returns.
use nocturne_atlas_event_str.Prelude.{
  String, ◌≡◌, ◌≢◌, refl, ◌⊎◌, inl, inr, Option, some, List, [], ◌∷◌, map, arith, All,
}
use nocturne_atlas_event_str.Exec.{Result, ok, err}
use nocturne_atlas_event_str.Domain.{
  Time, Event, Identity, Context, identity_from_context, tenant_of,
}
use nocturne_atlas_event_str.Query
use nocturne_atlas_event_str.Query.Scope.{Returns}
use nocturne_atlas_event_str.Http.Messages.{
  HttpRequest, Response, Body, EventResponse, domain_to_event_response, event_body, list_body,
  stream_body, causation_body, timeline_body, replay_body,
}
use nocturne_atlas_event_str.Http.Reads

-- The events that a body shows.
unfoldable pub shown : Body → List EventResponse
shown (event_body e) = e ∷ []
shown (list_body model p) = p.events
shown (stream_body id model p) = p.events
shown (causation_body id p) = p.events
shown (timeline_body tenant from to p) = p.events
shown (replay_body res events) = events
shown _ = []

-- 200 with events of the caller's tenant, or another status and no event.
abbrev pub Private : Option Identity → Response → Type 0
Private who resp =
    ((resp.status ≡ 200)
      × ((caller : Identity) × (tenant_of who ≡ some caller)
          × All (λ e. e.tenant_id ≡ caller.tenant_id) (shown resp.body)))
    ⊎ ((resp.status ≢ 200) × (shown resp.body ≡ []))

own_responses :
    (tenant : String) (es : List Event)
    → All (λ e. e.tenant_id ≡ tenant) es
    → All (λ e. e.tenant_id ≡ tenant) (map domain_to_event_response es)
unfolding domain_to_event_response
own_responses tenant [] h = tt
own_responses tenant (e ∷ es) (own, h) = (own, own_responses tenant es h)

module _ {S : Type 0} (ctx : Context) (r : HttpRequest) (s : S) where
  pub list_answer_lem :
      (res : Result Query.ListResult)
      → Returns ctx (λ r. (r.events, r.limit)) res s
      → Private (identity_from_context ctx) (Reads.list_answer r res)
  unfolding Reads.list_answer shown
  list_answer_lem (ok res) (caller, who, own, page) =
      inl (refl, (caller, who, own_responses caller.tenant_id res.events own))
  list_answer_lem (err x) h = inr (λ e. ground arith, refl)

  pub causation_answer_lem :
      (res : Result Query.CausationResult)
      → Returns ctx (λ r. (r.events, r.limit)) res s
      → Private (identity_from_context ctx) (Reads.causation_answer r res)
  unfolding Reads.causation_answer shown
  causation_answer_lem (ok res) (caller, who, own, page) =
      inl (refl, (caller, who, own_responses caller.tenant_id res.events own))
  causation_answer_lem (err x) h = inr (λ e. ground arith, refl)

  pub timeline_answer_lem :
      (from_time to_time : Time) (res : Result Query.TimelineResult)
      → Returns ctx (λ r. (r.events, r.limit)) res s
      → Private (identity_from_context ctx) (Reads.timeline_answer r from_time to_time res)
  unfolding Reads.timeline_answer shown
  timeline_answer_lem from to (ok res) (caller, who, own, page) =
      inl (refl, (caller, who, own_responses caller.tenant_id res.events own))
  timeline_answer_lem from to (err x) h = inr (λ e. ground arith, refl)
