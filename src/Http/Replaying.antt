-- ===== src/Http/Replaying.antt =====
-- `POST /replay` as a whole (internal/infrastructure/httpserver/handler.go, middleware/auth.go),
-- over what `ReplayEngine.Execute` promises.
use nocturne_atlas_event_str.Prelude.{
  String, ◌≡◌, refl, ◌⊎◌, inl, inr, Option, none, some, List, [], ◌∷◌, Bool-cases, true, false,
}
use nocturne_atlas_event_str.Exec.{
  Error, is_error, replay_limit_exceeded, deadline_exceeded, Result, ok, err,
}
use nocturne_atlas_event_str.Domain.{
  Time, Event, Identity, Context, with_identity, with_correlation_id, Runtime, Store, Publisher,
  Searcher, Contracts,
}
use nocturne_atlas_event_str.Replay.Engine.{ReplayRequest, ReplayResult, execute}
use nocturne_atlas_event_str.Replay.Outcome.{Abandoned}
use nocturne_atlas_event_str.Replay.Execute.{ExecuteEnded, execute_ends}
use nocturne_atlas_event_str.Auth.{Authenticator, Issuer}
use nocturne_atlas_event_str.Http.Messages.{
  HttpRequest, ReplayBody, EventResponse, Response, Parsers, write_json, replay_body,
  correlation_of,
}
use nocturne_atlas_event_str.Http.Middleware.{auth, after_authenticate}
use nocturne_atlas_event_str.Http.Reads.{time_param}
use nocturne_atlas_event_str.Http.Writes
use nocturne_atlas_event_str.Http.Writes.{request_of}
use nocturne_atlas_event_str.Http.Routes.{post_replay, serve}
use nocturne_atlas_event_str.Http.ReplayBodies.{
  Malformed, Decodes, ShowsAll, responses-ShowsAll, time_param-none, request_of-Decodes,
}

module _ {S : Type 0} (parsers : Parsers) (rt : Runtime S) (store : Store S)
    (publisher : Publisher S) (events : S → List Event) (laws : Contracts rt store publisher events)
    (authenticator : Authenticator S) (r : HttpRequest) (ctx : Context) (s : S) where
  -- The context of the handler.
  abbrev handler_context : Identity → Context
  handler_context caller = with_correlation_id (with_identity ctx caller) (correlation_of r)

  -- 422 for an exceeded limit, else 504 for a deadline, else 500.
  abbrev pub FailsWith : Error → Response → Type 0
  FailsWith x resp =
      ((is_error x replay_limit_exceeded ≡ true) × (resp.status ≡ 422))
      ⊎ (((is_error x replay_limit_exceeded ≡ false)
            × (is_error x deadline_exceeded ≡ true)
            × (resp.status ≡ 504))
          ⊎ ((is_error x replay_limit_exceeded ≡ false)
              × (is_error x deadline_exceeded ≡ false)
              × (resp.status ≡ 500)))

  pub data Replayed : Response → S → Type 0 where
    refused :
        (x : Error) {s1 : S} {resp : Response}
        → authenticator.authenticate r.header s ≡ (err x, s1)
        → resp.status ≡ 401
        → Replayed resp s1
    malformed :
        (caller : Identity) {s1 : S} {resp : Response}
        → authenticator.authenticate r.header s ≡ (ok caller, s1)
        → Malformed parsers r
        → resp.status ≡ 400
        → Replayed resp s1
    failed :
        (caller : Identity) (s1 : S) (request : ReplayRequest) (x : Error) {s2 : S}
        {resp : Response}
        → authenticator.authenticate r.header s ≡ (ok caller, s1)
        → Decodes parsers r request
        → execute rt store publisher (handler_context caller) request s1 ≡ (err x, s2)
        → Abandoned request.options.dry_run request.options.replay_reason (events s1) (events s2)
        → FailsWith x resp
        → Replayed resp s2
    done :
        (caller : Identity) (s1 : S) (request : ReplayRequest) {res : ReplayResult} {s2 : S}
        (shown : List EventResponse) {resp : Response}
        → authenticator.authenticate r.header s ≡ (ok caller, s1)
        → Decodes parsers r request
        → execute rt store publisher (handler_context caller) request s1 ≡ (ok res, s2)
        → ExecuteEnded rt store publisher events laws
            (handler_context caller)
            request
            s1
            (ok res)
            s2
        → ShowsAll res.events shown
        → resp
          ≡ write_json 200 (("X-Correlation-ID", correlation_of r) ∷ []) (replay_body res shown)
        → Replayed resp s2

  fails_lem : (x : Error) → FailsWith x (Writes.replay_answer r (err x))
  unfolding Writes.replay_answer
  fails_lem x = elim (Bool-cases (is_error x replay_limit_exceeded)) [
    | inl limit ↦ inl (limit, rw limit refl)
    | inr other ↦ elim (Bool-cases (is_error x deadline_exceeded)) [
      | inl late ↦ inr (inl (other, late, rw (other, late) refl))
      | inr rest ↦ inr (inr (other, rest, rw (other, rest) refl))
    ]
  ]

  answer_lem :
      (caller : Identity) (s1 s2 : S) (request : ReplayRequest) (res : Result ReplayResult)
      → authenticator.authenticate r.header s ≡ (ok caller, s1)
      → Decodes parsers r request
      → execute rt store publisher (handler_context caller) request s1 ≡ (res, s2)
      → ExecuteEnded rt store publisher events laws (handler_context caller) request s1 res s2
      → Replayed (Writes.replay_answer r res) s2
  unfolding Writes.replay_answer
  answer_lem caller s1 s2 request (ok res) e decoded ran ended =
      done caller s1 request _ e decoded ran ended (responses-ShowsAll res.events) refl
  answer_lem caller s1 s2 request (err x) e decoded ran ended =
      failed caller s1 request x e decoded ran ended (fails_lem x)

  between_lem :
      (caller : Identity) (s1 : S) (req : ReplayBody) (from to : Option Time)
      → authenticator.authenticate r.header s ≡ (ok caller, s1)
      → parsers.replay_request r.body ≡ some req
      → time_param parsers req.filter.from_time ≡ from
      → time_param parsers req.filter.to_time ≡ to
      → let (resp, s2) =
          Writes.replay_between parsers rt store publisher req from to r
            (with_identity ctx caller)
            s1 in
        Replayed resp s2
  unfolding Writes.replay_between
  between_lem caller s1 req none to e body a b =
      malformed caller e (inr (req, body, inl (time_param-none parsers _ a))) refl
  between_lem caller s1 req (some from) none e body a b =
      malformed caller e (inr (req, body, inr (time_param-none parsers _ b))) refl
  between_lem caller s1 req (some from) (some to) e body a b =
      answer_lem caller s1 _ (request_of req from to) _ e
        (request_of-Decodes parsers r req from to body a b) refl
        (execute_ends rt store publisher events laws (handler_context caller)
          (request_of req from to) s1)

  decoded_lem :
      (caller : Identity) (s1 : S) (body : Option ReplayBody)
      → authenticator.authenticate r.header s ≡ (ok caller, s1)
      → parsers.replay_request r.body ≡ body
      → let (resp, s2) =
          Writes.replay_decoded parsers rt store publisher body r (with_identity ctx caller) s1 in
        Replayed resp s2
  unfolding Writes.replay_decoded
  decoded_lem caller s1 none e b = malformed caller e (inl b) refl
  decoded_lem caller s1 (some req) e b = between_lem caller s1 req _ _ e b refl refl

  authenticated :
      (res : Result Identity) (s1 : S)
      → authenticator.authenticate r.header s ≡ (res, s1)
      → let (resp, s2) =
          after_authenticate (Writes.replay_events parsers rt store publisher) r ctx res s1 in
        Replayed resp s2
  unfolding after_authenticate
  authenticated (ok caller) s1 e = decoded_lem caller s1 _ e refl
  authenticated (err x) s1 e = refused x e refl

-- Over any store, publisher, clock and UUID generator that keep to their contracts, POST /replay
-- answers in one of four ways. With 401 or 400, when the authenticator refuses or the body or a
-- time in it is malformed: then nothing of the engine has run. With 422 for an exceeded limit, 504
-- for a deadline, or else 500, when the engine fails: then the store is as it was, or holds in
-- addition the replays made before the append that failed, never in a dry run. Or with 200 and the
-- engine's result: then the caller has a tenant, the request has a reason or is a dry run, names a
-- tenant or event IDs, and was put under the caller's tenant; a dry run has written nothing and an
-- active run exactly one replay of each matched event, which the body shows field by field.
pub post_replay_replays :
    {S : Type 0} (parsers : Parsers) (rt : Runtime S) (store : Store S) (publisher : Publisher S)
    (searcher : Searcher S) (authenticator : Authenticator S) (issuer : Option (Issuer S))
    (admin_key : String) (events : S → List Event) (laws : Contracts rt store publisher events)
    (r : HttpRequest) (ctx : Context) (s : S)
    → let (resp, s') =
        serve parsers rt store publisher searcher authenticator issuer admin_key post_replay r ctx
          s in
      Replayed parsers rt store publisher events laws authenticator r ctx s resp s'
unfolding serve auth
post_replay_replays parsers rt store publisher searcher a issuer k events laws r ctx s =
    authenticated parsers rt store publisher events laws a r ctx s _ _ refl
