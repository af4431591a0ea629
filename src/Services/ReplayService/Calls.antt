-- ===== src/Services/ReplayService/Calls.antt =====
-- What the replay service (cmd/replay-service/main.go) answers once it serves.
use nocturne_atlas_event_str.Prelude.{◌≡◌, ◌≢◌, refl}
use nocturne_atlas_event_str.Exec.{Error, Result, ok, err, or_wrap, pure, ◌>>◌}
use nocturne_atlas_event_str.Exec.Rules.{after_or_wrap}
use nocturne_atlas_event_str.Domain.{background}
use nocturne_atlas_event_str.Config.{Config}
use nocturne_atlas_event_str.Grpc.{ReplayCall, Answer, data_loss}
use nocturne_atlas_event_str.Grpc.Laws.{replay-Answered}
use nocturne_atlas_event_str.Postgres.Startup.{new_event_store}
use nocturne_atlas_event_str.Services.ReplayService.{Parts, serve, main}

module _ {P : Type 0} (parts : Parts P) (cfg : Config) where
  -- What serves is the handler.
  abbrev Serves : Result (ReplayCall → P → Answer × P) → P → Type 0
  Serves (ok f) s = f ≡ serve parts
  Serves (err x) s = Unit

  main-Serves : (s : P) → let (r, s') = main parts cfg s in Serves r s'
  unfolding main
  main-Serves s =
      after_or_wrap Serves "failed to init event store" (new_event_store parts.pools cfg.postgres)
        (λ _.
          or_wrap "failed to bind grpc listener" (parts.listen cfg.grpc_addr) >> pure (serve parts))
        s
        (λ a s1 e.
          after_or_wrap Serves "failed to bind grpc listener" (parts.listen cfg.grpc_addr)
            (λ _. pure (serve parts)) s1 (λ b s2 e2. refl) (λ x s2 e2. tt))
        (λ x s1 e. tt)

-- When the replay service has started, it answers every call with a stream ID by DataLoss, whatever
-- its store holds, and reads nothing: no call is ever answered with events.
pub main_refuses :
    {P : Type 0} (parts : Parts P) (cfg : Config) (s s1 : P) (served : ReplayCall → P → Answer × P)
    → main parts cfg s ≡ (ok served, s1)
    → (call : ReplayCall) (s2 : P) → call.stream_id ≢ ""
    → (e : Error) × (served call s2 ≡ (data_loss e, s2))
main_refuses parts cfg s s1 served started call s2 named =
    let same : served ≡ serve parts = rw started at (main-Serves parts cfg s) in
    rw same ((replay-Answered parts.store background call s2).1 refl named)
