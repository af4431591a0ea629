-- ===== src/Services/ReplayService.antt =====
-- `main` of cmd/replay-service/main.go up to the point where the gRPC server serves. The signals
-- and the shutdown are not modelled.
pub mod Calls
use nocturne_atlas_event_str.Prelude.{String}
use nocturne_atlas_event_str.Exec.{Exec, or_wrap, pure, ◌>>=◌, ◌>>◌}
use nocturne_atlas_event_str.Domain.{Store, background}
use nocturne_atlas_event_str.Config.{Config}
use nocturne_atlas_event_str.Grpc
use nocturne_atlas_event_str.Grpc.{ReplayCall, Answer}
use nocturne_atlas_event_str.Postgres.Startup.{Pools, new_event_store}

-- `listen` is `net.Listen`.
pub record Parts (P : Type 0) : Type 0 where
  pub pools : Pools P
  pub store : Store P
  pub listen : String → Exec P (Unit {0})

module _ {P : Type 0} (parts : Parts P) where
  -- The registered handler. The server is made with no interceptor, so the context of a call
  -- carries nothing of the program's.
  abbrev pub serve : ReplayCall → P → Answer × P
  serve = Grpc.replay parts.store background

  -- `main`
  unfoldable pub main : Config → Exec P (ReplayCall → P → Answer × P)
  main cfg = do
    or_wrap "failed to init event store" (new_event_store parts.pools cfg.postgres)
    or_wrap "failed to bind grpc listener" (parts.listen cfg.grpc_addr)
    pure serve
