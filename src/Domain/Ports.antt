-- ===== src/Domain/Ports.antt =====
-- The outbound ports of internal/domain/event/repository.go, over the state `S` of what stands
-- behind them, and the two sources of fresh values that the code calls: `uuid.New`, `time.Now`.
use nocturne_atlas_event_str.Prelude.{String, List, Option, none, some}
use nocturne_atlas_event_str.Prelude.Int.{ℤ}
use nocturne_atlas_event_str.Exec.{Exec, text, raise, pure}
use nocturne_atlas_event_str.Domain.Events.{Time, Event, ReplayFilter, SearchQuery}
use nocturne_atlas_event_str.Domain.Contexts.{Context, Identity}

pub record Runtime (S : Type 0) : Type 0 where
  pub new_uuid : S → String × S
  pub now : S → Time × S

-- `append` returns the event with its version set.
pub record Store (S : Type 0) : Type 0 where
  pub append : Context → Event → Exec S Event
  pub get_by_stream_id : Context → String → Exec S (List Event)
  pub get_by_id : Context → String → Exec S Event
  pub get_from_version : Context → String → ℤ → Exec S (List Event)
  pub list_by_correlation_id : Context → String → String → ℤ → ℤ → Exec S (List Event × ℤ)
  pub list_by_causation_id : Context → String → String → ℤ → ℤ → Exec S (List Event × ℤ)
  pub list_timeline : Context → String → Time → Time → ℤ → ℤ → Exec S (List Event × ℤ)
  pub query_for_replay : Context → ReplayFilter → ℤ → Exec S (List Event)

pub record Publisher (S : Type 0) : Type 0 where
  pub publish : Context → Event → Exec S (Unit {0})

pub record Indexer (S : Type 0) : Type 0 where
  pub index : Context → Event → Exec S (Unit {0})

pub record Searcher (S : Type 0) : Type 0 where
  pub search : Context → SearchQuery → Exec S (List Event × ℤ)

-- `unauthenticated: identity with tenant_id is required`, the check that opens each service method.
abbrev pub required_identity : {S : Type 0} → Option Identity → Exec S Identity
required_identity none = raise (text "unauthenticated: identity with tenant_id is required")
required_identity (some identity) = pure identity
