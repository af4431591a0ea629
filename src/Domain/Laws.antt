-- ===== src/Domain/Laws.antt =====
-- What the services rely on of the ports of internal/domain/event/repository.go, stated over the
-- events that the store holds, the newest first.
use nocturne_atlas_event_str.Prelude.{String, ◌≡◌, ◌≢◌, Bool, false, List, ◌∷◌, ◌==◌, any}
use nocturne_atlas_event_str.Prelude.Int.{ℤ}
use nocturne_atlas_event_str.Exec.{Result, ok, err}
use nocturne_atlas_event_str.Domain.Events.{Event, ReplayFilter, set_version}
use nocturne_atlas_event_str.Domain.Contexts.{Context}
use nocturne_atlas_event_str.Domain.Ports.{Runtime, Store, Publisher}

-- An event of the list has the UUID.
unfoldable pub knows : List Event → String → Bool
knows log id = any (λ e. e.id == id) log

-- What an append of an event with a new UUID has done to the stored events, by how it ended.
abbrev pub Appended : List Event → Event → Result Event → List Event → Type 0
Appended log e (ok e') log' = (e' ≡ set_version e e'.version) × (log' ≡ e' ∷ log)
Appended log e (err _) log' = log' ≡ log

-- The store is append-only; the publisher, the clock and the UUID generator leave it alone; a fresh
-- UUID is not empty and not in use.
pub record Contracts {S : Type 0} (rt : Runtime S) (store : Store S) (publisher : Publisher S)
    (events : S → List Event) : Type 0 where
  pub append_law :
      (ctx : Context) (e : Event) (s : S)
      → knows (events s) e.id ≡ false
      → Appended (events s) e (store.append ctx e s).0 (events (store.append ctx e s).1)
  pub query_keeps :
      (ctx : Context) (f : ReplayFilter) (limit : ℤ) (s : S)
      → events (store.query_for_replay ctx f limit s).1 ≡ events s
  pub publish_keeps :
      (ctx : Context) (e : Event) (s : S) → events (publisher.publish ctx e s).1 ≡ events s
  pub uuid_keeps : (s : S) → events (rt.new_uuid s).1 ≡ events s
  pub uuid_fresh : (s : S) → knows (events s) (rt.new_uuid s).0 ≡ false
  pub uuid_nonempty : (s : S) → (rt.new_uuid s).0 ≢ ""
  pub now_keeps : (s : S) → events (rt.now s).1 ≡ events s
