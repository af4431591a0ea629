-- ===== src/Ingest.antt =====
-- internal/application/ingest/service.go. Log lines are not modelled.
pub mod Laws
use nocturne_atlas_event_str.Prelude.{String, Bool, Option, none, some, ◌||◌, ◌==◌, if◌then◌else◌}
use nocturne_atlas_event_str.Prelude.Int.{ℤ, pos, ltb_ℤ}
use nocturne_atlas_event_str.Exec.{
  Result, Exec, Error, text, pure, raise, raise_if, or_wrap, attempt, always, ◌>>=◌, ◌>>◌,
}
use nocturne_atlas_event_str.Domain.{
  Time, Metadata, Event, new_event, Identity, Context, identity_from_context, tenant_of, Runtime,
  Store, Publisher, required_identity,
}

pub record Command : Type 0 where
  pub stream_id : String
  pub type : String
  pub source : String
  pub payload : String
  pub metadata : Option Metadata
  pub correlation_id : String
  pub event_version : ℤ
  pub causation_id : String
  pub actor_id : String
  pub trace_id : String
  pub source_version : String

-- The event that a command describes: `event.New`, then the assignments of `Ingest`.
unfoldable pub envelope : String → Time → String → Identity → Command → Event
unfolding new_event
envelope id now correlation_id identity cmd =
    let e =
      new_event id now cmd.stream_id cmd.type cmd.source correlation_id cmd.payload cmd.metadata in
    record e {
      tenant_id = identity.tenant_id;
      event_version =
          if ltb_ℤ (pos 0) cmd.event_version then cmd.event_version else e.event_version;
      causation_id = cmd.causation_id;
      actor_id = cmd.actor_id;
      trace_id = cmd.trace_id;
      source_version = cmd.source_version;
    }

module _ {S : Type 0} (rt : Runtime S) (store : Store S) (publisher : Publisher S) where
  -- An empty correlation ID is replaced by a fresh UUID.
  unfoldable pub resolved_correlation : String → Exec S String
  resolved_correlation given = if given == "" then always rt.new_uuid else pure given

  -- The end of `Ingest`: an append that fails ends the call, a publish that fails does not.
  unfoldable pub persist : Context → Event → Exec S Event
  persist ctx e = do
    e' ← or_wrap "append to store" (store.append ctx e)
    published ← attempt (publisher.publish ctx e')
    pure e'

  -- `Ingest` once the checks have passed and the correlation ID is settled.
  unfoldable pub accept_with : Context → Identity → Command → String → Exec S Event
  accept_with ctx identity cmd correlation_id = do
    id ← always rt.new_uuid
    now ← always rt.now
    persist ctx (envelope id now correlation_id identity cmd)

  -- `Ingest` once the checks have passed.
  unfoldable pub accept : Context → Identity → Command → Exec S Event
  accept ctx identity cmd = do
    correlation_id ← resolved_correlation cmd.correlation_id
    accept_with ctx identity cmd correlation_id

  -- `Ingest`
  unfoldable pub ingest : Context → Command → Exec S Event
  ingest ctx cmd = do
    identity ← required_identity (tenant_of (identity_from_context ctx))
    raise_if (cmd.stream_id == "" || cmd.type == "" || cmd.source == "")
        (text "stream_id, type, and source are required")
    accept ctx identity cmd
