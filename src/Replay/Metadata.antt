-- ===== src/Replay/Metadata.antt =====
-- The event that a replay builds from an original (internal/application/replay/service.go): a copy
-- but for what says that it is a replay.
use nocturne_atlas_event_str.Prelude.{
  String, ◌≡◌, refl, ◌≢◌, true, some, [], ◌∷◌, ◌==◌, arith, eq_iff, if◌then◌else◌,
}
use nocturne_atlas_event_str.Prelude.Int.{ℤ}
use nocturne_atlas_event_str.Prelude.Dict.{lookup, lookup-insert}
use nocturne_atlas_event_str.Domain.{Time, Metadata, Event, set_version}
use nocturne_atlas_event_str.Replay.Engine.{clone_metadata, mark_metadata, replay_event}

pub lookup-clone_metadata : (k : String) (m : Metadata) → lookup k (clone_metadata m) ≡ lookup k m
unfolding clone_metadata lookup
lookup-clone_metadata k [] = refl
lookup-clone_metadata k ((j, v) ∷ m) =
    rw (lookup-insert j k v (clone_metadata m), lookup-clone_metadata k m)

-- What the metadata of a replay event says under each key.
pub lookup-mark_metadata :
    (replay_id reason : String) (orig : Event) (k : String)
    → lookup k (mark_metadata replay_id reason orig) ≡ (
        if "replay_reason" == k
        then some reason
        else if "replay_source_event_id" == k
        then some orig.id
        else if "replay_id" == k
        then some replay_id
        else if "is_replay" == k
        then some "true"
        else lookup k orig.metadata)
unfolding mark_metadata
lookup-mark_metadata replay_id reason orig k = simp (lookup-insert, lookup-clone_metadata)

-- `e` is a replay of `orig` in the batch.
pub record IsReplayOf (replay_id : String) (started : Time) (reason : String) (orig e : Event)
    : Type 0 where
  pub stream : e.stream_id ≡ orig.stream_id
  pub kind : e.type ≡ orig.type
  pub origin : e.source ≡ orig.source
  pub tenant : e.tenant_id ≡ orig.tenant_id
  pub schema : e.event_version ≡ orig.event_version
  pub correlated : e.correlation_id ≡ orig.correlation_id
  pub caused : e.causation_id ≡ orig.causation_id
  pub acted : e.actor_id ≡ orig.actor_id
  pub traced : e.trace_id ≡ orig.trace_id
  pub release : e.source_version ≡ orig.source_version
  pub body : e.payload ≡ (if orig.payload == "" then "null" else orig.payload)
  pub marked : e.is_replay ≡ true
  pub batch : e.replay_id ≡ replay_id
  pub at : e.replayed_at ≡ some started
  pub why : e.replay_reason ≡ reason
  pub original : e.replay_source_event_id ≡ orig.id
  pub metadata_id : lookup "replay_id" e.metadata ≡ some replay_id
  pub metadata_original : lookup "replay_source_event_id" e.metadata ≡ some orig.id
  pub metadata_reason : lookup "replay_reason" e.metadata ≡ some reason
  pub metadata_marked : lookup "is_replay" e.metadata ≡ some "true"
  pub metadata_kept :
      (k : String)
      → k ≢ "replay_id"
      → k ≢ "replay_source_event_id"
      → k ≢ "replay_reason"
      → k ≢ "is_replay"
      → lookup k e.metadata ≡ lookup k orig.metadata

pub replay_event-IsReplayOf :
    (id : String) (occurred_at : Time) (replay_id : String) (started : Time) (reason : String)
    (orig : Event) (v : ℤ)
    → IsReplayOf replay_id started reason orig
        (set_version (replay_event id occurred_at replay_id started reason orig) v)
unfolding replay_event
replay_event-IsReplayOf id occurred_at replay_id started reason orig v = record {
  stream = refl;
  kind = refl;
  origin = refl;
  tenant = refl;
  schema = refl;
  correlated = refl;
  caused = refl;
  acted = refl;
  traced = refl;
  release = refl;
  body = refl;
  marked = refl;
  batch = refl;
  at = refl;
  why = refl;
  original = refl;
  metadata_id = rw lookup-mark_metadata;
  metadata_original = rw lookup-mark_metadata;
  metadata_reason = rw lookup-mark_metadata;
  metadata_marked = rw lookup-mark_metadata;
  metadata_kept = λ k a b c d. rw lookup-mark_metadata (
      ground (
        arith,
        eq_iff "replay_reason" k,
        eq_iff "replay_source_event_id" k,
        eq_iff "replay_id" k,
        eq_iff "is_replay" k,
      ));
}
