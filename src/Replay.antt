-- ===== src/Replay.antt =====
-- internal/application/replay/service.go, the read-only `Service`. The `ReplayEngine` is in the
-- module below. Log lines are not modelled.
pub mod Engine
pub mod Metadata
pub mod Laws
pub mod Outcome
pub mod Execute
pub mod Contiguous
pub mod Suffix
pub mod Complete
pub mod Shared
use nocturne_atlas_event_str.Prelude.{
  String, Option, none, some, List, [], ◌∷◌, ◌==◌, if◌then◌else◌,
}
use nocturne_atlas_event_str.Prelude.Int.{ℤ, pos, ltb_ℤ, eqb_ℤ, int64_add}
use nocturne_atlas_event_str.Exec.{
  Error, text, version_gap, Result, ok, err, Exec, lift, raise_if, or_wrap, ◌>>=◌, ◌>>◌, pure,
}
use nocturne_atlas_event_str.Domain.{
  Event, Identity, Context, identity_from_context, tenant_of, Store, required_identity,
}

pub record Command : Type 0 where
  pub stream_id : String
  pub from_version : ℤ

-- The loop of `validateContiguous`, from the event before the rest on. The versions are `int64`s.
unfoldable pub validate_after : Event → List Event → Result (Unit {0})
validate_after prev [] = ok tt
validate_after prev (curr ∷ rest) =
    if eqb_ℤ curr.version (int64_add prev.version (pos 1))
    then validate_after curr rest
    else err (version_gap curr.stream_id (int64_add prev.version (pos 1)) curr.version prev.version)

-- `validateContiguous`
unfoldable pub validate_contiguous : List Event → Result (Unit {0})
validate_contiguous [] = ok tt
validate_contiguous (first ∷ rest) = validate_after first rest

module _ {S : Type 0} (store : Store S) where
  -- `Replay`
  unfoldable pub replay : Context → Command → Exec S (List Event)
  replay ctx cmd = do
    identity ← required_identity (tenant_of (identity_from_context ctx))
    raise_if (cmd.stream_id == "") (text "stream_id is required")
    raise_if (ltb_ℤ cmd.from_version (pos 0)) (text "from_version must be >= 0")
    events ←
        or_wrap "read events from store" (store.get_from_version ctx cmd.stream_id cmd.from_version)
    lift (validate_contiguous events)
    pure events
