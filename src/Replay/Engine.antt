-- ===== src/Replay/Engine.antt =====
-- internal/application/replay/service.go, the `ReplayEngine`. Log lines are not modelled.
use Prim.Native.String
use nocturne_atlas_event_str.Prelude.{
  ℕ, ◌+◌, String, Bool, true, false, not, some, List, [], ◌∷◌, ◌&&◌, ◌==◌, length, if◌then◌else◌,
}
use nocturne_atlas_event_str.Prelude.Int.{ℤ, pos, leb_ℤ}
use nocturne_atlas_event_str.Prelude.Dict.{insert}
use nocturne_atlas_event_str.Exec.{
  text, Result, ok, err, Exec, raise_if, or_wrap, attempt, always, ◌>>=◌, ◌>>◌, pure,
}
use nocturne_atlas_event_str.Domain.{
  Time, Metadata, Event, new_event, ReplayFilter, Identity, Context, identity_from_context,
  tenant_of, Runtime, Store, Publisher, required_identity,
}

pub record ReplayOptions : Type 0 where
  pub dry_run : Bool
  pub replay_reason : String
  pub safety_limit : ℤ

pub record ReplayRequest : Type 0 where
  pub filter : ReplayFilter
  pub options : ReplayOptions

pub record ReplayResult : Type 0 where
  pub replay_id : String
  pub dry_run : Bool
  pub matched_count : ℕ
  pub replayed_count : ℕ
  pub events : List Event

abbrev pub default_replay_safety_limit : ℤ
default_replay_safety_limit = pos 1000

-- `cloneMetadata`; Go visits a map in no fixed order, here the last entry comes first.
unfoldable pub clone_metadata : Metadata → Metadata
clone_metadata [] = []
clone_metadata ((k, v) ∷ m) = insert k v (clone_metadata m)

-- The metadata of a replay event.
unfoldable pub mark_metadata : String → String → Event → Metadata
mark_metadata replay_id reason orig = insert "replay_reason" reason (
    insert "replay_source_event_id" orig.id
      (insert "replay_id" replay_id (insert "is_replay" "true" (clone_metadata orig.metadata))))

-- The event that the loop of `Execute` builds from an original.
unfoldable pub replay_event : String → Time → String → Time → String → Event → Event
unfolding new_event
replay_event id occurred_at replay_id started reason orig =
    let e =
      new_event id occurred_at orig.stream_id orig.type orig.source orig.correlation_id orig.payload
        (some (clone_metadata orig.metadata)) in
    record e {
      tenant_id = orig.tenant_id;
      event_version = orig.event_version;
      causation_id = orig.causation_id;
      actor_id = orig.actor_id;
      trace_id = orig.trace_id;
      source_version = orig.source_version;
      is_replay = true;
      replay_id = replay_id;
      replayed_at = some started;
      replay_reason = reason;
      replay_source_event_id = orig.id;
      metadata = mark_metadata replay_id reason orig;
    }

-- `if limit <= 0 { limit = defaultReplaySafetyLimit }`
abbrev pub effective_limit : ℤ → ℤ
effective_limit n = if leb_ℤ n (pos 0) then default_replay_safety_limit else n

abbrev pub no_ids : List String → Bool
no_ids [] = true
no_ids (x ∷ xs) = false

-- The tests of `Execute`, in its order.
abbrev pub lacks_reason : ReplayRequest → Bool
lacks_reason req = not req.options.dry_run && req.options.replay_reason == ""

abbrev pub lacks_scope : ReplayRequest → Bool
lacks_scope req = req.filter.tenant_id == "" && no_ids req.filter.event_ids

abbrev pub is_foreign : Identity → ReplayRequest → Bool
is_foreign identity req =
    not (req.filter.tenant_id == "") && not (req.filter.tenant_id == identity.tenant_id)

-- The filter with the caller's tenant, when it names none.
abbrev pub scope : Identity → ReplayFilter → ReplayFilter
scope identity f = if f.tenant_id == "" then record f { tenant_id = identity.tenant_id } else f

abbrev pub failures : Result (Unit {0}) → ℕ
failures (ok _) = 0
failures (err _) = 1

module _ {S : Type 0} (rt : Runtime S) (store : Store S) (publisher : Publisher S) where
  -- One round of the loop over the matched events.
  unfoldable pub append_one : Context → String → Time → String → Event → Exec S Event
  append_one ctx replay_id started reason orig = do
    id ← always rt.new_uuid
    occurred_at ← always rt.now
    or_wrap (String.◌++◌ "replay: append event " orig.id)
        (store.append ctx (replay_event id occurred_at replay_id started reason orig))

  -- The loop over the matched events; it stops at the first append that fails.
  unfoldable pub append_all : Context → String → Time → String → List Event → Exec S (List Event)
  append_all ctx replay_id started reason [] = pure []
  append_all ctx replay_id started reason (orig ∷ matched) = do
    e ← append_one ctx replay_id started reason orig
    replayed ← append_all ctx replay_id started reason matched
    pure (e ∷ replayed)

  -- The loop that publishes, which counts its failures and goes on.
  unfoldable pub publish_all : Context → List Event → Exec S ℕ
  publish_all ctx [] = pure 0
  publish_all ctx (e ∷ replayed) = do
    r ← attempt (publisher.publish ctx e)
    n ← publish_all ctx replayed
    pure (failures r + n)

  -- An active replay of the matched events.
  unfoldable pub replay_matched : Context → String → List Event → Exec S ReplayResult
  replay_matched ctx reason matched = do
    replay_id ← always rt.new_uuid
    started ← always rt.now
    replayed ← append_all ctx replay_id started reason matched
    publish_failures ← publish_all ctx replayed
    pure (record {
      replay_id = replay_id;
      dry_run = false;
      matched_count = length matched;
      replayed_count = length replayed;
      events = replayed;
    })

  -- A dry run returns the matched events; an active run replays them.
  unfoldable pub conclude : Context → ReplayOptions → List Event → Exec S ReplayResult
  conclude ctx options matched =
      if options.dry_run
      then pure (record {
        replay_id = "";
        dry_run = true;
        matched_count = length matched;
        replayed_count = 0;
        events = matched;
      })
      else replay_matched ctx options.replay_reason matched

  -- `Execute` from the query on.
  unfoldable pub run_scoped : Context → ReplayFilter → ReplayOptions → Exec S ReplayResult
  run_scoped ctx f options = do
    matched ←
        or_wrap "query events for replay"
          (store.query_for_replay ctx f (effective_limit options.safety_limit))
    conclude ctx options matched

  -- The last check of `Execute`, and the run.
  unfoldable pub check_tenant : Identity → Context → ReplayRequest → Exec S ReplayResult
  check_tenant identity ctx req = do
    raise_if (is_foreign identity req)
        (text "replay filter tenant_id does not match authenticated tenant")
    run_scoped ctx (scope identity req.filter) req.options

  unfoldable pub check_scope : Identity → Context → ReplayRequest → Exec S ReplayResult
  check_scope identity ctx req = do
    raise_if (lacks_scope req) (text "replay filter must specify tenant_id or event_ids")
    check_tenant identity ctx req

  unfoldable pub check_reason : Identity → Context → ReplayRequest → Exec S ReplayResult
  check_reason identity ctx req = do
    raise_if (lacks_reason req) (text "replay_reason is required for active replays")
    check_scope identity ctx req

  -- `Execute`
  unfoldable pub execute : Context → ReplayRequest → Exec S ReplayResult
  execute ctx req = do
    identity ← required_identity (tenant_of (identity_from_context ctx))
    check_reason identity ctx req
