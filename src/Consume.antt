-- ===== src/Consume.antt =====
-- internal/application/consume/service.go: an event is indexed, or goes to the dead-letter queue.
-- Log lines are not modelled.
use nocturne_atlas_event_str.Prelude.{String}
use nocturne_atlas_event_str.Exec.{Error, Result, ok, err, Exec, attempt, always, ◌>>=◌, pure}
use nocturne_atlas_event_str.Domain.{Time, Event, Context, coalesce, Indexer}

-- The reason is the error whose text is sent.
pub record DlqMessage : Type 0 where
  pub event : Event
  pub reason : Error
  pub failed_at : Time
  pub correlation_id : String

-- `DLQPublisher`
pub record DlqPublisher (S : Type 0) : Type 0 where
  pub publish : Context → DlqMessage → Exec S (Unit {0})

module _ {S : Type 0} (now : S → Time × S) (indexer : Indexer S) (dlq : DlqPublisher S) where
  -- `routeToDLQ`; a publish that fails is only logged.
  unfoldable pub route_to_dlq : Context → Event → Error → Exec S (Unit {0})
  route_to_dlq ctx e index_err = do
    failed_at ← always now
    sent ← attempt (
        dlq.publish ctx (record {
          event = e;
          reason = index_err;
          failed_at = failed_at;
          correlation_id = coalesce ctx e.correlation_id;
        }))
    pure tt

  abbrev pub after_index : Context → Event → Result (Unit {0}) → Exec S (Unit {0})
  after_index ctx e (ok _) = pure tt
  after_index ctx e (err x) = route_to_dlq ctx e x

  -- `handle`
  unfoldable pub handle : Context → Event → Exec S (Unit {0})
  handle ctx e = do r ← attempt (indexer.index ctx e); after_index ctx e r
