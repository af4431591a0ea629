-- ===== src/Kafka/Delivery.antt =====
-- At-least-once delivery: the consumer loop (internal/infrastructure/kafka/consumer.go) with the
-- handler of internal/application/consume/service.go.
use nocturne_atlas_event_str.Prelude.{
  String, ◌≡◌, ap, ◌∙◌, true, Option, none, some, List, [], ◌∷◌, ◌||◌, eq_iff, All, arith,
}
use nocturne_atlas_event_str.Exec.{Result, ok, err, Exec}
use nocturne_atlas_event_str.Domain.{Time, Event, Context, coalesce, Indexer}
use nocturne_atlas_event_str.Consume
use nocturne_atlas_event_str.Consume.{DlqMessage, DlqPublisher, handle, route_to_dlq}
use nocturne_atlas_event_str.Kafka.Routing.{contains}
use nocturne_atlas_event_str.Kafka.Producer.{Message}

-- A call has added the entry, or has failed and added nothing.
abbrev pub Adds : {A : Type 0} → A → List A → Result (Unit {0}) → List A → Type 0
Adds x log (ok _) log' = log' ≡ x ∷ log
Adds x log (err _) log' = log' ≡ log

-- What stands behind the consumer: the UUIDs in the index and in the dead-letter queue, and the
-- committed messages. Each call adds to its own log and leaves the others alone.
pub record Sinks {S : Type 0} (now : S → Time × S) (indexer : Indexer S) (dlq : DlqPublisher S)
    (commit : Message → Exec S (Unit {0})) (indexed dead : S → List String)
    (committed : S → List Message) : Type 0 where
  pub index_law :
      (ctx : Context) (e : Event) (s : S)
      → Adds e.id (indexed s) (indexer.index ctx e s).0 (indexed (indexer.index ctx e s).1)
        × (dead (indexer.index ctx e s).1 ≡ dead s)
        × (committed (indexer.index ctx e s).1 ≡ committed s)
  pub dlq_law :
      (ctx : Context) (m : DlqMessage) (s : S)
      → Adds m.event.id (dead s) (dlq.publish ctx m s).0 (dead (dlq.publish ctx m s).1)
        × (indexed (dlq.publish ctx m s).1 ≡ indexed s)
        × (committed (dlq.publish ctx m s).1 ≡ committed s)
  pub commit_law :
      (m : Message) (s : S)
      → Adds m (committed s) (commit m s).0 (committed (commit m s).1)
        × (indexed (commit m s).1 ≡ indexed s)
        × (dead (commit m s).1 ≡ dead s)
  pub now_law :
      (s : S)
      → (indexed (now s).1 ≡ indexed s)
        × (dead (now s).1 ≡ dead s)
        × (committed (now s).1 ≡ committed s)

-- An entry that was there is still there.
abbrev pub Grown : List String → List String → Type 0
Grown log log' = (i : String) → contains i log ≡ true → contains i log' ≡ true

Adds-Grown :
    (x : String) (log : List String) (r : Result (Unit {0})) (log' : List String)
    → Adds x log r log'
    → Grown log log'
Adds-Grown x log (ok _) log' e i h = rw (e, h) (ground arith)
Adds-Grown x log (err _) log' e i h = rw e h

-- The handler accepts every event, whatever the indexer and the dead-letter queue do, so the loop
-- always goes on to commit.
pub handle_accepts :
    {S : Type 0} (now : S → Time × S) (indexer : Indexer S) (dlq : DlqPublisher S) (ctx : Context)
    (e : Event) (s : S)
    → (handle now indexer dlq ctx e s).0 ≡ ok tt
unfolding handle route_to_dlq
handle_accepts now indexer dlq ctx e s = ground arith

module _ {S : Type 0} (now : S → Time × S) (indexer : Indexer S) (dlq : DlqPublisher S)
    (commit : Message → Exec S (Unit {0})) (unmarshal : String → Option Event)
    (indexed dead : S → List String) (committed : S → List Message)
    (sinks : Sinks now indexer dlq commit indexed dead committed)
    (dlq_works : (ctx : Context) (m : DlqMessage) (s : S) → (dlq.publish ctx m s).0 ≡ ok tt) where
  -- The event's document is in the index, or the event is in the dead-letter queue.
  abbrev pub IsSafe : S → Event → Type 0
  IsSafe s e = (contains e.id (indexed s) || contains e.id (dead s)) ≡ true

  -- A malformed message has no event to lose.
  abbrev pub SettledAs : S → Option Event → Type 0
  SettledAs s none = Unit
  SettledAs s (some e) = IsSafe s e

  abbrev pub IsSettled : S → Type 0
  IsSettled s = All (λ msg. SettledAs s (unmarshal msg.value)) (committed s)

  pub record Later (s s' : S) : Type 0 where
    pub indexed_grown : Grown (indexed s) (indexed s')
    pub dead_grown : Grown (dead s) (dead s')

  pub SettledAs-Later : (s s' : S) (o : Option Event) → Later s s' → SettledAs s o → SettledAs s' o
  SettledAs-Later s s' none l h = tt
  SettledAs-Later s s' (some e) l h = ground (arith, l.indexed_grown e.id, l.dead_grown e.id)

  pub All-Later :
      (s s' : S) (msgs : List Message)
      → Later s s'
      → All (λ msg. SettledAs s (unmarshal msg.value)) msgs
      → All (λ msg. SettledAs s' (unmarshal msg.value)) msgs
  All-Later s s' [] l h = tt
  All-Later s s' (m ∷ msgs) l (p, h) =
      (SettledAs-Later s s' (unmarshal m.value) l p, All-Later s s' msgs l h)

  -- The handler ends with its event safe and nothing committed.
  unfoldable pub Handled : Event → S → S → Type 0
  Handled e s s' = Later s s' × IsSafe s' e × (committed s' ≡ committed s)

  -- A failed call of the indexer, the clock, then a publish to the dead-letter queue.
  to_dead :
      (e : Event) (s s1 s2 s3 : S)
      → indexed s1 ≡ indexed s
      → dead s1 ≡ dead s
      → committed s1 ≡ committed s
      → (indexed s2 ≡ indexed s1) × (dead s2 ≡ dead s1) × (committed s2 ≡ committed s1)
      → (dead s3 ≡ e.id ∷ dead s2) × (indexed s3 ≡ indexed s2) × (committed s3 ≡ committed s2)
      → Handled e s s3
  unfolding Handled
  to_dead e s s1 s2 s3 i d c (i2, d2, c2) (d3, i3, c3) =
      let grown : indexed s3 ≡ indexed s = i3 ∙ i2 ∙ i in
      let added : dead s3 ≡ e.id ∷ dead s = d3 ∙ ap (λ log. e.id ∷ log) (d2 ∙ d) in
      (
        record {
          indexed_grown = λ x h. rw grown h;
          dead_grown = Adds-Grown e.id _ (ok tt) _ added;
        },
        rw added (ground (arith, eq_iff e.id e.id)),
        c3 ∙ c2 ∙ c,
      )

  pub handle_lem :
      (ctx : Context) (e : Event) (s : S) → Handled e s (handle now indexer dlq ctx e s).1
  unfolding handle route_to_dlq Handled
  handle_lem ctx e s =
      go (indexer.index ctx e s).0 (indexer.index ctx e s).1 (sinks.index_law ctx e s)
    where
      go :
          (r : Result (Unit {0})) (s1 : S)
          → Adds e.id (indexed s) r (indexed s1) × (dead s1 ≡ dead s) × (committed s1 ≡ committed s)
          → Handled e s (Consume.after_index now indexer dlq ctx e r s1).1
      go (ok _) s1 (add, d, c) = (
        record { indexed_grown = Adds-Grown e.id _ (ok tt) _ add; dead_grown = λ i h. rw d h },
        rw add (ground (arith, eq_iff e.id e.id)),
        c,
      )
      go (err x) s1 (add, d, c) =
          let m : DlqMessage = record {
            event = e;
            reason = x;
            failed_at = (now s1).0;
            correlation_id = coalesce ctx e.correlation_id;
          } in
          to_dead e s s1 (now s1).1 (dlq.publish ctx m (now s1).1).1 add d c (sinks.now_law s1)
            (rw (dlq_works ctx m (now s1).1) at (sinks.dlq_law ctx m (now s1).1))
