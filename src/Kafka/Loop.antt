-- ===== src/Kafka/Loop.antt =====
-- The consumer loop (internal/infrastructure/kafka/consumer.go) loses no event.
use Prim.Native.String
use nocturne_atlas_event_str.Prelude.{
  ℕ, String, ◌≡◌, refl, ap, ◌∙◌, Option, none, some, List, [], ◌∷◌, take, suc,
}
use nocturne_atlas_event_str.Exec.{wrap, Result, ok, err, Exec, or_wrap}
use nocturne_atlas_event_str.Exec.Rules.{after, after_wrap, after_ok, or_wrap_ok}
use nocturne_atlas_event_str.Domain.{Time, Event, Context, Indexer}
use nocturne_atlas_event_str.Consume.{DlqMessage, DlqPublisher, handle}
use nocturne_atlas_event_str.Kafka.Producer.{Message}
use nocturne_atlas_event_str.Kafka.Consumer.{
  Fetch, message, failed, message_context, handled, process, run,
}
use nocturne_atlas_event_str.Kafka.Delivery.{
  Adds, Sinks, IsSettled, SettledAs, SettledAs-Later, Later, All-Later, handle_lem, handle_accepts,
  Handled,
}

-- The messages among the fetches, pushed onto a log in order.
unfoldable pub push_all : List Fetch → List Message → List Message
push_all [] log = log
push_all (message m ∷ fetches) log = push_all fetches (m ∷ log)
push_all (failed _ ∷ fetches) log = push_all fetches log

module _ {S : Type 0} (now : S → Time × S) (indexer : Indexer S) (dlq : DlqPublisher S)
    (commit : Message → Exec S (Unit {0})) (unmarshal : String → Option Event)
    (indexed dead : S → List String) (committed : S → List Message)
    (sinks : Sinks now indexer dlq commit indexed dead committed)
    (dlq_works : (ctx : Context) (m : DlqMessage) (s : S) → (dlq.publish ctx m s).0 ≡ ok tt) where
  abbrev After : S → S → Type 0
  After s s' = Later now indexer dlq commit unmarshal indexed dead committed sinks dlq_works s s'

  abbrev Settled : S → Type 0
  Settled s = IsSettled now indexer dlq commit unmarshal indexed dead committed sinks dlq_works s

  abbrev As : S → Option Event → Type 0
  As s o = SettledAs now indexer dlq commit unmarshal indexed dead committed sinks dlq_works s o

  abbrev HandledIn : Event → S → S → Type 0
  HandledIn e s s' =
      Handled now indexer dlq commit unmarshal indexed dead committed sinks dlq_works e s s'

  unfoldable Processed : Message → S → Result (Unit {0}) → S → Type 0
  Processed m s r s' = (Settled s → Settled s') × Adds m (committed s) r (committed s')

  -- What a call of commit leaves behind, once the message's event is safe.
  settle :
      (m : Message) (s s1 s2 : S) (r : Result (Unit {0}))
      → After s s1
      → committed s1 ≡ committed s
      → As s1 (unmarshal m.value)
      → Adds m (committed s1) r (committed s2) × (indexed s2 ≡ indexed s1) × (dead s2 ≡ dead s1)
      → Processed m s r s2
  unfolding Processed
  settle m s s1 s2 (ok _) l c safe (add, i, d) =
      let l2 : After s s2 = record {
        indexed_grown = λ x h. rw i (l.indexed_grown x h);
        dead_grown = λ x h. rw d (l.dead_grown x h);
      } in
      let l12 : After s1 s2 = record {
        indexed_grown = λ x h. rw i h;
        dead_grown = λ x h. rw d h;
      } in
      let added : committed s2 ≡ m ∷ committed s = add ∙ ap (λ log. m ∷ log) c in
      (
        λ h. rw added (
          SettledAs-Later now indexer dlq commit unmarshal indexed dead committed sinks dlq_works s1
              s2 _ l12 safe,
          All-Later now indexer dlq commit unmarshal indexed dead committed sinks dlq_works s s2 _
              l2 h,
        ),
        added,
      )
  settle m s s1 s2 (err _) l c safe (add, i, d) =
      let l2 : After s s2 = record {
        indexed_grown = λ x h. rw i (l.indexed_grown x h);
        dead_grown = λ x h. rw d (l.dead_grown x h);
      } in
      (
        λ h. rw (add ∙ c) (
            All-Later now indexer dlq commit unmarshal indexed dead committed sinks dlq_works s s2 _
              l2 h),
        add ∙ c,
      )

  commit_lem :
      (t : String) (m : Message) (s s1 : S)
      → After s s1
      → committed s1 ≡ committed s
      → As s1 (unmarshal m.value)
      → let (r, s') = or_wrap t (commit m) s1 in Processed m s r s'
  commit_lem t m s s1 l c safe =
      after_wrap (Processed m s) t (commit m) s1
        (λ a s2 e. settle m s s1 s2 (ok a) l c safe (rw e at (sinks.commit_law m s1)))
        (λ x s2 e. settle m s s1 s2 (err (wrap t x)) l c safe (rw e at (sinks.commit_law m s1)))

  process_lem :
      (ctx : Context) (m : Message) (s : S)
      → let (r, s') = process commit unmarshal (handle now indexer dlq) ctx m s in
        Processed m s r s'
  unfolding process Handled
  process_lem ctx m s = go (unmarshal m.value) refl
    where
      go :
          (o : Option Event)
          → unmarshal m.value ≡ o
          → let (r, s') = handled commit unmarshal (handle now indexer dlq) ctx m o s in
            Processed m s r s'
      go none e =
          commit_lem "commit after skip" m s s
            (record { indexed_grown = λ x h. h; dead_grown = λ x h. h }) refl (rw e tt)
      go (some ev) e =
          let at_ctx = message_context ctx m.headers in
          let s1 = (handle now indexer dlq at_ctx ev s).1 in
          let h : HandledIn ev s s1 =
            handle_lem now indexer dlq commit unmarshal indexed dead committed sinks dlq_works
              at_ctx ev s in
          after_ok (Processed m s)
            (or_wrap (String.◌++◌ "handle event " ev.id) (handle now indexer dlq at_ctx ev))
            (λ _. or_wrap "commit message" (commit m)) s tt s1
            (or_wrap_ok (String.◌++◌ "handle event " ev.id) (handle now indexer dlq at_ctx ev) s
              (handle_accepts now indexer dlq at_ctx ev s))
            (commit_lem "commit message" m s s1 h.0 h.2 (rw e h.1))

  -- A run that ends without an error has committed its messages in order, a run that fails the
  -- first few of them.
  unfoldable pub Progress : List Fetch → List Message → Result (Unit {0}) → List Message → Type 0
  Progress fetches log (ok _) log' = log' ≡ push_all fetches log
  Progress fetches log (err _) log' = (k : ℕ) × (log' ≡ push_all (take k fetches) log)

  abbrev pub RunDone : List Fetch → S → Result (Unit {0}) → S → Type 0
  RunDone fetches s r s' =
      (Settled s → Settled s') × Progress fetches (committed s) r (committed s')

  run_step :
      (m : Message) (fetches : List Fetch) (s s1 s2 : S) (r : Result (Unit {0}))
      → (Settled s → Settled s1)
      → committed s1 ≡ m ∷ committed s
      → RunDone fetches s1 r s2
      → RunDone (message m ∷ fetches) s r s2
  unfolding Progress push_all
  run_step m fetches s s1 s2 (ok _) keep add (later, p) = (λ h. later (keep h), rw add at p)
  run_step m fetches s s1 s2 (err _) keep add (later, (k, p)) =
      (λ h. later (keep h), (suc k, rw add at p))

-- With a dead-letter queue that accepts what is sent to it, and an indexer that may fail at any
-- call, a run of the consumer keeps the invariant that the event of every committed message is in
-- the index or in the dead-letter queue. A run that ends without an error has committed each of its
-- messages, malformed ones too, in order; a run that fails has committed an initial part of them.
pub run_done :
    {S : Type 0} (now : S → Time × S) (indexer : Indexer S) (dlq : DlqPublisher S)
    (commit : Message → Exec S (Unit {0})) (unmarshal : String → Option Event)
    (indexed dead : S → List String) (committed : S → List Message)
    (sinks : Sinks now indexer dlq commit indexed dead committed)
    (dlq_works : (ctx : Context) (m : DlqMessage) (s : S) → (dlq.publish ctx m s).0 ≡ ok tt)
    (ctx : Context) (fetches : List Fetch) (s : S)
    → let (r, s') = run commit unmarshal (handle now indexer dlq) ctx fetches s in
      RunDone now indexer dlq commit unmarshal indexed dead committed sinks dlq_works fetches s r s'
unfolding run Progress push_all Processed
run_done {S = S} now indexer dlq commit unmarshal indexed dead committed sinks dlq_works ctx [] s =
    (λ h. h, refl)
run_done {S = S} now indexer dlq commit unmarshal indexed dead committed sinks dlq_works ctx
      (failed e ∷ fetches) s =
    (λ h. h, (0, refl))
run_done {S = S} now indexer dlq commit unmarshal indexed dead committed sinks dlq_works ctx
      (message m ∷ fetches) s =
    after
      (RunDone now indexer dlq commit unmarshal indexed dead committed sinks dlq_works
        (message m ∷ fetches) s)
      (process commit unmarshal (handle now indexer dlq) ctx m)
      (λ _. run commit unmarshal (handle now indexer dlq) ctx fetches) s
      (λ a s1 e.
        let (keep, add) = proc (ok a) s1 e in
        run_step now indexer dlq commit unmarshal indexed dead committed sinks dlq_works m fetches s
          s1 _ _ keep add
          (run_done now indexer dlq commit unmarshal indexed dead committed sinks dlq_works ctx
            fetches s1))
      (λ x s1 e. let (keep, add) = proc (err x) s1 e in (keep, (0, add)))
  where
    proc :
        (r : Result (Unit {0})) (s1 : S)
        → process commit unmarshal (handle now indexer dlq) ctx m s ≡ (r, s1)
        → (Settled now indexer dlq commit unmarshal indexed dead committed sinks dlq_works s
            → Settled now indexer dlq commit unmarshal indexed dead committed sinks dlq_works s1)
          × Adds m (committed s) r (committed s1)
    proc r s1 e = rw e at (
        process_lem now indexer dlq commit unmarshal indexed dead committed sinks dlq_works ctx m s)
