-- ===== src/Kafka/Pipeline.antt =====
-- From the producer (internal/infrastructure/kafka/producer.go) to the consumer (consumer.go) and
-- its handler (internal/application/consume/service.go).
use Prim.Native.String
use nocturne_atlas_event_str.Prelude.{
  String, ◌≡◌, refl, ap, ◌∙◌, true, Option, none, some, List, [], ◌∷◌, ◌++◌, ◌==◌, eq_iff, map, All,
  select, arith, Bool-cases, inl, inr,
}
use nocturne_atlas_event_str.Exec.{Result, ok, Exec, or_wrap}
use nocturne_atlas_event_str.Exec.Rules.{bind_ok, or_wrap_ok}
use nocturne_atlas_event_str.Domain.{Time, Event, Context, Indexer}
use nocturne_atlas_event_str.Consume.{DlqMessage, DlqPublisher, handle}
use nocturne_atlas_event_str.Kafka.Routing.{TopicResolver, resolve}
use nocturne_atlas_event_str.Kafka.Producer.{Message, message_of}
use nocturne_atlas_event_str.Kafka.Consumer.{message, message_context, handled, process, run}
use nocturne_atlas_event_str.Kafka.Delivery.{Sinks, IsSafe, IsSettled, SettledAs, handle_accepts}
use nocturne_atlas_event_str.Kafka.Loop.{push_all, run_done, Progress}
use nocturne_atlas_event_str.Kafka.Publishing.{
  Appends, Carry, publish_each, publish_each_lem, publish_each-All,
}

-- The consumer accepts every message when its commits do.
module _ {S : Type 0} (now : S → Time × S) (indexer : Indexer S) (dlq : DlqPublisher S)
    (commit : Message → Exec S (Unit {0})) (unmarshal : String → Option Event)
    (commit_works : (m : Message) (s : S) → (commit m s).0 ≡ ok tt) where
  process_ok :
      (ctx : Context) (m : Message) (s : S)
      → (s' : S) × (process commit unmarshal (handle now indexer dlq) ctx m s ≡ (ok tt, s'))
  unfolding process
  process_ok ctx m s = go (unmarshal m.value)
    where
      go :
          (o : Option Event)
          → (s' : S) × (handled commit unmarshal (handle now indexer dlq) ctx m o s ≡ (ok tt, s'))
      go none = (_, or_wrap_ok "commit after skip" (commit m) s (commit_works m s))
      go (some e) =
          let at_ctx = message_context ctx m.headers in
          let s1 = (handle now indexer dlq at_ctx e s).1 in
          (
            _,
            bind_ok (or_wrap (String.◌++◌ "handle event " e.id) (handle now indexer dlq at_ctx e))
                  (λ _. or_wrap "commit message" (commit m)) s
                  (or_wrap_ok _ (handle now indexer dlq at_ctx e) s
                    (handle_accepts now indexer dlq at_ctx e s))
                ∙ or_wrap_ok "commit message" (commit m) s1 (commit_works m s1),
          )

  run_ok :
      (ctx : Context) (ms : List Message) (s : S)
      → (run commit unmarshal (handle now indexer dlq) ctx (map message ms) s).0 ≡ ok tt
  unfolding run
  run_ok ctx [] s = refl
  run_ok ctx (m ∷ ms) s =
      let (s1, e) = process_ok ctx m s in
      ap (λ (x : Result (Unit {0}) × S). x.0)
        (bind_ok (process commit unmarshal (handle now indexer dlq) ctx m)
          (λ _. run commit unmarshal (handle now indexer dlq) ctx (map message ms)) s e)
      ∙ run_ok ctx ms s1

-- What holds of all that is pushed holds of each message, and of the log below.
pushed :
    (P : Message → Type 0) (ms log : List Message)
    → All P (push_all (map message ms) log)
    → All P ms × All P log
unfolding push_all
pushed P [] log h = (tt, h)
pushed P (m ∷ ms) log h = let (rest, (p, below)) = pushed P ms (m ∷ log) h in ((p, rest), below)

module _ {S : Type 0} (now : S → Time × S) (indexer : Indexer S) (dlq : DlqPublisher S)
    (commit : Message → Exec S (Unit {0})) (marshal : Event → String)
    (unmarshal : String → Option Event) (indexed dead : S → List String)
    (committed : S → List Message) (sinks : Sinks now indexer dlq commit indexed dead committed)
    (dlq_works : (ctx : Context) (m : DlqMessage) (s : S) → (dlq.publish ctx m s).0 ≡ ok tt)
    (resolver : TopicResolver) (topic : String) where
  abbrev Safe : S → Event → Type 0
  Safe s e = IsSafe now indexer dlq commit unmarshal indexed dead committed sinks dlq_works s e

  abbrev As : S → Option Event → Type 0
  As s o = SettledAs now indexer dlq commit unmarshal indexed dead committed sinks dlq_works s o

  -- The event is safe if it is routed to the topic.
  abbrev pub Arrived : S → Event → Type 0
  Arrived s e = resolve resolver e ≡ topic → Safe s e

  one_safe :
      (s : S) (e : Event) (m : Message) (ms : List Message) (span_id : String)
      → m ≡ message_of marshal resolver span_id e
      → unmarshal (marshal e) ≡ some e
      → All (λ m. As s (unmarshal m.value)) (select (λ m. m.topic == topic) (m ∷ ms))
      → Arrived s e × All (λ m. As s (unmarshal m.value)) (select (λ m. m.topic == topic) ms)
  unfolding message_of
  one_safe s e m ms span_id same json settled = elim (Bool-cases (m.topic == topic)) [
    | inl here ↦
        let (first, rest) = rw here at settled in
        let value : m.value ≡ marshal e = ap (λ (m : Message). m.value) same in
        (λ routed. rw (value, json) at first, rest)
    | inr there ↦
        let rest = rw there at settled in
        let at_topic : m.topic ≡ resolve resolver e = ap (λ (m : Message). m.topic) same in
        (
          λ routed. absurd (
              let k : (m.topic == topic) ≡ true = (eq_iff m.topic topic).1 (at_topic ∙ routed) in
              ground arith),
          rest,
        )
  ]

  arrive :
      (s : S) (sent : List Event) (ms : List Message)
      → All (λ e. unmarshal (marshal e) ≡ some e) sent
      → Carry marshal resolver sent ms
      → All (λ m. As s (unmarshal m.value)) (select (λ m. m.topic == topic) ms)
      → All (Arrived s) sent
  arrive s [] [] json carries settled = tt
  arrive s (e ∷ es) (m ∷ ms) (j, json) ((span_id, same), carries) settled =
      let (safe, rest) = one_safe s e m ms span_id same j settled in
      (safe, arrive s es ms json carries rest)
  arrive s [] (m ∷ ms) json carries settled = absurd carries
  arrive s (e ∷ es) [] json carries settled = absurd carries

  settled_lem :
      (ctx : Context) (s : S) (sent : List Event) (ms : List Message)
      → ((m : Message) (s : S) → (commit m s).0 ≡ ok tt)
      → IsSettled now indexer dlq commit unmarshal indexed dead committed sinks dlq_works s
      → All (λ e. unmarshal (marshal e) ≡ some e) sent
      → Carry marshal resolver sent ms
      → let (r, s') =
          run commit unmarshal
            (handle now indexer dlq)
            ctx
            (map message (select (λ m. m.topic == topic) ms))
            s in
        (r ≡ ok tt) × All (Arrived s') sent
  unfolding Progress
  settled_lem ctx s sent ms commit_works settled json carries =
      let mine = select (λ m. m.topic == topic) ms in
      let ran = run_ok now indexer dlq commit unmarshal commit_works ctx mine s in
      let s' = (run commit unmarshal (handle now indexer dlq) ctx (map message mine) s).1 in
      let done =
        run_done now indexer dlq commit unmarshal indexed dead committed sinks dlq_works ctx
          (map message mine) s in
      let (keeps, progress) = rw ran at done in
      let held = rw progress at (keeps settled) in
      (ran, arrive s' sent ms json carries (pushed (λ m. As s' (unmarshal m.value)) mine _ held).0)

-- Events are published one after the other, with any of the writes failing, and the consumer then
-- runs over the messages of its topic that were added to the log. If its commits and its dead-letter
-- queue work, and the events are decoded to what was encoded: then the run succeeds, and each event
-- whose publishing was accepted and that is routed to the consumer's topic has its document in the
-- index or is in the dead-letter queue, whatever calls of the index fail.
pub published_arrives :
    {T S : Type 0} (write : Message → Exec T (Unit {0})) (new_span_id : T → String × T)
    (log : T → List Message)
    (write_law : (m : Message) (t : T) → Appends m (log t) (write m t).0 (log (write m t).1))
    (span_law : (t : T) → log (new_span_id t).1 ≡ log t) (now : S → Time × S) (indexer : Indexer S)
    (dlq : DlqPublisher S) (commit : Message → Exec S (Unit {0})) (marshal : Event → String)
    (unmarshal : String → Option Event) (indexed dead : S → List String)
    (committed : S → List Message) (sinks : Sinks now indexer dlq commit indexed dead committed)
    (dlq_works : (ctx : Context) (m : DlqMessage) (s : S) → (dlq.publish ctx m s).0 ≡ ok tt)
    (commit_works : (m : Message) (s : S) → (commit m s).0 ≡ ok tt) (resolver : TopicResolver)
    (topic : String) (ctx : Context) (es : List Event) (t : T) (s : S)
    → All (λ e. unmarshal (marshal e) ≡ some e) es
    → IsSettled now indexer dlq commit unmarshal indexed dead committed sinks dlq_works s
    → let (sent, t') = publish_each write new_span_id marshal resolver es t in
      (ms : List Message) × (log t' ≡ log t ++ ms)
      × (let (r, s') =
            run commit unmarshal
              (handle now indexer dlq)
              ctx
              (map message (select (λ m. m.topic == topic) ms))
              s in
          (r ≡ ok tt)
          × All
              (Arrived now indexer dlq commit marshal unmarshal indexed dead committed sinks
                dlq_works resolver topic s')
              sent)
published_arrives write new_span_id log write_law span_law now indexer dlq commit marshal unmarshal
      indexed dead committed sinks dlq_works commit_works resolver topic ctx es t s json settled =
    let (ms, more, carries) =
      publish_each_lem write new_span_id marshal resolver log write_law span_law es t in
    (
      ms,
      more,
      settled_lem now indexer dlq commit marshal unmarshal indexed dead committed sinks dlq_works
          resolver topic ctx s _ ms commit_works settled
          (publish_each-All write new_span_id marshal resolver log write_law span_law _ es t json)
          carries,
    )
