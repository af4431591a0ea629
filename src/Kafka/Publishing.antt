-- ===== src/Kafka/Publishing.antt =====
-- What a row of calls of `Publish` (internal/infrastructure/kafka/producer.go) leaves in the log of
-- the broker.
use mathlib.Core.List.{append_assoc, append-nil}
use nocturne_atlas_event_str.Prelude.{
  String, ◌≡◌, refl, sym, ap, ◌∙◌, List, [], ◌∷◌, ◌++◌, ◌==◌, All, Bool-cases, inl, inr,
}
use nocturne_atlas_event_str.Exec.{Result, ok, err, Exec, or_wrap}
use nocturne_atlas_event_str.Exec.Rules.{after_wrap}
use nocturne_atlas_event_str.Domain.{Event}
use nocturne_atlas_event_str.Kafka.Routing.{TopicResolver}
use nocturne_atlas_event_str.Kafka.Producer.{Message, message_of, publish}

-- The messages are those of the events, in their order, with any span IDs.
abbrev pub Carry : (Event → String) → TopicResolver → List Event → List Message → Type 0
Carry marshal resolver [] [] = Unit
Carry marshal resolver (e ∷ es) (m ∷ ms) =
    ((span_id : String) × (m ≡ message_of marshal resolver span_id e))
    × Carry marshal resolver es ms
Carry marshal resolver _ _ = ⊥

-- A write that succeeds has put the message at the end of the log, a failed one nothing.
abbrev pub Appends : Message → List Message → Result (Unit {0}) → List Message → Type 0
Appends m log (ok _) log' = log' ≡ log ++ m ∷ []
Appends m log (err _) log' = log' ≡ log

abbrev pub accepted : Event → Result (Unit {0}) → List Event → List Event
accepted e (ok _) es = e ∷ es
accepted e (err _) es = es

module _ {T : Type 0} (write : Message → Exec T (Unit {0})) (new_span_id : T → String × T)
    (marshal : Event → String) (resolver : TopicResolver) where
  -- Events are published one after the other; the answer is those that were accepted.
  unfoldable pub publish_each : List Event → T → List Event × T
  publish_each [] t = ([], t)
  publish_each (e ∷ es) t =
      let (r, t1) = publish write new_span_id marshal resolver e t in
      let (rest, t2) = publish_each es t1 in (accepted e r rest, t2)

module _ {T : Type 0} (write : Message → Exec T (Unit {0})) (new_span_id : T → String × T)
    (marshal : Event → String) (resolver : TopicResolver) (log : T → List Message)
    (write_law : (m : Message) (t : T) → Appends m (log t) (write m t).0 (log (write m t).1))
    (span_law : (t : T) → log (new_span_id t).1 ≡ log t) where
  abbrev each : List Event → T → List Event × T
  each = publish_each write new_span_id marshal resolver

  written_lem :
      (m : Message) (t t1 : T)
      → log t1 ≡ log t
      → let (r, t') = or_wrap "write to kafka" (write m) t1 in Appends m (log t) r (log t')
  written_lem m t t1 same =
      after_wrap (λ r t'. Appends m (log t) r (log t')) "write to kafka" (write m) t1
        (λ a t2 e. rw (e, same) at (write_law m t1)) (λ x t2 e. rw (e, same) at (write_law m t1))

  publish_lem :
      (e : Event) (t : T)
      → let (r, t') = publish write new_span_id marshal resolver e t in
        (span_id : String) × Appends (message_of marshal resolver span_id e) (log t) r (log t')
  unfolding publish
  publish_lem e t = elim (Bool-cases (e.trace_id == "")) [
    | inl untraced ↦ rw untraced ("", written_lem _ t t refl)
    | inr traced ↦
        let (span_id, t1) = new_span_id t in rw traced (span_id, written_lem _ t t1 (span_law t))
  ]

  pub publish_each_lem :
      (es : List Event) (t : T)
      → let (sent, t') = each es t in
        (ms : List Message) × (log t' ≡ log t ++ ms) × Carry marshal resolver sent ms
  unfolding publish_each
  publish_each_lem [] t = ([], sym (append-nil (log t)), tt)
  publish_each_lem (e ∷ es) t =
      let (span_id, added) = publish_lem e t in
      let (r, t1) = publish write new_span_id marshal resolver e t in
      let (ms, more, carries) = publish_each_lem es t1 in
      joined e t span_id r t1 _ _ ms added more carries
    where
      joined :
          (e : Event) (t : T) (span_id : String) (r : Result (Unit {0})) (t1 t2 : T)
          (sent : List Event) (ms : List Message)
          → Appends (message_of marshal resolver span_id e) (log t) r (log t1)
          → log t2 ≡ log t1 ++ ms
          → Carry marshal resolver sent ms
          → (all : List Message) × (log t2 ≡ log t ++ all)
            × Carry marshal resolver (accepted e r sent) all
      joined e t span_id (ok _) t1 t2 sent ms added more carries =
          let m = message_of marshal resolver span_id e in
          (
            m ∷ ms,
            more ∙ ap (λ l. l ++ ms) added ∙ append_assoc (log t) (m ∷ []) ms,
            ((span_id, refl), carries),
          )
      joined e t span_id (err x) t1 t2 sent ms added more carries =
          (ms, more ∙ ap (λ l. l ++ ms) added, carries)

  pub publish_each-All :
      (P : Event → Type 0) (es : List Event) (t : T) → All P es → All P (each es t).0
  unfolding publish_each
  publish_each-All P [] t h = tt
  publish_each-All P (e ∷ es) t (p, h) =
      let (r, t1) = publish write new_span_id marshal resolver e t in
      kept e r _ p (publish_each-All P es t1 h)
    where
      kept :
          (e : Event) (r : Result (Unit {0})) (rest : List Event)
          → P e
          → All P rest
          → All P (accepted e r rest)
      kept e (ok _) rest p h = (p, h)
      kept e (err _) rest p h = h
