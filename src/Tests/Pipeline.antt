-- ===== src/Tests/Pipeline.antt =====
-- The theorem on the way from the producer to the index at a concrete input.
use nocturne_atlas_event_str.Prelude.{
  String, ◌≡◌, refl, List, [], ◌∷◌, ◌++◌, ◌==◌, All, map, select, Bool-cases, inl, inr,
  if◌then◌else◌,
}
use nocturne_atlas_event_str.Exec.{Error, ok, err, Exec}
use nocturne_atlas_event_str.Domain.{Event, background}
use nocturne_atlas_event_str.Consume.{handle}
use nocturne_atlas_event_str.Kafka.Routing.{TopicResolver, prefix}
use nocturne_atlas_event_str.Kafka.Producer.{Message}
use nocturne_atlas_event_str.Kafka.Consumer.{message, run}
use nocturne_atlas_event_str.Kafka.Publishing.{Appends, publish_each}
use nocturne_atlas_event_str.Kafka.Pipeline.{Arrived, published_arrives}
use nocturne_atlas_event_str.Tests.World.{created, paid}
use nocturne_atlas_event_str.Tests.Streaming.{
  clock, indexer, dlq, commit, decode, sunk-Sinks, start,
}

-- The broker refuses messages of the topic "events".
abbrev append_message : Message → Exec (List Message) (Unit {0})
append_message m log =
    if m.topic == "events" then (err (Error.text "broker down"), log) else (ok tt, log ++ m ∷ [])

append_message-Appends :
    (m : Message) (log : List Message)
    → Appends m log (append_message m log).0 (append_message m log).1
append_message-Appends m log = elim (Bool-cases (m.topic == "events")) [
  | inl refused ↦ rw refused refl
  | inr taken ↦ rw taken refl
]

abbrev span : List Message → String × List Message
span log = ("00f067aa0ba902b7", log)

abbrev id_of : Event → String
id_of e = e.id

abbrev orders : TopicResolver
orders = prefix (("order", "orders") ∷ []) "events"

abbrev batch : List Event
batch = created ∷ paid ∷ []

published_arrives_example :
    let (sent, log) = publish_each append_message span id_of orders batch [] in
    (ms : List Message) × (log ≡ [] ++ ms)
    × (let (r, s) =
          run commit decode
            (handle clock indexer dlq)
            background
            (map message (select (λ m. m.topic == "orders") ms))
            start in
        (r ≡ ok tt)
        × All
            (Arrived clock indexer dlq commit id_of decode
              (λ s. s.indexed)
              (λ s. s.dead)
              (λ s. s.committed)
              sunk-Sinks
              (λ ctx m s. refl)
              orders
              "orders"
              s)
            sent)
published_arrives_example =
    published_arrives append_message span (λ l. l) append_message-Appends (λ l. refl) clock indexer
      dlq commit id_of decode (λ s. s.indexed) (λ s. s.dead) (λ s. s.committed) sunk-Sinks
      (λ ctx m s. refl) (λ m s. refl) orders "orders" background batch [] start (refl, (refl, tt))
      tt
