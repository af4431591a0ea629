-- ===== src/Kafka/Topics.antt =====
-- `EnsureTopics` of internal/infrastructure/kafka/topic_manager.go: a topic that is missing is
-- created, in at most five attempts. The calls of the broker are parameters; log lines are not
-- modelled.
use Prim.Native.String
use nocturne_atlas_event_str.Prelude.{ℕ, String, List, [], ◌∷◌, if◌then◌else◌}
use nocturne_atlas_event_str.Exec.{Exec, or_wrap, pure, ◌>>=◌, ◌>>◌}
use nocturne_atlas_event_str.Retry.{retry}
use nocturne_atlas_event_str.Kafka.Routing.{TopicSpec, contains}

-- What the manager calls: dialling the first broker, reading the topics of its partitions, asking
-- for the controller's address and dialling it, creating topics; and waiting for a number of
-- seconds, which fails when the context ends.
pub record Cluster (S : Type 0) : Type 0 where
  pub dial : Exec S (Unit {0})
  pub read_partitions : Exec S (List String)
  pub controller : Exec S String
  pub dial_controller : String → Exec S (Unit {0})
  pub create_topics : List TopicSpec → Exec S (Unit {0})
  pub wait : ℕ → Exec S (Unit {0})

-- The loop that determines which topics need to be created.
unfoldable pub to_create : List String → List TopicSpec → List TopicSpec
to_create existing [] = []
to_create existing (spec ∷ specs) =
    let rest = to_create existing specs in if contains spec.name existing then rest else spec ∷ rest

abbrev pub max_attempts : ℕ
max_attempts = 5

module _ {S : Type 0} (cluster : Cluster S) where
  unfoldable pub create_missing : List TopicSpec → Exec S (Unit {0})
  create_missing [] = pure tt
  create_missing (spec ∷ specs) = do
    address ← or_wrap "get controller" cluster.controller
    or_wrap (String.◌++◌ "dial controller " address) (cluster.dial_controller address)
    or_wrap "create topics" (cluster.create_topics (spec ∷ specs))

  -- `tryEnsureTopics`
  unfoldable pub try_ensure_topics : List TopicSpec → Exec S (Unit {0})
  try_ensure_topics specs = do
    or_wrap "dial kafka" cluster.dial
    existing ← or_wrap "read partitions" cluster.read_partitions
    create_missing (to_create existing specs)

  -- `EnsureTopics`
  unfoldable pub ensure_topics : List TopicSpec → Exec S (Unit {0})
  ensure_topics specs =
      retry (try_ensure_topics specs) cluster.wait "ensure topics after 5 attempts" max_attempts
