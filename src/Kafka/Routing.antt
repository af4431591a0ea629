-- ===== src/Kafka/Routing.antt =====
-- internal/infrastructure/kafka/topic_resolver.go: an event is routed to one of the topics that the
-- resolver lists, which are the topics that are created at startup.
use nocturne_atlas_event_str.Prelude.{
  String, ◌≡◌, Bool, true, Option, none, some, List, [], ◌∷◌, ◌++◌, ◌==◌, eq_iff, any, arith,
  if◌then◌else◌, Option-cases, Bool-cases, inl, inr,
}
use nocturne_atlas_event_str.Prelude.Int.{ℤ, pos}
use nocturne_atlas_event_str.Prelude.Dict.{Dict, lookup}
use nocturne_atlas_event_str.Prelude.Text.{cut}
use nocturne_atlas_event_str.Domain.{Event}
use nocturne_atlas_event_str.Config.{KafkaConfig, dlq_topic_name}

-- The two implementations of `TopicResolver`.
pub data TopicResolver : Type 0 where
  single : String → TopicResolver
  prefix : Dict String → String → TopicResolver

-- `NewTopicResolver`
unfoldable pub new_topic_resolver : KafkaConfig → TopicResolver
new_topic_resolver cfg = elim cfg.topic_routes [
  | [] ↦ single cfg.topic
  | r ∷ routes ↦ prefix cfg.topic_routes cfg.topic
]

abbrev pub or_fallback : Option String → String → String
or_fallback none fallback = fallback
or_fallback (some t) fallback = t

-- The topic for what stands before the first ":", unless nothing stands there.
abbrev pub routed : Option (String × String) → Dict String → String → String
routed none routes fallback = fallback
routed (some (domain, _)) routes fallback =
    if domain == "" then fallback else or_fallback (lookup domain routes) fallback

-- `Resolve`
unfoldable pub resolve : TopicResolver → Event → String
resolve (single topic) e = topic
resolve (prefix routes fallback) e = routed (cut b':' e.stream_id) routes fallback

abbrev pub contains : String → List String → Bool
contains t topics = any (λ u. u == t) topics

-- The loop of `Topics`; `seen` holds what is in the list.
unfoldable pub collect : Dict String → List String → List String
collect [] topics = topics
collect ((k, t) ∷ routes) topics =
    collect routes (if contains t topics then topics else topics ++ t ∷ [])

-- `Topics`
unfoldable pub topics : TopicResolver → List String
topics (single topic) = topic ∷ []
topics (prefix routes fallback) = collect routes (fallback ∷ [])

pub record TopicSpec : Type 0 where
  pub name : String
  pub partitions : ℤ
  pub replication : ℤ

-- The loop of `buildTopicSpecs` in cmd/ingest-api/main.go.
unfoldable pub specs_of : KafkaConfig → List String → List TopicSpec
specs_of cfg [] =
    record { name = dlq_topic_name cfg; partitions = pos 1; replication = cfg.topic_replication }
    ∷ []
specs_of cfg (t ∷ ts) =
    record { name = t; partitions = cfg.topic_partitions; replication = cfg.topic_replication }
    ∷ specs_of cfg ts

-- `buildTopicSpecs`
unfoldable pub build_topic_specs : KafkaConfig → TopicResolver → List TopicSpec
build_topic_specs cfg r = specs_of cfg (topics r)

contains-append_left :
    (t : String) (xs ys : List String) → contains t xs ≡ true → contains t (xs ++ ys) ≡ true
contains-append_left t [] ys h = ground arith
contains-append_left t (x ∷ xs) ys h = ground (arith, contains-append_left t xs ys)

contains-concat : (t : String) (xs : List String) → contains t (xs ++ t ∷ []) ≡ true
contains-concat t [] = ground (arith, eq_iff t t)
contains-concat t (x ∷ xs) = ground (arith, contains-concat t xs)

collect_keeps :
    (routes : Dict String) (ts : List String) (t : String)
    → contains t ts ≡ true
    → contains t (collect routes ts) ≡ true
unfolding collect
collect_keeps [] ts t h = h
collect_keeps ((k, u) ∷ routes) ts t h =
    collect_keeps routes (if contains u ts then ts else ts ++ u ∷ []) t
      (elim (Bool-cases (contains u ts)) [
        | inl old ↦ rw old h
        | inr new ↦ rw new (contains-append_left t ts (u ∷ []) h)
      ])

collect_finds :
    (routes : Dict String) (ts : List String) (k t : String)
    → lookup k routes ≡ some t
    → contains t (collect routes ts) ≡ true
unfolding collect lookup
collect_finds [] ts k t h = ground arith
collect_finds ((j, u) ∷ routes) ts k t h = elim (Bool-cases (j == k)) [
  | inl here ↦
      let same : u ≡ t = ground arith in
      collect_keeps routes _ t (elim (Bool-cases (contains u ts)) [
        | inl old ↦ rw old (rw same at old)
        | inr new ↦ rw (new, same) (contains-concat t ts)
      ])
  | inr there ↦ collect_finds routes _ k t (ground arith)
]

fallback-mem :
    (routes : Dict String) (fallback : String)
    → contains fallback (collect routes (fallback ∷ [])) ≡ true
fallback-mem routes fallback =
    collect_keeps routes (fallback ∷ []) fallback (ground (arith, eq_iff fallback fallback))

routed-mem :
    (o : Option (String × String)) (routes : Dict String) (fallback : String)
    → contains (routed o routes fallback) (collect routes (fallback ∷ [])) ≡ true
routed-mem none routes fallback = fallback-mem routes fallback
routed-mem (some (domain, _)) routes fallback = elim (Bool-cases (domain == "")) [
  | inl empty ↦ rw empty (fallback-mem routes fallback)
  | inr named ↦ elim (Option-cases (lookup domain routes)) [
    | inl missing ↦ rw (named, missing) (fallback-mem routes fallback)
    | inr (t, found) ↦ rw (named, found) (collect_finds routes (fallback ∷ []) domain t found)
  ]
]

resolve-mem : (r : TopicResolver) (e : Event) → contains (resolve r e) (topics r) ≡ true
unfolding resolve topics
resolve-mem (single topic) e = ground (arith, eq_iff topic topic)
resolve-mem (prefix routes fallback) e = routed-mem (cut b':' e.stream_id) routes fallback

specs_of-names :
    (cfg : KafkaConfig) (t : String) (ts : List String)
    → contains t ts ≡ true
    → any (λ spec. spec.name == t) (specs_of cfg ts) ≡ true
unfolding specs_of
specs_of-names cfg t [] h = ground arith
specs_of-names cfg t (u ∷ ts) h = ground (arith, specs_of-names cfg t ts)

-- Whatever the routes and the stream ID, the topic that an event is routed to is one of the topics
-- that the ingest API creates at startup for that resolver.
pub resolve_provisioned :
    (cfg : KafkaConfig) (r : TopicResolver) (e : Event)
    → any (λ spec. spec.name == resolve r e) (build_topic_specs cfg r) ≡ true
unfolding build_topic_specs
resolve_provisioned cfg r e = specs_of-names cfg (resolve r e) (topics r) (resolve-mem r e)
