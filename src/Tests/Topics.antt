-- ===== src/Tests/Topics.antt =====
-- The theorem on provisioning at a concrete input: a cluster that is the list of its topics.
use mathlib.Core.Path.{Path}
use nocturne_atlas_event_str.Prelude.{
  String, ◌≡◌, ◌⊎◌, inl, inr, true, List, [], ◌∷◌, ◌==◌, arith, Bool-cases,
}
use nocturne_atlas_event_str.Exec.{Result, ok, pure}
use nocturne_atlas_event_str.Kafka.Routing.{
  TopicSpec, TopicResolver, prefix, contains, build_topic_specs,
}
use nocturne_atlas_event_str.Kafka.Topics.{Cluster, try_ensure_topics, ensure_topics}
use nocturne_atlas_event_str.Kafka.Provisioning.{
  names, ClusterWorks, Provisioned, ensure_topics-Provisioned,
}
use nocturne_atlas_event_str.Kafka.Attempts.{ensure_topics_ends}
use nocturne_atlas_event_str.Retry.Laws.{Ended}
use nocturne_atlas_event_str.Tests.Streaming.{settings}

abbrev pub add_names : List TopicSpec → List String → List String
add_names [] s = s
add_names (spec ∷ specs) s = spec.name ∷ add_names specs s

abbrev pub cluster : Cluster (List String)
cluster = record {
  dial = pure tt;
  read_partitions = λ s. (ok s, s);
  controller = pure "broker-1";
  dial_controller = λ address. pure tt;
  create_topics = λ specs s. (ok tt, add_names specs s);
  wait = λ seconds. pure tt;
}

pub add_names-covers :
    (specs : List TopicSpec) (s : List String) (t : String)
    → ((contains t s ≡ true) ⊎ (names t specs ≡ true))
    → contains t (add_names specs s) ≡ true
add_names-covers [] s t (inl old) = old
add_names-covers [] s t (inr new) = ground arith
add_names-covers (spec ∷ specs) s t (inl old) =
    let rest = add_names-covers specs s t (inl old) in ground arith
add_names-covers (spec ∷ specs) s t (inr new) = elim (Bool-cases (spec.name == t)) [
  | inl same ↦ ground arith
  | inr differ ↦ let rest = add_names-covers specs s t (inr (rw differ at new)) in ground arith
]

states_agree :
    {A : Type 0} {a b : A} {s t : List String}
    → Path (Result A × List String) (ok a, s) (ok b, t)
    → (s ≡ t) × (a ≡ b)
states_agree e = (cc, cc)

pub cluster-ClusterWorks : ClusterWorks cluster (λ s. s)
cluster-ClusterWorks = record {
  read_law = λ s s1 ts t e h. let (same, read) = states_agree e in rw (← same, read) h;
  controller_keeps = λ s s1 a t e h. rw (← (states_agree e).0) h;
  dial_keeps = λ s s1 a t e h. rw (← (states_agree e).0) h;
  create_law = λ s s1 specs t e h. rw (← (states_agree e).0) (add_names-covers specs s t h);
}

abbrev by_domain : TopicResolver
by_domain = prefix (("order", "orders") ∷ []) "events"

ensure_topics-Provisioned_example :
    let (r, s) = ensure_topics cluster (build_topic_specs settings by_domain) ("events" ∷ []) in
    Provisioned cluster (λ s. s) cluster-ClusterWorks by_domain r s
ensure_topics-Provisioned_example =
    ensure_topics-Provisioned cluster (λ s. s) cluster-ClusterWorks settings by_domain
      ("events" ∷ [])

ensure_topics_ends_example :
    let specs = build_topic_specs settings by_domain in
    let (r, s) = ensure_topics cluster specs ("events" ∷ []) in
    Ended
      (try_ensure_topics cluster specs)
      cluster.wait
      "ensure topics after 5 attempts"
      5
      ("events" ∷ [])
      r
      s
ensure_topics_ends_example =
    ensure_topics_ends cluster (build_topic_specs settings by_domain) ("events" ∷ [])
