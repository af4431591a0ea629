-- ===== src/Kafka/Provisioning.antt =====
-- After `EnsureTopics` (internal/infrastructure/kafka/topic_manager.go) every topic that an event
-- can be routed to exists.
use Prim.Native.String
use nocturne_atlas_event_str.Prelude.{
  String, ◌≡◌, refl, ◌⊎◌, inl, inr, Bool, true, false, List, [], ◌∷◌, ◌==◌, any, arith, eq_iff,
  Bool-cases,
}
use nocturne_atlas_event_str.Exec.{Result, ok, err, or_wrap, ◌>>=◌, ◌>>◌}
use nocturne_atlas_event_str.Exec.Rules.{after, after_wrap, or_wrap-eq-ok}
use nocturne_atlas_event_str.Domain.{Event}
use nocturne_atlas_event_str.Config.{KafkaConfig}
use nocturne_atlas_event_str.Kafka.Routing.{
  TopicSpec, TopicResolver, contains, resolve, build_topic_specs, resolve_provisioned,
}
use nocturne_atlas_event_str.Retry.Laws.{Ended, succeeded, cancelled, exhausted}
use nocturne_atlas_event_str.Kafka.Attempts.{ensure_topics_ends}
use nocturne_atlas_event_str.Kafka.Topics.{
  Cluster, to_create, create_missing, try_ensure_topics, ensure_topics, max_attempts,
}

abbrev pub names : String → List TopicSpec → Bool
names t specs = any (λ spec. spec.name == t) specs

-- Reading lists topics that exist, creating makes topics exist, and later calls of an attempt
-- remove none.
pub record ClusterWorks {S : Type 0} (cluster : Cluster S) (exist : S → List String) : Type 0 where
  pub read_law :
      (s s1 : S) (ts : List String) (t : String)
      → cluster.read_partitions s ≡ (ok ts, s1)
      → contains t ts ≡ true
      → contains t (exist s1) ≡ true
  pub controller_keeps :
      (s s1 : S) (a t : String)
      → cluster.controller s ≡ (ok a, s1)
      → contains t (exist s) ≡ true
      → contains t (exist s1) ≡ true
  pub dial_keeps :
      (s s1 : S) (a t : String)
      → cluster.dial_controller a s ≡ (ok tt, s1)
      → contains t (exist s) ≡ true
      → contains t (exist s1) ≡ true
  pub create_law :
      (s s1 : S) (specs : List TopicSpec) (t : String)
      → cluster.create_topics specs s ≡ (ok tt, s1)
      → ((contains t (exist s) ≡ true) ⊎ (names t specs ≡ true))
      → contains t (exist s1) ≡ true

-- A topic that is asked for exists or is created.
to_create-covers :
    (existing : List String) (specs : List TopicSpec) (t : String)
    → names t specs ≡ true
    → (contains t existing ≡ true) ⊎ (names t (to_create existing specs) ≡ true)
unfolding to_create
to_create-covers existing [] t h = ground arith
to_create-covers existing (spec ∷ specs) t h =
    go (to_create-covers existing specs t) (Bool-cases (spec.name == t))
      (Bool-cases (contains spec.name existing))
  where
    go :
        (names t specs ≡ true
          → (contains t existing ≡ true) ⊎ (names t (to_create existing specs) ≡ true))
        → ((spec.name == t) ≡ true) ⊎ ((spec.name == t) ≡ false)
        → (contains spec.name existing ≡ true) ⊎ (contains spec.name existing ≡ false)
        → (contains t existing ≡ true) ⊎ (names t (to_create existing (spec ∷ specs)) ≡ true)
    go rest (inl same) (inl old) = inl (rw ((eq_iff spec.name t).0 same) at old)
    go rest (inl same) (inr new) = inr (rw (new, same) refl)
    go rest (inr differ) (inl old) = rw old (rest (rw differ at h))
    go rest (inr differ) (inr new) = rw (new, differ) (rest (rw differ at h))

module _ {S : Type 0} (cluster : Cluster S) (exist : S → List String)
    (works : ClusterWorks cluster exist) where
  -- If the call succeeded, every topic of the specs exists.
  abbrev pub Ensured : List TopicSpec → Result (Unit {0}) → S → Type 0
  Ensured specs (ok _) s = (t : String) → names t specs ≡ true → contains t (exist s) ≡ true
  Ensured specs (err _) s = Unit

  create_missing_lem :
      (specs missing : List TopicSpec) (s : S)
      → ((t : String)
          → names t specs ≡ true
          → (contains t (exist s) ≡ true) ⊎ (names t missing ≡ true))
      → let (r, s') = create_missing cluster missing s in Ensured specs r s'
  unfolding create_missing
  create_missing_lem specs [] s h =
      λ t n. elim (h t n) [ inl there ↦ there | inr none_asked ↦ ground arith ]
  create_missing_lem specs (m ∷ missing) s h =
      after (Ensured specs) (or_wrap "get controller" cluster.controller)
        (λ address.
          or_wrap (String.◌++◌ "dial controller " address) (cluster.dial_controller address)
          >> or_wrap "create topics" (cluster.create_topics (m ∷ missing)))
        s
        (λ address s1 e1. dialled address s1 (λ t n.
          kept
            (λ k.
              works.controller_keeps s s1 address t
                (or_wrap-eq-ok "get controller" cluster.controller s e1) k)
            (h t n)))
        (λ x s1 e1. tt)
    where
      kept : {P Q R : Type 0} → (P → Q) → P ⊎ R → Q ⊎ R
      kept f (inl p) = inl (f p)
      kept f (inr r) = inr r

      created :
          (s2 : S)
          → ((t : String)
              → names t specs ≡ true
              → (contains t (exist s2) ≡ true) ⊎ (names t (m ∷ missing) ≡ true))
          → let (r, s') = or_wrap "create topics" (cluster.create_topics (m ∷ missing)) s2 in
            Ensured specs r s'
      created s2 g =
          after_wrap (Ensured specs) "create topics" (cluster.create_topics (m ∷ missing)) s2
            (λ a s3 e t n. works.create_law s2 s3 (m ∷ missing) t e (g t n)) (λ x s3 e. tt)

      dialled :
          (address : String) (s1 : S)
          → ((t : String)
              → names t specs ≡ true
              → (contains t (exist s1) ≡ true) ⊎ (names t (m ∷ missing) ≡ true))
          → let (r, s') =
              (or_wrap (String.◌++◌ "dial controller " address) (cluster.dial_controller address)
                  >> or_wrap "create topics" (cluster.create_topics (m ∷ missing)))
                s1 in
            Ensured specs r s'
      dialled address s1 g =
          after (Ensured specs)
            (or_wrap (String.◌++◌ "dial controller " address) (cluster.dial_controller address))
            (λ _. or_wrap "create topics" (cluster.create_topics (m ∷ missing))) s1
            (λ a s2 e. created s2 (λ t n.
              kept
                (works.dial_keeps s1 s2 address t (
                  or_wrap-eq-ok (String.◌++◌ "dial controller " address)
                    (cluster.dial_controller address) s1 e))
                (g t n)))
            (λ x s2 e. tt)

  try_lem :
      (specs : List TopicSpec) (s : S)
      → let (r, s') = try_ensure_topics cluster specs s in Ensured specs r s'
  unfolding try_ensure_topics
  try_lem specs s =
      after (Ensured specs) (or_wrap "dial kafka" cluster.dial)
        (λ _. or_wrap "read partitions" cluster.read_partitions >>= λ existing.
          create_missing cluster (to_create existing specs))
        s
        (λ a s1 e.
          after (Ensured specs) (or_wrap "read partitions" cluster.read_partitions)
            (λ existing. create_missing cluster (to_create existing specs)) s1
            (λ existing s2 e2. create_missing_lem specs (to_create existing specs) s2 λ t n.
              elim (to_create-covers existing specs t n) [
                | inl old ↦ inl (
                    works.read_law s1 s2 existing t
                      (or_wrap-eq-ok "read partitions" cluster.read_partitions s1 e2) old)
                | inr new ↦ inr new
              ])
            (λ x s2 e2. tt))
        (λ x s1 e. tt)

  Ended-Ensured :
      (specs : List TopicSpec) (s : S) {r : Result (Unit {0})} {s' : S}
      → Ended
          (try_ensure_topics cluster specs)
          cluster.wait
          "ensure topics after 5 attempts"
          max_attempts
          s
          r
          s'
      → Ensured specs r s'
  Ended-Ensured specs s (succeeded {s1 = s1} failed below e) = rw e at (try_lem specs s1)
  Ended-Ensured specs s (cancelled failed below e waited) = tt
  Ended-Ensured specs s (exhausted failed) = tt

  -- When the call succeeds, every topic that was asked for exists.
  pub ensure_topics-Ensured :
      (specs : List TopicSpec) (s : S)
      → let (r, s') = ensure_topics cluster specs s in Ensured specs r s'
  ensure_topics-Ensured specs s = Ended-Ensured specs s (ensure_topics_ends cluster specs s)

  abbrev pub Provisioned : TopicResolver → Result (Unit {0}) → S → Type 0
  Provisioned resolver (ok _) s = (e : Event) → contains (resolve resolver e) (exist s) ≡ true
  Provisioned resolver (err _) s = Unit

  Ensured-Provisioned :
      (cfg : KafkaConfig) (resolver : TopicResolver) (r : Result (Unit {0})) (s : S)
      → Ensured (build_topic_specs cfg resolver) r s
      → Provisioned resolver r s
  Ensured-Provisioned cfg resolver (ok a) s h =
      λ e. h (resolve resolver e) (resolve_provisioned cfg resolver e)
  Ensured-Provisioned cfg resolver (err x) s h = tt

-- With brokers that report existing topics only, and keep them while an attempt runs: when the
-- ingest API's provisioning succeeds, at whichever of its five attempts, the topic that any event
-- is routed to exists.
pub ensure_topics-Provisioned :
    {S : Type 0} (cluster : Cluster S) (exist : S → List String)
    (works : ClusterWorks cluster exist) (cfg : KafkaConfig) (resolver : TopicResolver) (s : S)
    → let (r, s') = ensure_topics cluster (build_topic_specs cfg resolver) s in
      Provisioned cluster exist works resolver r s'
ensure_topics-Provisioned cluster exist works cfg resolver s =
    Ensured-Provisioned cluster exist works cfg resolver _ _
      (ensure_topics-Ensured cluster exist works (build_topic_specs cfg resolver) s)
