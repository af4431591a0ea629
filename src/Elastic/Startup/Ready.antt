-- ===== src/Elastic/Startup/Ready.antt =====
-- When `NewIndexer` returns an indexer, and what holds then.
use nocturne_atlas_event_str.Prelude.{
  ℕ, String, ◌≡◌, ◌∙◌, Bool, true, false, ◌⊎◌, inl, inr, ltb, eqb, Bool-cases, if◌then◌else◌,
}
use nocturne_atlas_event_str.Exec.{Error, wrap, Result, ok, err, or_wrap, raise_if, pure}
use nocturne_atlas_event_str.Exec.Rules.{after_or_wrap, bind_ok, or_wrap-ok}
use nocturne_atlas_event_str.Config.{ElasticsearchConfig}
use nocturne_atlas_event_str.Retry.{retry}
use nocturne_atlas_event_str.Retry.Laws.{
  Failed, Ended, succeeded, cancelled, exhausted, retry_ends, retry_succeeds,
}
use nocturne_atlas_event_str.Elastic.{EsResponse, status_error}
use nocturne_atlas_event_str.Elastic.Startup.{
  Cluster, mapping, create_index, ensure_index, sleep, new_indexer,
}

abbrev label : String
label = "ensure index after 10 attempts"

-- An index that is reported by the status 200, or created without an error, exists.
pub record IndexWorks {S : Type 0} (cluster : Cluster S) (exist : String → S → Bool) : Type 0 where
  pub exists_law :
      (index : String) (s s1 : S) (res : EsResponse)
      → cluster.index_exists index s ≡ (ok res, s1)
      → eqb res.status_code 200 ≡ true
      → exist index s1 ≡ true
  pub create_law :
      (index : String) (s s1 : S) (res : EsResponse)
      → cluster.create_index index mapping s ≡ (ok res, s1)
      → res.is_error ≡ false
      → exist index s1 ≡ true

module _ {S : Type 0} (cluster : Cluster S) (exist : String → S → Bool)
    (works : IndexWorks cluster exist) where
  -- If the call succeeded, the index exists.
  abbrev pub Exists : String → Result (Unit {0}) → S → Type 0
  Exists index (ok _) s = exist index s ≡ true
  Exists index (err _) s = Unit

  create_index_lem :
      (index : String) (s : S) → let (r, s') = create_index cluster index s in Exists index r s'
  unfolding create_index
  create_index_lem index s =
      after_or_wrap (Exists index) "create index request" (cluster.create_index index mapping)
        (λ res. raise_if res.is_error (status_error "create index" res)) s
        (λ res s1 e. go res s1 e (Bool-cases res.is_error)) (λ x s1 e. tt)
    where
      go :
          (res : EsResponse) (s1 : S)
          → cluster.create_index index mapping s ≡ (ok res, s1)
          → (res.is_error ≡ true) ⊎ (res.is_error ≡ false)
          → let (r, s') = raise_if res.is_error (status_error "create index" res) s1 in
            Exists index r s'
      go res s1 e (inl failed) = rw failed tt
      go res s1 e (inr fine) = rw fine (works.create_law index s s1 res e fine)

  ensure_index_lem :
      (index : String) (s : S) → let (r, s') = ensure_index cluster index s in Exists index r s'
  unfolding ensure_index
  ensure_index_lem index s =
      after_or_wrap (Exists index) "check index" (cluster.index_exists index)
        (λ res. if eqb res.status_code 200 then pure tt else create_index cluster index) s
        (λ res s1 e. go res s1 e (Bool-cases (eqb res.status_code 200))) (λ x s1 e. tt)
    where
      go :
          (res : EsResponse) (s1 : S)
          → cluster.index_exists index s ≡ (ok res, s1)
          → (eqb res.status_code 200 ≡ true) ⊎ (eqb res.status_code 200 ≡ false)
          → let (r, s') =
              (if eqb res.status_code 200 then pure tt else create_index cluster index) s1 in
            Exists index r s'
      go res s1 e (inl old) = rw old (works.exists_law index s s1 res e old)
      go res s1 e (inr new) = rw new (create_index_lem index s1)

  -- How `NewIndexer` ends from the state s.
  pub data Started (cfg : ElasticsearchConfig) (s : S) : Result (Unit {0}) → S → Type 0 where
    no_client :
        {x : Error} {s1 : S}
        → cluster.new_client cfg s ≡ (err x, s1)
        → Started cfg s (err (wrap "create elasticsearch client" x)) s1
    -- One of ten attempts succeeded after those before it failed, and the index exists.
    ready :
        {k : ℕ} {last : Error} {s1 s2 s3 : S}
        → cluster.new_client cfg s ≡ (ok tt, s1)
        → Failed (ensure_index cluster cfg.index) (sleep cluster) label 10 s1 k last s2
        → ltb k 10 ≡ true
        → ensure_index cluster cfg.index s2 ≡ (ok tt, s3)
        → exist cfg.index s3 ≡ true
        → Started cfg s (ok tt) s3
    -- All ten failed.
    gave_up :
        {last : Error} {s1 s2 : S}
        → cluster.new_client cfg s ≡ (ok tt, s1)
        → Failed (ensure_index cluster cfg.index) (sleep cluster) label 10 s1 10 last s2
        → Started cfg s (err (wrap "ensure index after 10 attempts" last)) s2

  Ended-Started :
      (cfg : ElasticsearchConfig) (s s1 : S) {r : Result (Unit {0})} {s' : S}
      → cluster.new_client cfg s ≡ (ok tt, s1)
      → Ended (ensure_index cluster cfg.index) (sleep cluster) label 10 s1 r s'
      → Started cfg s r s'
  Ended-Started cfg s s1 made (succeeded {s1 = s2} failed below e) =
      ready made failed below e (rw e at (ensure_index_lem cfg.index s2))
  Ended-Started cfg s s1 made (cancelled failed below e slept) = cc
  Ended-Started cfg s s1 made (exhausted failed) = gave_up made failed

-- After a success the index exists.
pub Started-exists :
    {S : Type 0} {cluster : Cluster S} {exist : String → S → Bool}
    {works : IndexWorks cluster exist} {cfg : ElasticsearchConfig} {s s' : S}
    {r : Result (Unit {0})}
    → Started cluster exist works cfg s r s'
    → r ≡ ok tt
    → exist cfg.index s' ≡ true
Started-exists (no_client e) h = cc
Started-exists (ready made failed below e there) h = there
Started-exists (gave_up made failed) h = cc

-- With an Elasticsearch that reports and creates indices faithfully, `NewIndexer` ends in one of
-- three ways: it returns an indexer after one of ten attempts has succeeded, and the index of the
-- settings exists then; the client cannot be created; or ten attempts have failed, each followed by
-- its sleep, and the last one's error is returned, wrapped.
pub new_indexer-Started :
    {S : Type 0} (cluster : Cluster S) (exist : String → S → Bool)
    (works : IndexWorks cluster exist) (cfg : ElasticsearchConfig) (s : S)
    → let (r, s') = new_indexer cluster cfg s in Started cluster exist works cfg s r s'
unfolding new_indexer
new_indexer-Started cluster exist works cfg s =
    after_or_wrap (Started cluster exist works cfg s) "create elasticsearch client"
      (cluster.new_client cfg)
      (λ _. retry (ensure_index cluster cfg.index) (sleep cluster) label 10) s
      (λ a s1 e.
        Ended-Started cluster exist works cfg s s1 e
          (retry_ends (ensure_index cluster cfg.index) (sleep cluster) label 10 s1))
      (λ x s1 e. no_client e)

-- `NewIndexer` returns an indexer whenever the client can be created and one of the first ten
-- attempts finds or creates the index, however the attempts before it failed.
pub new_indexer_succeeds :
    {S : Type 0} (cluster : Cluster S) (cfg : ElasticsearchConfig) {k : ℕ} {last : Error}
    {s s1 s2 s3 : S}
    → cluster.new_client cfg s ≡ (ok tt, s1)
    → Failed (ensure_index cluster cfg.index) (sleep cluster) label 10 s1 k last s2
    → ltb k 10 ≡ true
    → ensure_index cluster cfg.index s2 ≡ (ok tt, s3)
    → new_indexer cluster cfg s ≡ (ok tt, s3)
unfolding new_indexer
new_indexer_succeeds cluster cfg {s = s} {s1 = s1} made failed below e =
    bind_ok (or_wrap "create elasticsearch client" (cluster.new_client cfg))
      (λ _. retry (ensure_index cluster cfg.index) (sleep cluster) label 10) s
      (or_wrap-ok "create elasticsearch client" (cluster.new_client cfg) s made)
    ∙ retry_succeeds (ensure_index cluster cfg.index) (sleep cluster) label 10 s1 failed below e
