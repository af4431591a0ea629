-- ===== src/Elastic/Startup.antt =====
-- `NewIndexer` and `ensureIndex` of internal/infrastructure/elasticsearch/indexer.go: the index is
-- created with its mapping if it is missing, in at most ten attempts.
pub mod Ready
use nocturne_atlas_event_str.Prelude.{
  ℕ, String, Bool, true, false, List, [], ◌∷◌, eqb, if◌then◌else◌,
}
use nocturne_atlas_event_str.Exec.{Exec, or_wrap, raise_if, pure, ◌>>=◌, ◌>>◌}
use nocturne_atlas_event_str.Config.{ElasticsearchConfig}
use nocturne_atlas_event_str.Retry.{retry}
use nocturne_atlas_event_str.Elastic.{EsResponse, status_error}

-- `mapping`: the fields of the index with their types; true where a field is dynamic.
abbrev pub mapping : List (String × String × Bool)
mapping =
    ("id", "keyword", false)
    ∷ ("tenant_id", "keyword", false)
    ∷ ("stream_id", "keyword", false)
    ∷ ("type", "keyword", false)
    ∷ ("source", "keyword", false)
    ∷ ("version", "long", false)
    ∷ ("occurred_at", "date", false)
    ∷ ("correlation_id", "keyword", false)
    ∷ ("payload", "object", true)
    ∷ ("metadata", "object", true)
    ∷ []

-- What `NewIndexer` calls: creating the client (`elasticsearch.NewClient`), asking whether an index
-- exists and creating one, each within five seconds, and sleeping for a number of seconds.
pub record Cluster (S : Type 0) : Type 0 where
  pub new_client : ElasticsearchConfig → Exec S (Unit {0})
  pub index_exists : String → Exec S EsResponse
  pub create_index : String → List (String × String × Bool) → Exec S EsResponse
  pub sleep : ℕ → S → S

module _ {S : Type 0} (cluster : Cluster S) where
  unfoldable pub create_index : String → Exec S (Unit {0})
  create_index index = do
    res ← or_wrap "create index request" (cluster.create_index index mapping)
    raise_if res.is_error (status_error "create index" res)

  -- `ensureIndex`
  unfoldable pub ensure_index : String → Exec S (Unit {0})
  ensure_index index = do
    res ← or_wrap "check index" (cluster.index_exists index)
    if eqb res.status_code 200 then pure tt else create_index index

  abbrev pub sleep : ℕ → Exec S (Unit {0})
  sleep seconds = λ s. pure tt (cluster.sleep seconds s)

  -- `NewIndexer`; the indexer that it returns is that of Elastic, for the index of the settings.
  unfoldable pub new_indexer : ElasticsearchConfig → Exec S (Unit {0})
  new_indexer cfg = do
    or_wrap "create elasticsearch client" (cluster.new_client cfg)
    retry (ensure_index cfg.index) sleep "ensure index after 10 attempts" 10
