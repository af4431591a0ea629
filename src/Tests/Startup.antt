-- ===== src/Tests/Startup.antt =====
-- The theorems on the startup of Elasticsearch and PostgreSQL at concrete inputs.
use mathlib.Core.Path.{Path}
use nocturne_atlas_event_str.Prelude.{
  String, Option, none, ◌/◌, ◌*◌, ◌==◌, ◌||◌, ℕ, zero, suc, ◌≡◌, refl, ap, sym, ◌∙◌, Bool, true,
  false, some, [], ◌∷◌, ◌++◌, eqb, if◌then◌else◌,
}
use nocturne_atlas_event_str.Prelude.Int.{ℤ, pos, pos_part}
use nocturne_atlas_event_str.Exec.{Error, text, Result, ok, err, pure, wrap}
use nocturne_atlas_event_str.Config.{ElasticsearchConfig, PostgresConfig}
use nocturne_atlas_event_str.Domain.{Event, Metadata}
use nocturne_atlas_event_str.Retry.Laws.{start, again}
use nocturne_atlas_event_str.Elastic.{EsResponse}
use nocturne_atlas_event_str.Elastic.Startup.{Cluster, ensure_index, create_index, new_indexer}
use nocturne_atlas_event_str.Elastic.Startup.Ready.{
  IndexWorks, Started, new_indexer-Started, new_indexer_succeeds,
}
use nocturne_atlas_event_str.Postgres.Schema.{Schema, run_statements, ddl}
use nocturne_atlas_event_str.Postgres.Schema.Steps.{Keeps}
use nocturne_atlas_event_str.Postgres.Schema.Laws.{UpToDate, ddl-UpToDate}
use nocturne_atlas_event_str.Postgres.Startup.{Pools, new_event_store}
use nocturne_atlas_event_str.Postgres.Startup.Opened.{PoolsWork, Opened, new_event_store-Opened}
use nocturne_atlas_event_str.Postgres.Rows.{
  int, insert_args, inserted_row, select_values, select_cols, scan_event, scan_event_with_total,
  stored_row, kept_event, scan_event-stored_row,
}
use nocturne_atlas_event_str.Tests.World.{created}

-- An Elasticsearch that is down for some requests, and whether it has the index.
pub record Node : Type 0 where
  pub down : ℕ
  pub has : Bool

abbrev pub status : ℕ → EsResponse
status code = record { status_code = code; status = ""; is_error = false; body = "" }

abbrev pub asked : ℕ → Bool → Result EsResponse × Node
asked zero has = (ok (status (if has then 200 else 404)), record { down = 0; has = has })
asked (suc n) has = (err (text "connection refused"), record { down = n; has = has })

abbrev pub node : Cluster Node
node = record {
  new_client = λ cfg. pure tt;
  index_exists = λ index s. asked s.down s.has;
  create_index = λ index mapping s. (ok (status 200), record s { has = true });
  sleep = λ seconds s. s;
}

asked-has :
    (n : ℕ) (has : Bool) (res : EsResponse) (s1 : Node)
    → asked n has ≡ (ok res, s1)
    → eqb res.status_code 200 ≡ true
    → s1.has ≡ true
asked-has zero true res s1 e h = ap (λ (x : Result EsResponse × Node). x.1.has) (sym e)
asked-has zero false res s1 e h =
    let same : status 404 ≡ res = cc in
    let k : eqb 404 200 ≡ true = ap (λ (r : EsResponse). eqb r.status_code 200) same ∙ h in cc
asked-has (suc n) has res s1 e h = cc

pub node-IndexWorks : IndexWorks node (λ index s. s.has)
node-IndexWorks = record {
  exists_law = λ index s s1 res e h. asked-has s.down s.has res s1 e h;
  create_law = λ index s s1 res e h. ap (λ (x : Result EsResponse × Node). x.1.has) (sym e);
}

abbrev pub es_settings : ElasticsearchConfig
es_settings = record { addresses = []; index = "events"; username = ""; password = "" }

abbrev pub booting : Node
booting = record { down = 1; has = false }

new_indexer-Started_example :
    let (r, s) = new_indexer node es_settings booting in
    Started node (λ index s. s.has) node-IndexWorks es_settings booting r s
new_indexer-Started_example =
    new_indexer-Started node (λ index s. s.has) node-IndexWorks es_settings booting

first_fails :
    ensure_index node "events" booting
    ≡ (err (wrap "check index" (text "connection refused")), record { down = 0; has = false })
unfolding ensure_index
first_fails = refl

second_succeeds :
    ensure_index node "events" (record { down = 0; has = false })
    ≡ (ok tt, record { down = 0; has = true })
unfolding ensure_index create_index
second_succeeds = refl

new_indexer_succeeds_example :
    new_indexer node es_settings booting ≡ (ok tt, record { down = 0; has = true })
new_indexer_succeeds_example =
    new_indexer_succeeds node es_settings refl (again start first_fails refl) refl second_succeeds

-- A table of the first version.
abbrev pub old_schema : Schema
old_schema = record {
  table = some (
      ("id", "UUID PRIMARY KEY")
      ∷ ("stream_id", "TEXT NOT NULL")
      ∷ ("type", "TEXT NOT NULL")
      ∷ ("source", "TEXT NOT NULL")
      ∷ ("version", "BIGINT NOT NULL")
      ∷ ("occurred_at", "TIMESTAMPTZ NOT NULL")
      ∷ ("payload", "JSONB NOT NULL")
      ∷ ("metadata", "JSONB NOT NULL")
      ∷ []);
  indexes = [];
}

ddl-UpToDate_example :
    (s' : Schema) × (run_statements ddl old_schema ≡ ok s') × Keeps old_schema s' × UpToDate s'
ddl-UpToDate_example =
    ddl-UpToDate old_schema (refl, (refl, (refl, (refl, (refl, (refl, (refl, (refl, tt))))))))

-- A database of which a pool may be open.
pub record Server : Type 0 where
  pub open_pool : Bool
  pub has_schema : Schema

abbrev pub executed : Result Schema → Server → Result (Unit {0}) × Server
executed (ok schema) s = (ok tt, record s { has_schema = schema })
executed (err e) s = (err e, s)

abbrev pub server : Pools Server
server = record {
  parse_config =
      λ dsn. ok (record { max_conns = pos 4; min_conns = pos 0; max_conn_idle_time = pos 0 });
  new_with_config = λ c s. (ok tt, record s { open_pool = true });
  ping = pure tt;
  exec = λ statements s. executed (run_statements statements s.has_schema) s;
  close = λ s. record s { open_pool = false };
}

executed-ok :
    (r : Result Schema) (s s1 : Server)
    → executed r s ≡ (ok tt, s1)
    → (s1.open_pool ≡ s.open_pool) × (r ≡ ok s1.has_schema)
executed-ok (ok schema) s s1 e = (
  ap (λ (x : Result (Unit {0}) × Server). x.1.open_pool) (sym e),
  ap (λ (x : Result (Unit {0}) × Server). ok x.1.has_schema) e,
)
executed-ok (err x) s s1 e = cc

executed-err :
    (r : Result Schema) (s s1 : Server) (x : Error)
    → executed r s ≡ (err x, s1)
    → s1.has_schema ≡ s.has_schema
executed-err (ok schema) s s1 x e = cc
executed-err (err y) s s1 x e = ap (λ (p : Result (Unit {0}) × Server). p.1.has_schema) (sym e)

abbrev later :
    {r r1 : Result (Unit {0})} {s s1 : Server}
    → Path (Result (Unit {0}) × Server) (r, s) (r1, s1)
    → s1 ≡ s
later e = ap (λ (x : Result (Unit {0}) × Server). x.1) (sym e)

pub server-PoolsWork : PoolsWork server (λ s. s.open_pool) (λ s. s.has_schema)
server-PoolsWork = record {
  opens = λ c s s1 e.
      let same = later e in
      (ap (λ (x : Server). x.open_pool) same, ap (λ (x : Server). x.has_schema) same);
  fails_to_open = λ c s s1 x e. cc;
  pings = λ s s1 r e.
      let same = later e in
      (ap (λ (x : Server). x.open_pool) same, ap (λ (x : Server). x.has_schema) same);
  closes = λ s. (refl, refl);
  applies = λ s s1 e. executed-ok (run_statements ddl s.has_schema) s s1 e;
  fails_to_apply = λ s s1 x e. executed-err (run_statements ddl s.has_schema) s s1 x e;
}

abbrev pub pg_settings : PostgresConfig
pg_settings = record {
  dsn = "postgres://localhost/events";
  pool_max = pos 20;
  pool_min = pos 2;
  pool_max_conn_idle_time = pos 0;
}

abbrev pub idle : Server
idle = record { open_pool = false; has_schema = old_schema }

new_event_store-Opened_example :
    let (r, s) = new_event_store server pg_settings idle in
    Opened server (λ s. s.open_pool) (λ s. s.has_schema) server-PoolsWork old_schema r s
new_event_store-Opened_example =
    new_event_store-Opened server (λ s. s.open_pool) (λ s. s.has_schema) server-PoolsWork
      pg_settings idle (refl, (refl, (refl, (refl, (refl, (refl, (refl, (refl, tt)))))))) refl

-- A JSONB that puts a space in an empty object, and a TIMESTAMPTZ that cuts three digits.
abbrev rendered : String → String
rendered s = if s == "{}" then "{ }" else s

abbrev to_micros : ℤ → ℤ
to_micros t = pos (pos_part t / 1000 * 1000)

abbrev precise : Event
precise = record created { occurred_at = pos 1234567; payload = "{}" }

abbrev decoded : String → Option Metadata
decoded s = if (s == "{}") || (s == "{ }") then some [] else none

scan_event-stored_row_example :
    let row = inserted_row (pos 7) (insert_args "{}" precise) in
    let values = select_values select_cols (stored_row rendered to_micros row) in
    let scanned = kept_event rendered to_micros (pos 7) precise in
    (scan_event decoded values ≡ ok scanned)
    × (scan_event_with_total decoded (values ++ int (pos 1) ∷ []) ≡ ok (scanned, pos 1))
scan_event-stored_row_example =
    scan_event-stored_row rendered to_micros (λ m. "{}") decoded precise (pos 7) (pos 1) refl refl
