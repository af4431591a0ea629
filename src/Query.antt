-- ===== src/Query.antt =====
-- internal/application/query/service.go. Log lines are not modelled. An empty result is the empty
-- list in both of Go's forms of it.
pub mod Bounds
pub mod Scope
pub mod Isolation
pub mod Answers
pub mod Exact
use nocturne_atlas_event_str.Prelude.{
  String, Bool, not, Option, none, some, List, [], ◌∷◌, ◌==◌, if◌then◌else◌,
}
use nocturne_atlas_event_str.Prelude.Int.{ℤ, pos, leb_ℤ, ltb_ℤ}
use nocturne_atlas_event_str.Exec.{
  Error, text, sentinel, not_found, is_error, wrap, Result, ok, err, Exec, raise, raise_if, or_wrap,
  attempt, lift, pure, ◌>>=◌, ◌>>◌,
}
use nocturne_atlas_event_str.Domain.{
  Time, Event, SearchQuery, Identity, Context, identity_from_context, tenant_of, Store, Searcher,
  required_identity,
}

abbrev pub default_limit : ℤ
default_limit = pos 20

abbrev pub max_limit : ℤ
max_limit = pos 100

-- `if q.Limit <= 0 { q.Limit = defaultLimit }; if q.Limit > maxLimit { q.Limit = maxLimit }`
unfoldable pub clamp_limit : ℤ → ℤ
clamp_limit given =
    let limit = if leb_ℤ given (pos 0) then default_limit else given in
    if ltb_ℤ max_limit limit then max_limit else limit

-- `if q.Offset < 0 { q.Offset = 0 }`
unfoldable pub clamp_offset : ℤ → ℤ
clamp_offset given = if ltb_ℤ given (pos 0) then pos 0 else given

pub record StreamQuery : Type 0 where
  pub stream_id : String
  pub limit : ℤ
  pub offset : ℤ

-- `Result`
pub record StreamResult : Type 0 where
  pub stream_id : String
  pub events : List Event
  pub total : ℤ
  pub limit : ℤ
  pub offset : ℤ
  pub read_model : String

pub record ListQuery : Type 0 where
  pub limit : ℤ
  pub offset : ℤ
  pub correlation_id : String

pub record ListResult : Type 0 where
  pub events : List Event
  pub total : ℤ
  pub limit : ℤ
  pub offset : ℤ
  pub read_model : String

pub record CausationQuery : Type 0 where
  pub event_id : String
  pub limit : ℤ
  pub offset : ℤ

pub record CausationResult : Type 0 where
  pub source_event_id : String
  pub events : List Event
  pub total : ℤ
  pub limit : ℤ
  pub offset : ℤ

pub record TimelineQuery : Type 0 where
  pub from_time : Time
  pub to_time : Time
  pub limit : ℤ
  pub offset : ℤ

pub record TimelineResult : Type 0 where
  pub tenant_id : String
  pub events : List Event
  pub total : ℤ
  pub limit : ℤ
  pub offset : ℤ

abbrev pub list_result : String → ℤ → ℤ → List Event × ℤ → ListResult
list_result model limit offset (events, total) = record {
  events = events;
  total = total;
  limit = limit;
  offset = offset;
  read_model = model;
}

abbrev pub stream_result : String → ℤ → ℤ → List Event × ℤ → StreamResult
stream_result stream_id limit offset (events, total) = record {
  stream_id = stream_id;
  events = events;
  total = total;
  limit = limit;
  offset = offset;
  read_model = "elasticsearch";
}

abbrev pub causation_result : String → ℤ → ℤ → List Event × ℤ → CausationResult
causation_result event_id limit offset (events, total) = record {
  source_event_id = event_id;
  events = events;
  total = total;
  limit = limit;
  offset = offset;
}

abbrev pub timeline_result : String → ℤ → ℤ → List Event × ℤ → TimelineResult
timeline_result tenant_id limit offset (events, total) = record {
  tenant_id = tenant_id;
  events = events;
  total = total;
  limit = limit;
  offset = offset;
}

-- What `GetByID` makes of the store's answer.
unfoldable pub screened : Identity → Result Event → Result Event
screened identity (ok e) =
    if not (e.tenant_id == identity.tenant_id) then err (sentinel not_found) else ok e
screened identity (err x) =
    if is_error x not_found then err (sentinel not_found) else err (wrap "get event by id" x)

module _ {S : Type 0} (store : Store S) (searcher : Searcher S) where
  -- `ListAll` for a caller with a tenant, its limits settled.
  unfoldable pub list_all_for : Context → Identity → String → ℤ → ℤ → Exec S ListResult
  list_all_for ctx identity correlation_id limit offset =
      if not (correlation_id == "")
      then (or_wrap "list events by correlation_id"
            (store.list_by_correlation_id ctx identity.tenant_id correlation_id limit offset)
          >>= λ page. pure (list_result "postgres" limit offset page))
      else (or_wrap "list events" (
            searcher.search ctx (record {
              tenant_id = identity.tenant_id;
              stream_id = "";
              limit = limit;
              offset = offset;
              sort_by_occurred_at_desc = Bool.true;
            }))
          >>= λ page. pure (list_result "elasticsearch" limit offset page))

  -- `ListAll`
  unfoldable pub list_all : Context → ListQuery → Exec S ListResult
  list_all ctx q = do
    identity ← required_identity (tenant_of (identity_from_context ctx))
    list_all_for ctx identity q.correlation_id (clamp_limit q.limit) (clamp_offset q.offset)

  -- `QueryByStream` for a caller with a tenant, its limits settled.
  unfoldable pub query_stream_for : Context → Identity → String → ℤ → ℤ → Exec S StreamResult
  query_stream_for ctx identity stream_id limit offset = do
    page ← or_wrap "search events" (
        searcher.search ctx (record {
          tenant_id = identity.tenant_id;
          stream_id = stream_id;
          limit = limit;
          offset = offset;
          sort_by_occurred_at_desc = Bool.false;
        }))
    pure (stream_result stream_id limit offset page)

  -- `QueryByStream`
  unfoldable pub query_by_stream : Context → StreamQuery → Exec S StreamResult
  query_by_stream ctx q = do
    identity ← required_identity (tenant_of (identity_from_context ctx))
    raise_if (q.stream_id == "") (text "stream_id is required")
    query_stream_for ctx identity q.stream_id (clamp_limit q.limit) (clamp_offset q.offset)

  -- `ListByCausationID` for a caller with a tenant, its limits settled.
  unfoldable pub list_causation_for : Context → Identity → String → ℤ → ℤ → Exec S CausationResult
  list_causation_for ctx identity event_id limit offset = do
    page ←
        or_wrap "list events by causation_id"
          (store.list_by_causation_id ctx identity.tenant_id event_id limit offset)
    pure (causation_result event_id limit offset page)

  -- `ListByCausationID`
  unfoldable pub list_by_causation_id : Context → CausationQuery → Exec S CausationResult
  list_by_causation_id ctx q = do
    identity ← required_identity (tenant_of (identity_from_context ctx))
    raise_if (q.event_id == "") (text "event_id is required")
    list_causation_for ctx identity q.event_id (clamp_limit q.limit) (clamp_offset q.offset)

  -- `GetTimeline` for a caller with a tenant, its limits settled.
  unfoldable pub timeline_for : Context → Identity → Time → Time → ℤ → ℤ → Exec S TimelineResult
  timeline_for ctx identity from_time to_time limit offset = do
    page ←
        or_wrap "list timeline"
          (store.list_timeline ctx identity.tenant_id from_time to_time limit offset)
    pure (timeline_result identity.tenant_id limit offset page)

  -- `GetTimeline`
  unfoldable pub get_timeline : Context → TimelineQuery → Exec S TimelineResult
  get_timeline ctx q = do
    identity ← required_identity (tenant_of (identity_from_context ctx))
    timeline_for ctx identity q.from_time q.to_time (clamp_limit q.limit) (clamp_offset q.offset)

  -- `GetByID`
  unfoldable pub get_by_id : Context → String → Exec S Event
  get_by_id ctx id = do
    identity ← required_identity (tenant_of (identity_from_context ctx))
    found ← attempt (store.get_by_id ctx id)
    lift (screened identity found)
