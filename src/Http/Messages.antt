-- ===== src/Http/Messages.antt =====
-- Requests and responses (internal/infrastructure/httpserver/dto.go), and the helpers at the end of
-- handler.go. A body is the value that is encoded as JSON; a response holds the headers that the
-- code sets besides Content-Type. Decoding and parsing by the libraries are parameters.
use Prim.Native.Char.{len_utf8}
use nocturne_atlas_event_str.Prelude.{
  ℕ, ◌-◌, leb, String, Bool, Option, none, some, List, ◌==◌, map, if◌then◌else◌,
}
use nocturne_atlas_event_str.Prelude.Int.{ℤ, pos, ltb_ℤ}
use nocturne_atlas_event_str.Exec.{Error}
use nocturne_atlas_event_str.Domain.{Time, Metadata, Event, Identity, Context}
use nocturne_atlas_event_str.Replay.Engine.{ReplayResult}

-- `param` is the URL parameter of the route, `request_id` what `chimw.RequestID` made.
pub record HttpRequest : Type 0 where
  pub header : String → String
  pub query : String → String
  pub param : String
  pub request_id : String
  pub body : String

pub record IngestRequest : Type 0 where
  pub stream_id : String
  pub type : String
  pub source : String
  pub payload : String
  pub metadata : Option Metadata
  pub event_version : ℤ
  pub causation_id : String
  pub actor_id : String
  pub trace_id : String
  pub source_version : String

pub record ReplayFilterRequest : Type 0 where
  pub tenant_id : String
  pub stream_id : String
  pub correlation_id : String
  pub event_type : String
  pub actor_id : String
  pub from_time : String
  pub to_time : String
  pub event_ids : List String

pub record ReplayOptionsRequest : Type 0 where
  pub dry_run : Bool
  pub replay_reason : String
  pub safety_limit : ℤ

-- `ReplayRequest`
pub record ReplayBody : Type 0 where
  pub filter : ReplayFilterRequest
  pub options : ReplayOptionsRequest

pub record CreateTenantRequest : Type 0 where
  pub tenant_id : String
  pub subject_id : String
  pub roles : List String
  pub expires_in : ℤ

pub record EventResponse : Type 0 where
  pub id : String
  pub tenant_id : String
  pub stream_id : String
  pub type : String
  pub source : String
  pub version : ℤ
  pub event_version : ℤ
  pub occurred_at : Time
  pub correlation_id : String
  pub causation_id : String
  pub actor_id : String
  pub trace_id : String
  pub source_version : String
  pub payload : String
  pub metadata : Metadata
  pub is_replay : Bool
  pub replay_id : String
  pub replayed_at : Option Time
  pub replay_reason : String
  pub replay_source_event_id : String

-- `domainToEventResponse`
unfoldable pub domain_to_event_response : Event → EventResponse
domain_to_event_response e = record {
  id = e.id;
  tenant_id = e.tenant_id;
  stream_id = e.stream_id;
  type = e.type;
  source = e.source;
  version = e.version;
  event_version = e.event_version;
  occurred_at = e.occurred_at;
  correlation_id = e.correlation_id;
  causation_id = e.causation_id;
  actor_id = e.actor_id;
  trace_id = e.trace_id;
  source_version = e.source_version;
  payload = e.payload;
  metadata = e.metadata;
  is_replay = e.is_replay;
  replay_id = e.replay_id;
  replayed_at = e.replayed_at;
  replay_reason = e.replay_reason;
  replay_source_event_id = e.replay_source_event_id;
}

-- The pages that the four listings answer with.
pub record Page : Type 0 where
  pub events : List EventResponse
  pub total : ℤ
  pub limit : ℤ
  pub offset : ℤ

pub record TenantCredentials : Type 0 where
  pub tenant_id : String
  pub subject_id : String
  pub mode : String
  pub token : String
  pub expires_at : Option Time

-- `error_body` has a fixed text, `failure` the text of an error. The bodies of the listings carry
-- the read model, the stream, the source event, and the tenant with the window.
pub data Body : Type 0 where
  health_body : Body
  error_body : String → Body
  failure : Error → Body
  token_body : Identity → Body
  issued_token_body : String → Time → Identity → Body
  credentials_body : TenantCredentials → Body
  ingested_body : Event → Body
  event_body : EventResponse → Body
  list_body : String → Page → Body
  stream_body : String → String → Page → Body
  causation_body : String → Page → Body
  timeline_body : String → Time → Time → Page → Body
  replay_body : ReplayResult → List EventResponse → Body

pub record Response : Type 0 where
  pub status : ℕ
  pub headers : List (String × String)
  pub body : Body

abbrev pub Handler : Type 0 → Type 0
Handler S = HttpRequest → Context → S → Response × S

-- `writeJSON` and `writeError`, after the given headers were set.
abbrev pub write_json : ℕ → List (String × String) → Body → Response
write_json status headers body = record { status = status; headers = headers; body = body }

abbrev pub write_error : ℕ → List (String × String) → String → Response
write_error status headers message = write_json status headers (error_body message)

-- The library functions that the handlers call on text: `json.Decode` into the three request types,
-- `strconv.Atoi`, `time.Parse(time.RFC3339, …)`, `uuid.Parse`.
pub record Parsers : Type 0 where
  pub ingest_request : String → Option IngestRequest
  pub replay_request : String → Option ReplayBody
  pub issue_expires_in : String → ℤ
  pub tenant_request : String → Option CreateTenantRequest
  pub atoi : String → Option ℤ
  pub parse_time : String → Option Time
  pub parse_uuid : String → Option String

abbrev unless_negative : ℤ → Option ℤ → ℤ
unless_negative fallback none = fallback
unless_negative fallback (some n) = if ltb_ℤ n (pos 0) then fallback else n

-- `parseIntParam`
unfoldable pub parse_int_param : Parsers → HttpRequest → String → ℤ → ℤ
parse_int_param parsers r key fallback =
    let v = r.query key in if v == "" then fallback else unless_negative fallback (parsers.atoi v)

-- The correlation ID of a request: its header, else the request ID.
unfoldable pub correlation_of : HttpRequest → String
correlation_of r =
    let given = r.header "X-Correlation-ID" in if given == "" then r.request_id else given

-- `io.LimitReader`, which counts bytes. A character that the limit cuts is left out: a decoder that
-- reads as far finds no complete JSON value with it or without it.
unfoldable pub limit_reader : ℕ → String → String
limit_reader n String.[] = ""
limit_reader n (String.◌∷◌ c s) =
    let rest = limit_reader (n - len_utf8 c) s in
    if leb (len_utf8 c) n then String.◌∷◌ c rest else ""

abbrev pub page : List Event → ℤ → ℤ → ℤ → Page
page events total limit offset = record {
  events = map domain_to_event_response events;
  total = total;
  limit = limit;
  offset = offset;
}
