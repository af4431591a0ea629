-- ===== src/Domain/Events.antt =====
-- internal/domain/event/event.go, and the parameter types of repository.go. A UUID is its canonical
-- text. A point in time is the number of microseconds, the precision of TIMESTAMPTZ, from Go's zero
-- time.
use nocturne_atlas_event_str.Prelude.{
  String, Bool, Option, none, some, List, [], ◌==◌, if◌then◌else◌,
}
use nocturne_atlas_event_str.Prelude.Int.{ℤ, pos, eqb_ℤ}
use nocturne_atlas_event_str.Prelude.Dict.{Dict}

abbrev pub Time : Type 0
Time = ℤ

-- `t.IsZero()`
abbrev pub is_zero : Time → Bool
is_zero t = eqb_ℤ t (pos 0)

abbrev pub Metadata : Type 0
Metadata = Dict String

pub record Event : Type 0 where
  pub id : String
  pub tenant_id : String
  pub stream_id : String
  pub type : String
  pub source : String
  pub version : ℤ
  pub event_version : ℤ
  pub occurred_at : Time
  pub correlation_id : String
  pub causation_id : String
  pub actor_id : String
  pub trace_id : String
  pub source_version : String
  pub is_replay : Bool
  pub replay_id : String
  pub replayed_at : Option Time
  pub replay_reason : String
  pub replay_source_event_id : String
  pub payload : String
  pub metadata : Metadata

-- `nil` metadata becomes an empty map.
abbrev pub or_empty : Option Metadata → Metadata
or_empty none = []
or_empty (some m) = m

-- `New`; the fresh UUID and the time are arguments.
unfoldable pub new_event :
    String → Time → String → String → String → String → String → Option Metadata → Event
new_event id now stream_id type source correlation_id payload metadata = record {
  id = id;
  tenant_id = "";
  stream_id = stream_id;
  type = type;
  source = source;
  version = pos 0;
  event_version = pos 1;
  occurred_at = now;
  correlation_id = correlation_id;
  causation_id = "";
  actor_id = "";
  trace_id = "";
  source_version = "";
  is_replay = Bool.false;
  replay_id = "";
  replayed_at = none;
  replay_reason = "";
  replay_source_event_id = "";
  payload = if payload == "" then "null" else payload;
  metadata = or_empty metadata;
}

-- The store writes the version that it assigned back onto the event.
abbrev pub set_version : Event → ℤ → Event
set_version e v = record e { version = v }

pub record ReplayFilter : Type 0 where
  pub tenant_id : String
  pub stream_id : String
  pub correlation_id : String
  pub event_type : String
  pub actor_id : String
  pub from_time : Time
  pub to_time : Time
  pub event_ids : List String

pub record SearchQuery : Type 0 where
  pub tenant_id : String
  pub stream_id : String
  pub limit : ℤ
  pub offset : ℤ
  pub sort_by_occurred_at_desc : Bool
