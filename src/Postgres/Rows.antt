-- ===== src/Postgres/Rows.antt =====
-- How internal/infrastructure/postgres/store.go writes an event into a row of the table events and
-- reads it back: the columns and arguments of the INSERT of `Append`, `selectCols`, `scanEvent` and
-- `scanEventWithTotal`. The JSON encoding of the metadata is a parameter, and so is what PostgreSQL
-- keeps of a JSON text in a JSONB column and of a time in a TIMESTAMPTZ column: an event's times are
-- here those in the program's memory, which may be more precise than the column's.
use mathlib.Core.Option
use nocturne_atlas_event_str.Prelude.{
  String, ◌≡◌, Bool, Option, none, some, List, [], ◌∷◌, ◌++◌, ◌==◌, ap, refl, ◌∙◌, if◌then◌else◌,
}
use nocturne_atlas_event_str.Prelude.Int.{ℤ}
use nocturne_atlas_event_str.Exec.{Result, ok, err}
use nocturne_atlas_event_str.Exec
use nocturne_atlas_event_str.Domain.{Event, Time, Metadata}

-- A value of a column or an argument of a statement; `json` is the text of a JSONB value.
pub data SqlValue : Type 0 where
  text : String → SqlValue
  json : String → SqlValue
  int : ℤ → SqlValue
  bool : Bool → SqlValue
  timestamp : Option Time → SqlValue

-- A row: the values of its columns, by name.
abbrev pub Row : Type 0
Row = List (String × SqlValue)

-- The columns that the INSERT names.
abbrev pub insert_columns : List String
insert_columns =
    "id" ∷ "tenant_id" ∷ "stream_id" ∷ "type" ∷ "source" ∷ "version" ∷ "event_version"
    ∷ "occurred_at" ∷ "payload" ∷ "metadata" ∷ "correlation_id" ∷ "causation_id" ∷ "actor_id"
    ∷ "trace_id" ∷ "source_version" ∷ "is_replay" ∷ "replay_id" ∷ "replayed_at" ∷ "replay_reason"
    ∷ "replay_source_event_id" ∷ []

-- `selectCols`
abbrev pub select_cols : List String
select_cols =
    "id" ∷ "tenant_id" ∷ "stream_id" ∷ "type" ∷ "source" ∷ "version" ∷ "event_version"
    ∷ "occurred_at" ∷ "payload" ∷ "metadata" ∷ "correlation_id" ∷ "causation_id" ∷ "actor_id"
    ∷ "trace_id" ∷ "source_version" ∷ "is_replay" ∷ "replay_id" ∷ "replayed_at" ∷ "replay_reason"
    ∷ "replay_source_event_id" ∷ []

-- The arguments $1 to $19, with the metadata's JSON.
unfoldable pub insert_args : String → Event → List SqlValue
insert_args meta e =
    text e.id
    ∷ text e.tenant_id
    ∷ text e.stream_id
    ∷ text e.type
    ∷ text e.source
    ∷ int e.event_version
    ∷ timestamp (some e.occurred_at)
    ∷ json e.payload
    ∷ json meta
    ∷ text e.correlation_id
    ∷ text e.causation_id
    ∷ text e.actor_id
    ∷ text e.trace_id
    ∷ text e.source_version
    ∷ bool e.is_replay
    ∷ text e.replay_id
    ∷ timestamp e.replayed_at
    ∷ text e.replay_reason
    ∷ text e.replay_source_event_id
    ∷ []

-- The VALUES list: five arguments, the version of the subselect, the other arguments.
unfoldable pub insert_values : ℤ → List SqlValue → List SqlValue
insert_values version (a ∷ b ∷ c ∷ d ∷ e ∷ args) = a ∷ b ∷ c ∷ d ∷ e ∷ int version ∷ args
insert_values version args = args

abbrev pub zip_columns : List String → List SqlValue → Row
zip_columns (c ∷ columns) (v ∷ values) = (c, v) ∷ zip_columns columns values
zip_columns _ _ = []

-- The row that the INSERT gives to the table.
unfoldable pub inserted_row : ℤ → List SqlValue → Row
inserted_row version args = zip_columns insert_columns (insert_values version args)

module _ (jsonb : String → String) (timestamptz : Time → Time) where
  -- What a column of the value's type keeps of it.
  unfoldable pub kept : SqlValue → SqlValue
  kept (json s) = json (jsonb s)
  kept (timestamp (some t)) = timestamp (some (timestamptz t))
  kept v = v

  -- The row that the table holds then.
  unfoldable pub stored_row : Row → Row
  stored_row [] = []
  stored_row ((c, v) ∷ row) = (c, kept v) ∷ stored_row row

  -- An event with the version that the database gave it, as the columns keep it.
  abbrev pub kept_event : ℤ → Event → Event
  kept_event version e = record e {
    version = version;
    payload = jsonb e.payload;
    occurred_at = timestamptz e.occurred_at;
    replayed_at = Option.map timestamptz e.replayed_at;
  }

abbrev pub value_of : String → Row → List SqlValue
value_of column [] = []
value_of column ((c, v) ∷ row) = if c == column then v ∷ [] else value_of column row

-- The values that a SELECT of some columns gives for a row.
unfoldable pub select_values : List String → Row → List SqlValue
select_values [] row = []
select_values (c ∷ columns) row = joined (value_of c row) (select_values columns row)
  where
    joined : List SqlValue → List SqlValue → List SqlValue
    joined [] rest = rest
    joined (v ∷ _) rest = v ∷ rest

-- What is made of scanned values with the decoded metadata.
abbrev with_metadata : {A : Type 0} → Option Metadata → (Metadata → A) → Result A
with_metadata none made = err (Exec.text "unmarshal metadata")
with_metadata (some m) made = ok (made m)

-- `scanEvent`
unfoldable pub scan_event : (String → Option Metadata) → List SqlValue → Result Event
scan_event unmarshal
      (text id
        ∷ text tenant_id
        ∷ text stream_id
        ∷ text type
        ∷ text source
        ∷ int version
        ∷ int event_version
        ∷ timestamp (some occurred_at)
        ∷ json payload
        ∷ json meta
        ∷ text correlation_id
        ∷ text causation_id
        ∷ text actor_id
        ∷ text trace_id
        ∷ text source_version
        ∷ bool is_replay
        ∷ text replay_id
        ∷ timestamp replayed_at
        ∷ text replay_reason
        ∷ text replay_source_event_id
        ∷ []) =
    with_metadata (unmarshal meta) (λ metadata. record {
      id = id;
      tenant_id = tenant_id;
      stream_id = stream_id;
      type = type;
      source = source;
      version = version;
      event_version = event_version;
      occurred_at = occurred_at;
      correlation_id = correlation_id;
      causation_id = causation_id;
      actor_id = actor_id;
      trace_id = trace_id;
      source_version = source_version;
      is_replay = is_replay;
      replay_id = replay_id;
      replayed_at = replayed_at;
      replay_reason = replay_reason;
      replay_source_event_id = replay_source_event_id;
      payload = payload;
      metadata = metadata;
    })
scan_event unmarshal _ = err (Exec.text "scan event")

-- `scanEventWithTotal`
unfoldable pub scan_event_with_total :
    (String → Option Metadata) → List SqlValue → Result (Event × ℤ)
scan_event_with_total unmarshal
      (text id
        ∷ text tenant_id
        ∷ text stream_id
        ∷ text type
        ∷ text source
        ∷ int version
        ∷ int event_version
        ∷ timestamp (some occurred_at)
        ∷ json payload
        ∷ json meta
        ∷ text correlation_id
        ∷ text causation_id
        ∷ text actor_id
        ∷ text trace_id
        ∷ text source_version
        ∷ bool is_replay
        ∷ text replay_id
        ∷ timestamp replayed_at
        ∷ text replay_reason
        ∷ text replay_source_event_id
        ∷ int total
        ∷ []) =
    with_metadata (unmarshal meta) (λ metadata. (
      record {
        id = id;
        tenant_id = tenant_id;
        stream_id = stream_id;
        type = type;
        source = source;
        version = version;
        event_version = event_version;
        occurred_at = occurred_at;
        correlation_id = correlation_id;
        causation_id = causation_id;
        actor_id = actor_id;
        trace_id = trace_id;
        source_version = source_version;
        is_replay = is_replay;
        replay_id = replay_id;
        replayed_at = replayed_at;
        replay_reason = replay_reason;
        replay_source_event_id = replay_source_event_id;
        payload = payload;
        metadata = metadata;
      },
      total,
    ))
scan_event_with_total unmarshal _ = err (Exec.text "scan event with total")

kept_timestamp :
    (jsonb : String → String) (timestamptz : Time → Time) (o : Option Time)
    → kept jsonb timestamptz (timestamp o) ≡ timestamp (Option.map timestamptz o)
unfolding kept
kept_timestamp jsonb timestamptz none = refl
kept_timestamp jsonb timestamptz (some t) = refl

-- PostgreSQL's JSONB keeps the value of the metadata's JSON text, and the text encodes the
-- metadata: then the row that is stored for an event is scanned, with and without the total of a
-- listing, as the event with the version that the database gave it, its payload as JSONB renders
-- it, its times as TIMESTAMPTZ keeps them, and everything else as it was.
pub scan_event-stored_row :
    (jsonb : String → String) (timestamptz : Time → Time) (marshal : Metadata → String)
    (unmarshal : String → Option Metadata) (e : Event) (version total : ℤ)
    → unmarshal (jsonb (marshal e.metadata)) ≡ unmarshal (marshal e.metadata)
    → unmarshal (marshal e.metadata) ≡ some e.metadata
    → let row = inserted_row version (insert_args (marshal e.metadata) e) in
      let values = select_values select_cols (stored_row jsonb timestamptz row) in
      let scanned = kept_event jsonb timestamptz version e in
      (scan_event unmarshal values ≡ ok scanned)
      × (scan_event_with_total unmarshal (values ++ int total ∷ []) ≡ ok (scanned, total))
unfolding scan_event scan_event_with_total select_values inserted_row insert_values insert_args kept
    stored_row
scan_event-stored_row jsonb timestamptz marshal unmarshal e version total same encoded =
    let event : Metadata → Event =
      λ m. record (kept_event jsonb timestamptz version e) { metadata = m } in
    rw (kept_timestamp jsonb timestamptz e.replayed_at) (
      ap (λ (o : Option Metadata). with_metadata o event) (same ∙ encoded),
      ap (λ (o : Option Metadata). with_metadata o (λ m. (event m, total))) (same ∙ encoded),
    )
