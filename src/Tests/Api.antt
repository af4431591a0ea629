-- ===== src/Tests/Api.antt =====
-- The theorems on authentication, the HTTP and gRPC interfaces at concrete inputs.
use nocturne_atlas_event_str.Prelude.{
  ℕ, ◌*◌, ◌≤◌, String, ◌≡◌, ◌≢◌, refl, none, some, [], ◌∷◌, ◌==◌, eq_iff, arith, if◌then◌else◌,
  Bool-cases, inl, inr,
}
use Prim.Native.String
use nocturne_atlas_event_str.Prelude.Int.{pos}
use nocturne_atlas_event_str.Exec.{Error, text, ok, pure}
use nocturne_atlas_event_str.Domain.{background, identity_from_context, tenant_of, Searcher}
use nocturne_atlas_event_str.Postgres.{Db, event_store}
use nocturne_atlas_event_str.Auth.{
  Headers, IssueCommand, IssuedToken, check_key, simple_authenticator, build_authenticator,
  check_bearer, issue,
}
use nocturne_atlas_event_str.Auth.Laws.{Accepted, authenticate_accepts}
use nocturne_atlas_event_str.Auth.Tokens.{check_bearer-issue}
use nocturne_atlas_event_str.Http.Messages.{HttpRequest, IngestRequest, Parsers, write_error}
use nocturne_atlas_event_str.Http.Routes.{get_stream_events, post_event, post_replay, serve, router}
use nocturne_atlas_event_str.Http.Refusals.{serve_refused, get_stream_events_fails}
use nocturne_atlas_event_str.Http.Credentials.{issue_lifetime, tenant_lifetime}
use nocturne_atlas_event_str.Http.Lifetimes.{Within, lifetimes_bounded}
use nocturne_atlas_event_str.Http.Recording.{Posted, post_event_records}
use nocturne_atlas_event_str.Grpc
use nocturne_atlas_event_str.Grpc.{ReplayCall, data_loss}
use nocturne_atlas_event_str.Grpc.Laws.{Answered, replay-Answered}
use nocturne_atlas_event_str.Tests.World.{world, broken, world-Contracts, alice, as_alice, table}
use nocturne_atlas_event_str.Tests.Jwt.{open_jwt, open_jwt-JwtWorks, spell_all}

-- The headers of a request with an API key.
abbrev keyed : String → Headers
keyed key name = if name == "X-API-Key" then key else ""

authenticate_accepts_example :
    let (r, db) = (simple_authenticator "k1").authenticate (keyed "k1") table in
    Accepted world.now open_jwt "simple" "" "k1" (keyed "k1") table r db
authenticate_accepts_example =
    authenticate_accepts world.now open_jwt "simple" "" "k1" (simple_authenticator "k1") built
      (keyed "k1") table
  where
    built :
        build_authenticator world.now open_jwt "simple" "" "k1" ≡ some (simple_authenticator "k1")
    built = unfold build_authenticator in refl

abbrev for_alice : IssueCommand
for_alice = record { identity = alice; expires_in = pos 60000000000 }

abbrev token_of_alice : IssuedToken
token_of_alice = record { token = spell_all ("alice" ∷ "acme" ∷ []); expires_at = pos 60005000 }

issued_to_alice : issue world.now open_jwt "secret" for_alice table ≡ (ok token_of_alice, table)
unfolding issue
issued_to_alice = refl

check_bearer-issue_example :
    (check_bearer world.now open_jwt "secret" (String.◌++◌ "Bearer " token_of_alice.token) table).0
    ≡ ok alice
check_bearer-issue_example =
    check_bearer-issue world.now open_jwt open_jwt-JwtWorks "secret" for_alice table table table
      token_of_alice (λ e. ground (arith, eq_iff "alice" ""))
      (λ e. ground (arith, eq_iff "acme" "")) issued_to_alice refl

abbrev pub wanted : IngestRequest
wanted = record {
  stream_id = "order:1";
  type = "paid";
  source = "shop";
  payload = "{}";
  metadata = none;
  event_version = pos 0;
  causation_id = "a";
  actor_id = "";
  trace_id = "";
  source_version = "";
}

abbrev pub parsers : Parsers
parsers = record {
  ingest_request = λ s. if s == "paid" then some wanted else none;
  replay_request = λ s. none;
  issue_expires_in = λ s. pos 0;
  tenant_request = λ s. none;
  atoi = λ s. none;
  parse_time = λ s. none;
  parse_uuid = λ s. some s;
}

abbrev posting : String → HttpRequest
posting key = record {
  header = keyed key;
  query = λ name. "";
  param = "order:1";
  request_id = "req-1";
  body = "paid";
}

abbrev nothing_found : Searcher Db
nothing_found = record { search = λ ctx q. pure ([], pos 0) }

check_key-rows : (key : String) (db : Db) → (check_key "k1" key db).1.rows ≡ db.rows
unfolding check_key
check_key-rows key db = elim (Bool-cases (key == "")) [
  | inl absent ↦ rw absent
  | inr given ↦ elim (Bool-cases (key == "k1")) [
    | inl same ↦ rw (given, same)
    | inr other ↦ rw (given, other)
  ]
]

post_event_records_example :
    let (resp, db) =
      serve parsers world event_store broken nothing_found
        (simple_authenticator "k1")
        none
        "admin"
        post_event
        (posting "k1")
        background
        table in
    Posted parsers world event_store broken
      (λ db. db.rows)
      world-Contracts
      (simple_authenticator "k1")
      (posting "k1")
      background
      table
      resp
      db
post_event_records_example =
    post_event_records parsers world event_store broken nothing_found (simple_authenticator "k1")
      none "admin" (λ db. db.rows) world-Contracts
      (λ header db. check_key-rows (header "X-API-Key") db) (posting "k1") background table

serve_refused_example :
    serve parsers world event_store broken nothing_found
      (simple_authenticator "k1")
      none
      "admin"
      post_replay
      (posting "k2")
      background
      table
    ≡ (write_error 401 [] "unauthorized", table)
serve_refused_example =
    serve_refused parsers world event_store broken nothing_found (simple_authenticator "k1") none
      "admin" post_replay (posting "k2") background table table (text "invalid API key") refl
      (unfold check_key in refl)

get_stream_events_fails_example :
    (router parsers world event_store broken nothing_found
      (simple_authenticator "k1")
      none
      "admin"
      world.new_uuid
      world.new_uuid
      get_stream_events
      (posting "k1")
      table).0.status
    ≡ 500
get_stream_events_fails_example =
    get_stream_events_fails parsers world event_store broken nothing_found
      (simple_authenticator "k1") none "admin" world.new_uuid world.new_uuid (posting "k1") table

lifetimes_bounded_example :
    Within (pos 86400000000000) (issue_lifetime (pos 9223372037))
    × Within (pos 2592000000000000) (tenant_lifetime (pos 9223372037))
    × ((m : ℕ)
        → pos 9223372037 ≡ pos m
        → 1 ≤ m
        → m ≤ 86400
        → issue_lifetime (pos 9223372037) ≡ pos (m * 1000000000))
    × ((m : ℕ)
        → pos 9223372037 ≡ pos m
        → 1 ≤ m
        → m ≤ 2592000
        → tenant_lifetime (pos 9223372037) ≡ pos (m * 1000000000))
lifetimes_bounded_example = lifetimes_bounded (pos 9223372037)

abbrev pub whole_stream : ReplayCall
whole_stream = record { stream_id = "order:1"; from_version = pos 0; correlation_ids = "c" ∷ [] }

replay-Answered_example :
    (let (a, db) = Grpc.replay event_store as_alice whole_stream table in
      Answered event_store as_alice whole_stream table a db)
    × (tenant_of (identity_from_context as_alice) ≡ none
        → whole_stream.stream_id ≢ ""
        → (e : Error) × (Grpc.replay event_store as_alice whole_stream table
            ≡ (data_loss e, table)))
replay-Answered_example = replay-Answered event_store as_alice whole_stream table
