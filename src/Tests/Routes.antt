-- ===== src/Tests/Routes.antt =====
-- The theorems on whole routes at concrete inputs.
use nocturne_atlas_event_str.Prelude.{refl, none, some, false, [], ◌==◌, if◌then◌else◌}
use nocturne_atlas_event_str.Prelude.Int.{pos}
use nocturne_atlas_event_str.Exec.{text, ok, err}
use nocturne_atlas_event_str.Domain.{background}
use nocturne_atlas_event_str.Auth.{Authenticator}
use nocturne_atlas_event_str.Postgres.{Db, event_store}
use nocturne_atlas_event_str.Query.Exact.{event_store-Listings}
use nocturne_atlas_event_str.Http.Messages.{HttpRequest, ReplayBody, Parsers}
use nocturne_atlas_event_str.Http.Routes.{get_events, post_replay, serve}
use nocturne_atlas_event_str.Http.Isolation.{Apart, serve_isolated}
use nocturne_atlas_event_str.Http.Replaying.{Replayed, post_replay_replays}
use nocturne_atlas_event_str.Tests.World.{world, broken, world-Contracts, alice, table}
use nocturne_atlas_event_str.Tests.Services.{index, index-Searches}
use nocturne_atlas_event_str.Tests.Api

-- Alice's key is the only one.
abbrev only_alice : Authenticator Db
only_alice = record {
  authenticate =
      λ header db. (if header "X-API-Key" == "k1" then ok alice else err (text "unknown key"), db);
}

abbrev asking : HttpRequest
asking = record {
  header = λ name. if name == "X-API-Key" then "k1" else "";
  query = λ name. "";
  param = "";
  request_id = "req-3";
  body = "again";
}

abbrev again_body : ReplayBody
again_body = record {
  filter = record {
    tenant_id = "acme";
    stream_id = "";
    correlation_id = "";
    event_type = "";
    actor_id = "";
    from_time = "";
    to_time = "";
    event_ids = [];
  };
  options = record { dry_run = false; replay_reason = "again"; safety_limit = pos 10 };
}

abbrev parsers : Parsers
parsers = record Api.parsers {
  replay_request = λ s. if s == "again" then some again_body else none;
}

serve_isolated_example :
    let (resp, db) =
      serve parsers world event_store broken index only_alice none "admin" get_events asking
        background table in
    Apart parsers event_store index event_store-Listings index-Searches only_alice asking table resp
serve_isolated_example =
    serve_isolated parsers world event_store broken index only_alice none "admin"
      event_store-Listings index-Searches get_events asking background table refl

post_replay_replays_example :
    let (resp, db) =
      serve parsers world event_store broken index only_alice none "admin" post_replay asking
        background table in
    Replayed parsers world event_store broken
      (λ db. db.rows)
      world-Contracts
      only_alice
      asking
      background
      table
      resp
      db
post_replay_replays_example =
    post_replay_replays parsers world event_store broken index only_alice none "admin"
      (λ db. db.rows) world-Contracts asking background table
