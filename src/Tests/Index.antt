-- ===== src/Tests/Index.antt =====
-- The theorem on the search index at a concrete input.
use nocturne_atlas_event_str.Prelude.{
  ltb, ℕ, ◌≤◌, String, ◌≡◌, false, Bool, true, Option, none, some, List, [], ◌∷◌, ◌==◌, eq_iff,
  arith, if◌then◌else◌, All, ◌&&◌, length, Bool-cases, inl, inr,
}
use nocturne_atlas_event_str.Prelude.Int.{ℤ, pos, pos_part}
use nocturne_atlas_event_str.Exec.{pure}
use nocturne_atlas_event_str.Domain.{Event}
use nocturne_atlas_event_str.Postgres.{Db}
use nocturne_atlas_event_str.Elastic.{SearchBody, EsResponse, Client, Codec, searcher}
use nocturne_atlas_event_str.Elastic.Laws.{field_of, Passes, PassesIfSome, Obeys, searcher-Searches}
use nocturne_atlas_event_str.Query.Scope.{Searches}
use nocturne_atlas_event_str.Tests.World.{created}

-- An index of one event.
abbrev decode : String → Option Event
decode source = if source == "a" then some created else none

abbrev is_match : List (String × String) → Bool
is_match [] = true
is_match ((field, v) ∷ filters) = field_of created field == v && is_match filters

is_match-Passes :
    (filters : List (String × String)) → is_match filters ≡ true → Passes filters created
is_match-Passes [] h = tt
is_match-Passes ((field, v) ∷ filters) h =
    (ground (arith, eq_iff (field_of created field) v), is_match-Passes filters (ground arith))

-- A body is "1" for the one hit, "0" for none.
abbrev is_hit : SearchBody → Bool
is_hit b = is_match b.filters && ltb 0 (pos_part b.size)

abbrev body_of : Bool → String
body_of true = "1"
body_of false = "0"

abbrev codec : Codec
codec = record {
  marshal = λ e. e.id;
  unmarshal = decode;
  decode_response = λ body. some (if body == "1" then "a" ∷ [] else [], pos 0);
}

abbrev answer : String → EsResponse
answer body = record { status_code = 200; status = "200 OK"; is_error = false; body = body }

abbrev one_document : Client Db
one_document = record {
  index_request = λ id source. pure (answer "");
  search_index = λ b. pure (answer (body_of (is_hit b)));
}

same_hits :
    (b : Bool) {hits : List String} {total : ℤ}
    → codec.decode_response (body_of b) ≡ some (hits, total)
    → hits ≡ (if b then "a" ∷ [] else [])
same_hits true e = cc
same_hits false e = cc

hits_lem :
    (b : SearchBody) (n : ℕ)
    → b.size ≡ pos n
    → let hits : List String = if is_hit b then "a" ∷ [] else [] in
      All (λ h. PassesIfSome b.filters (decode h)) hits × (length hits ≤ n)
hits_lem b n sized = elim (Bool-cases (is_hit b)) [
  | inl hit ↦
      let matches : is_match b.filters ≡ true = ground arith in
      rw hit ((is_match-Passes b.filters matches, tt), ground arith)
  | inr miss ↦ rw miss (tt, omega arith)
]

one_document-Obeys : Obeys one_document codec
one_document-Obeys = record {
  hits_pass = λ b n s s1 res hits total e fine decoded sized.
      let same : body_of (is_hit b) ≡ res.body = cc in
      rw (same_hits (is_hit b) (rw (← same) at decoded)) (hits_lem b n sized);
}

searcher-Searches_example : Searches (searcher one_document codec)
searcher-Searches_example = searcher-Searches one_document codec one_document-Obeys
