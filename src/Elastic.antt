-- ===== src/Elastic.antt =====
-- internal/infrastructure/elasticsearch/indexer.go: indexing a document and searching. The client's
-- calls and the JSON encodings are parameters. `NewIndexer` is in Elastic.Startup.
pub mod Laws
pub mod Startup
use Prim.Native.String
use nocturne_atlas_event_str.Prelude.{
  ℕ, String, Bool, true, not, Option, none, some, List, [], ◌∷◌, ◌++◌, ◌==◌, if◌then◌else◌,
}
use nocturne_atlas_event_str.Prelude.Int.{ℤ}
use nocturne_atlas_event_str.Exec.{
  Error, text, Result, ok, err, Exec, lift, or_wrap, raise, raise_if, pure, ◌>>=◌, ◌>>◌,
}
use nocturne_atlas_event_str.Domain.{Event, SearchQuery, Context, Indexer, Searcher}

-- The body of a search: term filters (none of them is `match_all`), the sort keys with their order,
-- and the page.
pub record SearchBody : Type 0 where
  pub filters : List (String × String)
  pub sort : List (String × String)
  pub from : ℤ
  pub size : ℤ
  pub track_total_hits : Bool

abbrev pub term_if : String → String → List (String × String)
term_if field value = if not (value == "") then (field, value) ∷ [] else []

unfoldable pub filters_of : SearchQuery → List (String × String)
filters_of q = term_if "stream_id" q.stream_id ++ term_if "tenant_id" q.tenant_id

unfoldable pub sort_of : Bool → List (String × String)
sort_of newest_first =
    if newest_first
    then ("occurred_at", "desc") ∷ ("id", "desc") ∷ []
    else ("version", "asc") ∷ ("id", "asc") ∷ []

unfoldable pub search_body : SearchQuery → SearchBody
search_body q = record {
  filters = filters_of q;
  sort = sort_of q.sort_by_occurred_at_desc;
  from = q.offset;
  size = q.limit;
  track_total_hits = true;
}

-- An answer of Elasticsearch (`esapi.Response`), with what `IsError` says of it.
pub record EsResponse : Type 0 where
  pub status_code : ℕ
  pub status : String
  pub is_error : Bool
  pub body : String

-- The error of an answer that is one: `fmt.Errorf("label [%s]: %s", res.Status(), b)`.
abbrev pub status_error : String → EsResponse → Error
status_error label res =
    text
      (String.◌++◌ label (String.◌++◌ " [" (String.◌++◌ res.status (String.◌++◌ "]: " res.body))))

-- What the program calls of the Elasticsearch client on its index, over a state. `index_request`
-- creates or overwrites the document with an ID.
pub record Client (S : Type 0) : Type 0 where
  pub index_request : String → String → Exec S EsResponse
  pub search_index : SearchBody → Exec S EsResponse

-- The JSON of an event, and of the answer to a search: the sources of the hits and their total.
pub record Codec : Type 0 where
  pub marshal : Event → String
  pub unmarshal : String → Option Event
  pub decode_response : String → Option (List String × ℤ)

abbrev pub cons_ok : Event → Result (List Event) → Result (List Event)
cons_ok e (ok es) = ok (e ∷ es)
cons_ok e (err x) = err x

-- The loop over the hits; it stops at a source that cannot be decoded.
unfoldable pub decode_hits : (String → Option Event) → List String → Result (List Event)
decode_hits unmarshal [] = ok []
decode_hits unmarshal (h ∷ hits) =
    let rest = decode_hits unmarshal hits in
    elim (unmarshal h) [ none ↦ err (text "unmarshal event source") | some e ↦ cons_ok e rest ]

module _ {S : Type 0} (client : Client S) (codec : Codec) where
  -- `Index`
  unfoldable pub index : Context → Event → Exec S (Unit {0})
  index ctx e = do
    res ← or_wrap "elasticsearch request" (client.index_request e.id (codec.marshal e))
    raise_if res.is_error (status_error "elasticsearch" res)

  abbrev pub with_hits : Option (List String × ℤ) → Exec S (List Event × ℤ)
  with_hits none = raise (text "decode search response")
  with_hits (some (hits, total)) = do
    events ← lift (decode_hits codec.unmarshal hits)
    pure (events, total)

  abbrev pub with_response : EsResponse → Exec S (List Event × ℤ)
  with_response res = do
    raise_if res.is_error (status_error "elasticsearch search" res)
    with_hits (codec.decode_response res.body)

  -- `Search`
  unfoldable pub search : Context → SearchQuery → Exec S (List Event × ℤ)
  search ctx q =
      or_wrap "elasticsearch search request" (client.search_index (search_body q)) >>= with_response

  abbrev pub indexer : Indexer S
  indexer = record { index = index }

  abbrev pub searcher : Searcher S
  searcher = record { search = search }
