-- ===== src/Elastic/Laws.antt =====
-- The search of internal/infrastructure/elasticsearch/indexer.go keeps to what the query service
-- relies on.
use nocturne_atlas_event_str.Prelude.{
  ℕ, suc, ◌≤◌, String, ◌≡◌, refl, ◌≢◌, ◌⊎◌, true, false, Option, none, some, List, [], ◌∷◌, ◌==◌,
  eq_iff, arith, All, length, Bool-cases, inl, inr, if◌then◌else◌,
}
use nocturne_atlas_event_str.Prelude.Int.{ℤ, pos}
use nocturne_atlas_event_str.Exec.{text, Result, ok, err, lift, or_wrap, pure, ◌>>=◌}
use nocturne_atlas_event_str.Exec.Rules.{after, after_guard, or_wrap-eq-ok}
use nocturne_atlas_event_str.Domain.{Event, SearchQuery, Context}
use nocturne_atlas_event_str.Query.Scope.{Searches, PageOf}
use nocturne_atlas_event_str.Elastic.{
  SearchBody, EsResponse, status_error, filters_of, search_body, Client, Codec, cons_ok,
  decode_hits, search, with_hits, with_response, searcher,
}

-- The keyword fields that the program filters by.
abbrev pub field_of : Event → String → String
field_of e field =
    if field == "tenant_id" then e.tenant_id else if field == "stream_id" then e.stream_id else ""

-- The event has the value of each filter.
abbrev pub Passes : List (String × String) → Event → Type 0
Passes filters e = All (λ f. field_of e f.0 ≡ f.1) filters

abbrev pub PassesIfSome : List (String × String) → Option Event → Type 0
PassesIfSome filters none = Unit
PassesIfSome filters (some e) = Passes filters e

-- Elasticsearch applies every term filter to every hit, and returns no more hits than the size.
pub record Obeys {S : Type 0} (client : Client S) (codec : Codec) : Type 0 where
  pub hits_pass :
      (b : SearchBody) (n : ℕ) (s s1 : S) (res : EsResponse) (hits : List String) (total : ℤ)
      → client.search_index b s ≡ (ok res, s1)
      → res.is_error ≡ false
      → codec.decode_response res.body ≡ some (hits, total)
      → b.size ≡ pos n
      → All (λ h. PassesIfSome b.filters (codec.unmarshal h)) hits × (length hits ≤ n)

Passes-tenant :
    (q : SearchQuery) (e : Event)
    → q.tenant_id ≢ ""
    → Passes (filters_of q) e
    → e.tenant_id ≡ q.tenant_id
unfolding filters_of
Passes-tenant q e named h = go (Bool-cases (q.stream_id == "")) (Bool-cases (q.tenant_id == ""))
  where
    go :
        ((q.stream_id == "") ≡ true) ⊎ ((q.stream_id == "") ≡ false)
        → ((q.tenant_id == "") ≡ true) ⊎ ((q.tenant_id == "") ≡ false)
        → e.tenant_id ≡ q.tenant_id
    go a (inl empty) = absurd (named ((eq_iff q.tenant_id "").0 empty))
    go (inl all) (inr given) = let k = rw (all, given) at h in k.0
    go (inr one) (inr given) = let k = rw (one, given) at h in k.1.0

-- Events of the tenant, no more than `k`.
abbrev Decoded : String → ℕ → Result (List Event) → Type 0
Decoded t k (ok es) = All (λ e. e.tenant_id ≡ t) es × (length es ≤ k)
Decoded t k (err _) = Unit

decode_hits_lem :
    (unmarshal : String → Option Event) (t : String) (filters : List (String × String))
    → ((e : Event) → Passes filters e → e.tenant_id ≡ t)
    → (hits : List String) → All (λ h. PassesIfSome filters (unmarshal h)) hits
    → Decoded t (length hits) (decode_hits unmarshal hits)
unfolding decode_hits
decode_hits_lem unmarshal t filters own [] h = (tt, omega arith)
decode_hits_lem unmarshal t filters own (x ∷ hits) (p, h) =
    go (unmarshal x) p (decode_hits unmarshal hits) (decode_hits_lem unmarshal t filters own hits h)
  where
    go :
        (o : Option Event)
        → PassesIfSome filters o
        → (rest : Result (List Event)) → Decoded t (length hits) rest
        → Decoded t
            (suc (length hits))
            (elim o [ none ↦ err (text "unmarshal event source") | some e ↦ cons_ok e rest ])
    go none q rest k = tt
    go (some e) q (ok es) (all, short) = ((own e q, all), omega (arith, short))
    go (some e) q (err y) k = tt

module _ {S : Type 0} (client : Client S) (codec : Codec) (obeys : Obeys client codec) where
  decoded_lem :
      (t : String) (n k : ℕ) (total : ℤ) (r : Result (List Event)) (s : S)
      → k ≤ n
      → Decoded t k r
      → PageOf t n ((lift r >>= λ events. pure (events, total)) s).0
  decoded_lem t n k total (ok es) s le (all, short) = (all, omega (arith, le, short))
  decoded_lem t n k total (err x) s le h = tt

  with_hits_lem :
      (q : SearchQuery) (n : ℕ) (found : Option (List String × ℤ)) (s : S)
      → q.tenant_id ≢ ""
      → ((hits : List String) (total : ℤ)
          → found ≡ some (hits, total)
          → All (λ h. PassesIfSome (filters_of q) (codec.unmarshal h)) hits × (length hits ≤ n))
      → PageOf q.tenant_id n (with_hits client codec found s).0
  with_hits_lem q n none s named pass = tt
  with_hits_lem q n (some (hits, total)) s named pass =
      let (all, short) = pass hits total refl in
      decoded_lem q.tenant_id n (length hits) total (decode_hits codec.unmarshal hits) s short (
        decode_hits_lem codec.unmarshal q.tenant_id (filters_of q) (λ ev. Passes-tenant q ev named)
          hits all)

  search_lem :
      (ctx : Context) (q : SearchQuery) (n : ℕ) (s : S)
      → q.tenant_id ≢ ""
      → q.limit ≡ pos n
      → PageOf q.tenant_id n (search client codec ctx q s).0
  unfolding search search_body
  search_lem ctx q n s named sized =
      let find = client.search_index (search_body q) in
      after (λ r s1. PageOf q.tenant_id n r) (or_wrap "elasticsearch search request" find)
        (with_response client codec) s
        (λ res s1 e.
          after_guard (λ r s2. PageOf q.tenant_id n r) (status_error "elasticsearch search" res)
            (with_hits client codec (codec.decode_response res.body)) s1 res.is_error (λ failed. tt)
            (λ fine.
              with_hits_lem q n (codec.decode_response res.body) s1 named λ hits total decoded.
                obeys.hits_pass (search_body q) n s s1 res hits total
                  (or_wrap-eq-ok "elasticsearch search request" find s e) fine decoded sized))
        (λ x s1 e. tt)

-- With an Elasticsearch that applies every term filter of a request and returns no more hits than
-- its size, the search of a tenant returns events of that tenant only and no more than the limit,
-- which is what the query service relies on.
pub searcher-Searches :
    {S : Type 0} (client : Client S) (codec : Codec) (obeys : Obeys client codec)
    → Searches (searcher client codec)
searcher-Searches client codec obeys = record { search_law = search_lem client codec obeys }
