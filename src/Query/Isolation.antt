-- ===== src/Query/Isolation.antt =====
-- Tenant isolation of internal/application/query/service.go, over any store and search index.
use nocturne_atlas_event_str.Prelude.{
  String, ◌≡◌, refl, true, false, some, ◌==◌, eq_iff, arith, Bool-cases, inl, inr,
}
use nocturne_atlas_event_str.Exec.{text, Result, ok, err, attempt, lift, raise_if, ◌>>=◌, ◌>>◌}
use nocturne_atlas_event_str.Exec.Rules.{after_guard}
use nocturne_atlas_event_str.Domain.{
  Event, Identity, Context, identity_from_context, tenant_of, Store, Searcher,
}
use nocturne_atlas_event_str.Query
use nocturne_atlas_event_str.Query.{clamp_limit, clamp_offset, screened}
use nocturne_atlas_event_str.Query.Bounds.{clamp_limit_lem, clamp_offset_lem}
use nocturne_atlas_event_str.Query.Scope.{
  Listings, Searches, Returns, caller_tenant, page_lem, caller_lem,
}

module _ {S : Type 0} (store : Store S) (searcher : Searcher S) (listings : Listings store)
    (searches : Searches searcher) (ctx : Context) where
  abbrev pub AsList : Result Query.ListResult → S → Type 0
  AsList = Returns ctx (λ r. (r.events, r.limit))

  abbrev pub AsStream : Result Query.StreamResult → S → Type 0
  AsStream = Returns ctx (λ r. (r.events, r.limit))

  abbrev pub AsCausation : Result Query.CausationResult → S → Type 0
  AsCausation = Returns ctx (λ r. (r.events, r.limit))

  abbrev pub AsTimeline : Result Query.TimelineResult → S → Type 0
  AsTimeline = Returns ctx (λ r. (r.events, r.limit))

  list_all_lem :
      (q : Query.ListQuery) (s : S)
      → let (r, s') = Query.list_all store searcher ctx q s in AsList r s'
  unfolding Query.list_all Query.list_all_for
  list_all_lem q s =
      caller_lem AsList ctx
        (λ caller.
          Query.list_all_for store searcher ctx caller q.correlation_id (clamp_limit q.limit)
            (clamp_offset q.offset))
        s (λ e. tt)
        λ caller who.
          let (n, lim, low, high) = clamp_limit_lem q.limit in
          let (o, off) = clamp_offset_lem q.offset in
          elim (Bool-cases (q.correlation_id == "")) [
            | inl none_given ↦ rw none_given (
                page_lem ctx caller n (clamp_limit q.limit) (λ r. (r.events, r.limit)) "list events"
                  (searcher.search ctx (record {
                    tenant_id = caller.tenant_id;
                    stream_id = "";
                    limit = clamp_limit q.limit;
                    offset = clamp_offset q.offset;
                    sort_by_occurred_at_desc = true;
                  }))
                  (Query.list_result "elasticsearch" (clamp_limit q.limit) (clamp_offset q.offset))
                  s who lim low high (λ p. refl)
                  (searches.search_law ctx
                    (record {
                      tenant_id = caller.tenant_id;
                      stream_id = "";
                      limit = clamp_limit q.limit;
                      offset = clamp_offset q.offset;
                      sort_by_occurred_at_desc = true;
                    })
                    n s (caller_tenant (identity_from_context ctx) caller who) lim))
            | inr given ↦ rw given (
                page_lem ctx caller n (clamp_limit q.limit) (λ r. (r.events, r.limit))
                  "list events by correlation_id"
                  (store.list_by_correlation_id ctx caller.tenant_id q.correlation_id
                    (clamp_limit q.limit) (clamp_offset q.offset))
                  (Query.list_result "postgres" (clamp_limit q.limit) (clamp_offset q.offset)) s who
                  lim low high (λ p. refl) (rw (lim, off) (listings.correlation_law ctx _ _ n o s)))
          ]

  query_by_stream_lem :
      (q : Query.StreamQuery) (s : S)
      → let (r, s') = Query.query_by_stream store searcher ctx q s in AsStream r s'
  unfolding Query.query_by_stream Query.query_stream_for
  query_by_stream_lem q s =
      let for = λ (caller : Identity).
        Query.query_stream_for store searcher ctx caller q.stream_id (clamp_limit q.limit)
          (clamp_offset q.offset) in
      caller_lem AsStream ctx
        (λ caller. raise_if (q.stream_id == "") (text "stream_id is required") >> for caller) s
        (λ e. tt)
        λ caller who.
          let (n, lim, low, high) = clamp_limit_lem q.limit in
          after_guard AsStream _ (for caller) s _ (λ _. tt)
            (λ _.
              page_lem ctx caller n (clamp_limit q.limit) (λ r. (r.events, r.limit)) "search events"
                (searcher.search ctx (record {
                  tenant_id = caller.tenant_id;
                  stream_id = q.stream_id;
                  limit = clamp_limit q.limit;
                  offset = clamp_offset q.offset;
                  sort_by_occurred_at_desc = false;
                }))
                (Query.stream_result q.stream_id (clamp_limit q.limit) (clamp_offset q.offset)) s
                who lim low high (λ p. refl)
                (searches.search_law ctx
                  (record {
                    tenant_id = caller.tenant_id;
                    stream_id = q.stream_id;
                    limit = clamp_limit q.limit;
                    offset = clamp_offset q.offset;
                    sort_by_occurred_at_desc = false;
                  })
                  n s (caller_tenant (identity_from_context ctx) caller who) lim))

  list_by_causation_id_lem :
      (q : Query.CausationQuery) (s : S)
      → let (r, s') = Query.list_by_causation_id store searcher ctx q s in AsCausation r s'
  unfolding Query.list_by_causation_id Query.list_causation_for
  list_by_causation_id_lem q s =
      let for = λ (caller : Identity).
        Query.list_causation_for store searcher ctx caller q.event_id (clamp_limit q.limit)
          (clamp_offset q.offset) in
      caller_lem AsCausation ctx
        (λ caller. raise_if (q.event_id == "") (text "event_id is required") >> for caller) s
        (λ e. tt)
        λ caller who.
          let (n, lim, low, high) = clamp_limit_lem q.limit in
          let (o, off) = clamp_offset_lem q.offset in
          after_guard AsCausation _ (for caller) s _ (λ _. tt)
            (λ _.
              page_lem ctx caller n (clamp_limit q.limit) (λ r. (r.events, r.limit))
                "list events by causation_id"
                (store.list_by_causation_id ctx caller.tenant_id q.event_id (clamp_limit q.limit)
                  (clamp_offset q.offset))
                (Query.causation_result q.event_id (clamp_limit q.limit) (clamp_offset q.offset)) s
                who lim low high (λ p. refl) (rw (lim, off) (listings.causation_law ctx _ _ n o s)))

  get_timeline_lem :
      (q : Query.TimelineQuery) (s : S)
      → let (r, s') = Query.get_timeline store searcher ctx q s in AsTimeline r s'
  unfolding Query.get_timeline Query.timeline_for
  get_timeline_lem q s =
      caller_lem AsTimeline ctx
        (λ caller.
          Query.timeline_for store searcher ctx caller q.from_time q.to_time (clamp_limit q.limit)
            (clamp_offset q.offset))
        s (λ e. tt)
        λ caller who.
          let (n, lim, low, high) = clamp_limit_lem q.limit in
          let (o, off) = clamp_offset_lem q.offset in
          page_lem ctx caller n (clamp_limit q.limit) (λ r. (r.events, r.limit)) "list timeline"
            (store.list_timeline ctx caller.tenant_id q.from_time q.to_time (clamp_limit q.limit)
              (clamp_offset q.offset))
            (Query.timeline_result caller.tenant_id (clamp_limit q.limit) (clamp_offset q.offset)) s
            who lim low high (λ p. refl) (rw (lim, off) (listings.timeline_law ctx _ _ _ n o s))

  abbrev pub Screened : String → S → Result Event → S → Type 0
  Screened id s (ok e) _ =
      (caller : Identity) × (tenant_of (identity_from_context ctx) ≡ some caller)
      × (e.tenant_id ≡ caller.tenant_id)
      × ((store.get_by_id ctx id s).0 ≡ ok e)
  Screened id s (err _) _ = Unit

  screened_lem :
      (caller : Identity) (id : String) (s s' : S) (found : Result Event)
      → tenant_of (identity_from_context ctx) ≡ some caller
      → (store.get_by_id ctx id s).0 ≡ found
      → Screened id s (screened caller found) s'
  unfolding screened
  screened_lem caller id s s' (ok e) who h = elim (Bool-cases (e.tenant_id == caller.tenant_id)) [
    | inl own ↦ rw own (caller, who, (eq_iff _ _).0 own, h)
    | inr foreign ↦ rw foreign tt
  ]
  screened_lem caller id s s' (err x) who h = ground arith

  get_by_id_lem :
      (id : String) (s : S)
      → let (r, s') = Query.get_by_id store searcher ctx id s in Screened id s r s'
  unfolding Query.get_by_id
  get_by_id_lem id s =
      caller_lem (Screened id s) ctx
        (λ caller. attempt (store.get_by_id ctx id) >>= λ found. lift (screened caller found)) s
        (λ e. tt) λ caller who. screened_lem caller id s _ _ who refl

-- Over any store whose listings, and any search index whose searches, return no more events than
-- asked for and only of the tenant asked for: whatever `ListAll`, `QueryByStream`,
-- `ListByCausationID` and `GetTimeline` return is a page of at most 100 events (and at most as many
-- as the limit that it reports, which is 1 at least), all of them of the caller's tenant; and an
-- event that `GetByID` returns is of the caller's tenant and what the store holds under the ID. No
-- caller without a tenant gets a result.
pub reads_isolated :
    {S : Type 0} (store : Store S) (searcher : Searcher S) (listings : Listings store)
    (searches : Searches searcher) (ctx : Context) (s : S)
    → ((q : Query.ListQuery)
        → let (r, s') = Query.list_all store searcher ctx q s in
          AsList store searcher listings searches ctx r s')
      × ((q : Query.StreamQuery)
          → let (r, s') = Query.query_by_stream store searcher ctx q s in
            AsStream store searcher listings searches ctx r s')
      × ((q : Query.CausationQuery)
          → let (r, s') = Query.list_by_causation_id store searcher ctx q s in
            AsCausation store searcher listings searches ctx r s')
      × ((q : Query.TimelineQuery)
          → let (r, s') = Query.get_timeline store searcher ctx q s in
            AsTimeline store searcher listings searches ctx r s')
      × ((id : String)
          → let (r, s') = Query.get_by_id store searcher ctx id s in
            Screened store searcher listings searches ctx id s r s')
reads_isolated store searcher listings searches ctx s = (
  λ q. list_all_lem store searcher listings searches ctx q s,
  λ q. query_by_stream_lem store searcher listings searches ctx q s,
  λ q. list_by_causation_id_lem store searcher listings searches ctx q s,
  λ q. get_timeline_lem store searcher listings searches ctx q s,
  λ id. get_by_id_lem store searcher listings searches ctx id s,
)
