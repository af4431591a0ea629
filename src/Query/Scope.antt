-- ===== src/Query/Scope.antt =====
-- What tenant isolation of internal/application/query/service.go asks of the store and the search
-- index, and what it makes of a page.
use nocturne_atlas_event_str.Prelude.{
  ◌≢◌, ℕ, ◌≤◌, String, ◌≡◌, refl, Option, none, some, List, eq_iff, arith, All, length,
}
use nocturne_atlas_event_str.Prelude.Int.{ℤ, pos}
use nocturne_atlas_event_str.Exec.{Error, text, Result, ok, err, Exec, or_wrap, pure, ◌>>=◌}
use nocturne_atlas_event_str.Domain.{
  Time, Event, SearchQuery, Identity, Context, identity_from_context, tenant_of, Store, Searcher,
  required_identity,
}

-- A page of `n` events at most, all of the tenant, or an error.
abbrev pub PageOf : String → ℕ → Result (List Event × ℤ) → Type 0
PageOf t n (ok (es, total)) = All (λ e. e.tenant_id ≡ t) es × (length es ≤ n)
PageOf t n (err _) = Unit

-- What the service relies on of the listings that it calls.
pub record Listings {S : Type 0} (store : Store S) : Type 0 where
  pub correlation_law :
      (ctx : Context) (t id : String) (n o : ℕ) (s : S)
      → PageOf t n (store.list_by_correlation_id ctx t id (pos n) (pos o) s).0
  pub causation_law :
      (ctx : Context) (t id : String) (n o : ℕ) (s : S)
      → PageOf t n (store.list_by_causation_id ctx t id (pos n) (pos o) s).0
  pub timeline_law :
      (ctx : Context) (t : String) (from to : Time) (n o : ℕ) (s : S)
      → PageOf t n (store.list_timeline ctx t from to (pos n) (pos o) s).0

pub record Searches {S : Type 0} (searcher : Searcher S) : Type 0 where
  pub search_law :
      (ctx : Context) (q : SearchQuery) (n : ℕ) (s : S)
      → q.tenant_id ≢ ""
      → q.limit ≡ pos n
      → PageOf q.tenant_id n (searcher.search ctx q s).0

-- The events are the caller's, and no more than the limit, which is from 1 to 100.
abbrev pub Isolated : Context → List Event × ℤ → Type 0
Isolated ctx (es, limit) =
    (caller : Identity) × (tenant_of (identity_from_context ctx) ≡ some caller)
    × All (λ e. e.tenant_id ≡ caller.tenant_id) es
    × ((n : ℕ) × (limit ≡ pos n) × (1 ≤ n) × (n ≤ 100) × (length es ≤ n))

abbrev pub Returns : {S A : Type 0} → Context → (A → List Event × ℤ) → Result A → S → Type 0
Returns ctx view (ok a) s = Isolated ctx (view a)
Returns ctx view (err _) s = Unit

pub caller_tenant :
    (o : Option Identity) (caller : Identity) → tenant_of o ≡ some caller → caller.tenant_id ≢ ""
caller_tenant none caller e h = ground arith
caller_tenant (some id) caller e h = ground (arith, eq_iff id.tenant_id "")

-- A result built from a page.
pub page_lem :
    {S A : Type 0} (ctx : Context) (caller : Identity) (n : ℕ) (limit : ℤ)
    (view : A → List Event × ℤ) (t : String) (m : Exec S (List Event × ℤ)) (mk : List Event × ℤ → A)
    (s : S)
    → tenant_of (identity_from_context ctx) ≡ some caller
    → limit ≡ pos n
    → 1 ≤ n
    → n ≤ 100
    → ((p : List Event × ℤ) → view (mk p) ≡ (p.0, limit))
    → PageOf caller.tenant_id n (m s).0
    → let (r, s') = (or_wrap t m >>= λ p. pure (mk p)) s in Returns ctx view r s'
page_lem {S} {A} ctx caller n limit view t m mk s who lim low high views h = go (m s) h
  where
    go :
        (x : Result (List Event × ℤ) × S)
        → PageOf caller.tenant_id n x.0
        → let (r, s') = (or_wrap t (λ (_ : S). x) >>= λ p. pure (mk p)) s in Returns ctx view r s'
    go (ok (es, total), s1) (own, short) =
        rw (views (es, total)) (caller, who, own, (n, lim, low, high, short))
    go (err e, s1) _ = tt

-- An operation for a caller with a tenant.
pub caller_lem :
    {S A : Type 0} (P : Result A → S → Type 0) (ctx : Context) (k : Identity → Exec S A) (s : S)
    → ((e : Error) → P (err e) s)
    → ((caller : Identity)
        → tenant_of (identity_from_context ctx) ≡ some caller
        → P (k caller s).0 (k caller s).1)
    → let (r, s') = (required_identity (tenant_of (identity_from_context ctx)) >>= k) s in P r s'
caller_lem {S} P ctx k s bad good = go (tenant_of (identity_from_context ctx)) refl
  where
    go :
        (o : Option Identity)
        → tenant_of (identity_from_context ctx) ≡ o
        → let (r, s') = (required_identity o >>= k) s in P r s'
    go none e = bad (text "unauthenticated: identity with tenant_id is required")
    go (some caller) e = good caller e
