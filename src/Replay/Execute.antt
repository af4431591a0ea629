-- ===== src/Replay/Execute.antt =====
-- `ReplayEngine.Execute` (internal/application/replay/service.go) as a whole.
use nocturne_atlas_event_str.Prelude.{
  ◌≡◌, refl, inl, inr, Option, none, some, false, List, ◌==◌, eq_iff, arith, Bool-cases,
}
use nocturne_atlas_event_str.Exec.{Result, ok, err, text, ◌>>=◌}
use nocturne_atlas_event_str.Exec.Rules.{after_guard}
use nocturne_atlas_event_str.Domain.{
  Event, Identity, Context, identity_from_context, tenant_of, required_identity, Runtime, Store,
  Publisher, Contracts,
}
use nocturne_atlas_event_str.Replay.Engine.{
  ReplayRequest, ReplayResult, run_scoped, execute, check_reason, check_scope, check_tenant,
  lacks_reason, lacks_scope, is_foreign, scope,
}
use nocturne_atlas_event_str.Replay.Outcome.{Abandoned, RunEnded, run_scoped_lem}

-- The filter that the query gets is on the caller's tenant.
scope-tenant :
    (caller : Identity) (req : ReplayRequest)
    → is_foreign caller req ≡ false
    → (scope caller req.filter).tenant_id ≡ caller.tenant_id
scope-tenant caller req h = elim (Bool-cases (req.filter.tenant_id == "")) [
  | inl empty ↦ rw empty
  | inr given ↦ rw given (ground (arith, eq_iff req.filter.tenant_id caller.tenant_id))
]

module _ {S : Type 0} (rt : Runtime S) (store : Store S) (publisher : Publisher S)
    (events : S → List Event) (laws : Contracts rt store publisher events) (ctx : Context)
    (req : ReplayRequest) (s : S) where
  abbrev pub ExecuteEnded : Result ReplayResult → S → Type 0
  ExecuteEnded (ok res) s' =
      (caller : Identity) × (tenant_of (identity_from_context ctx) ≡ some caller)
      × (lacks_reason req ≡ false)
      × (lacks_scope req ≡ false)
      × ((scope caller req.filter).tenant_id ≡ caller.tenant_id)
      × RunEnded rt store publisher events laws ctx (scope caller req.filter) req.options s (ok res)
          s'
  ExecuteEnded (err x) s' =
      Abandoned req.options.dry_run req.options.replay_reason (events s) (events s')

  scoped_lem :
      (caller : Identity)
      → tenant_of (identity_from_context ctx) ≡ some caller
      → lacks_reason req ≡ false
      → lacks_scope req ≡ false
      → is_foreign caller req ≡ false
      → (r : Result ReplayResult) (s' : S)
      → RunEnded rt store publisher events laws ctx (scope caller req.filter) req.options s r s'
      → ExecuteEnded r s'
  scoped_lem caller e a b c (ok res) s' h = (caller, e, a, b, scope-tenant caller req c, h)
  scoped_lem caller e a b c (err x) s' h = h

  checked_lem :
      (caller : Identity)
      → tenant_of (identity_from_context ctx) ≡ some caller
      → let (r, s') = check_reason rt store publisher caller ctx req s in ExecuteEnded r s'
  unfolding check_reason check_scope check_tenant
  checked_lem caller e =
      after_guard ExecuteEnded (text "replay_reason is required for active replays")
        (check_scope rt store publisher caller ctx req) s (lacks_reason req) (λ _. inl refl)
        λ a.
          after_guard ExecuteEnded (text "replay filter must specify tenant_id or event_ids")
            (check_tenant rt store publisher caller ctx req) s (lacks_scope req) (λ _. inl refl)
            λ b.
              after_guard ExecuteEnded
                (text "replay filter tenant_id does not match authenticated tenant")
                (run_scoped rt store publisher ctx (scope caller req.filter) req.options) s
                (is_foreign caller req) (λ _. inl refl)
                λ c. scoped_lem caller e a b c _ _ (
                  run_scoped_lem rt store publisher events laws ctx (scope caller req.filter)
                    req.options s)

-- Over any store, publisher, clock and UUID generator that keep to their contracts, `Execute`
-- returns a result only for a caller with a tenant, for a request that gives a reason (unless it is
-- a dry run) and names a tenant or event IDs; the query was then on the caller's tenant. A dry run
-- returns what the query matched and writes nothing. An active run returns one replay of each
-- matched event, in order, and these are what was added to the store. If it fails, the store is as
-- it was, or (never in a dry run) holds in addition the replays of the matched events before the
-- one whose append failed.
pub execute_ends :
    {S : Type 0} (rt : Runtime S) (store : Store S) (publisher : Publisher S)
    (events : S → List Event) (laws : Contracts rt store publisher events) (ctx : Context)
    (req : ReplayRequest) (s : S)
    → let (r, s') = execute rt store publisher ctx req s in
      ExecuteEnded rt store publisher events laws ctx req s r s'
unfolding execute
execute_ends rt store publisher events laws ctx req s =
    go (tenant_of (identity_from_context ctx)) refl
  where
    go :
        (o : Option Identity)
        → tenant_of (identity_from_context ctx) ≡ o
        → let (r, s') =
            (required_identity o >>= λ caller. check_reason rt store publisher caller ctx req) s in
          ExecuteEnded rt store publisher events laws ctx req s r s'
    go none e = inl refl
    go (some caller) e = checked_lem rt store publisher events laws ctx req s caller e
