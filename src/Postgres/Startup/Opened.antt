-- ===== src/Postgres/Startup/Opened.antt =====
-- What `NewEventStore` (internal/infrastructure/postgres/store.go) leaves behind.
use nocturne_atlas_event_str.Prelude.{◌≡◌, refl, ap, ◌∙◌, Bool, true, false}
use nocturne_atlas_event_str.Exec.{Error, Result, ok, err, lift, ◌>>◌}
use nocturne_atlas_event_str.Exec.Rules.{after_or_wrap}
use nocturne_atlas_event_str.Config.{PostgresConfig}
use nocturne_atlas_event_str.Postgres.Schema.{Schema, run_statements, ddl}
use nocturne_atlas_event_str.Postgres.Schema.Steps.{Keeps}
use nocturne_atlas_event_str.Postgres.Schema.Laws.{IsOlder, UpToDate, ddl-UpToDate}
use nocturne_atlas_event_str.Postgres.Startup.{
  PoolConfig, Pools, sized, or_close, set_up, connect, new_event_store,
}

-- A pool is open when `NewWithConfig` has returned it and until it is closed; opening, pinging and
-- closing leave the schema alone; the statements of a call change it all together or, where the
-- call fails, not at all. A call that the database accepts does what the statements say.
pub record PoolsWork {S : Type 0} (pools : Pools S) (is_open : S → Bool) (schema : S → Schema)
    : Type 0 where
  pub opens :
      (c : PoolConfig) (s s1 : S)
      → pools.new_with_config c s ≡ (ok tt, s1)
      → (is_open s1 ≡ true) × (schema s1 ≡ schema s)
  pub fails_to_open :
      (c : PoolConfig) (s s1 : S) (e : Error)
      → pools.new_with_config c s ≡ (err e, s1)
      → (is_open s1 ≡ is_open s) × (schema s1 ≡ schema s)
  pub pings :
      (s s1 : S) (r : Result (Unit {0}))
      → pools.ping s ≡ (r, s1)
      → (is_open s1 ≡ is_open s) × (schema s1 ≡ schema s)
  pub closes : (s : S) → (is_open (pools.close s) ≡ false) × (schema (pools.close s) ≡ schema s)
  pub applies :
      (s s1 : S)
      → pools.exec ddl s ≡ (ok tt, s1)
      → (is_open s1 ≡ is_open s) × (run_statements ddl (schema s) ≡ ok (schema s1))
  pub fails_to_apply :
      (s s1 : S) (e : Error) → pools.exec ddl s ≡ (err e, s1) → schema s1 ≡ schema s

module _ {S : Type 0} (pools : Pools S) (is_open : S → Bool) (schema : S → Schema)
    (works : PoolsWork pools is_open schema) where
  -- After a success the pool is open and the database is as the store needs it, with all that was
  -- there; after an error no pool is open and the database is as before.
  abbrev pub Opened : Schema → Result (Unit {0}) → S → Type 0
  Opened before (ok _) s = (is_open s ≡ true) × Keeps before (schema s) × UpToDate (schema s)
  Opened before (err _) s = (is_open s ≡ false) × (schema s ≡ before)

  applied_lem :
      (before : Schema) (s : S)
      → IsOlder before.table
      → is_open s ≡ true
      → schema s ≡ before
      → let (r, s') = or_close pools "apply schema" (pools.exec ddl) s in Opened before r s'
  applied_lem before s older opened same = go (pools.exec ddl s).0 (pools.exec ddl s).1 refl
    where
      go :
          (r : Result (Unit {0})) (s1 : S)
          → pools.exec ddl s ≡ (r, s1)
          → let (r', s') = or_close pools "apply schema" (λ (_ : S). (r, s1)) s in
            Opened before r' s'
      go (ok a) s1 e =
          let (still, made) = works.applies s s1 e in
          let (s', made', kept, ready) = ddl-UpToDate before older in
          let reached : schema s1 ≡ s' = cc in (still ∙ opened, rw reached kept, rw reached ready)
      go (err x) s1 e =
          let (closed, left) = works.closes s1 in
          (closed, left ∙ works.fails_to_apply s s1 x e ∙ same)

  set_up_lem :
      (before : Schema) (s : S)
      → IsOlder before.table
      → is_open s ≡ true
      → schema s ≡ before
      → let (r, s') = set_up pools s in Opened before r s'
  set_up_lem before s older opened same = go (pools.ping s).0 (pools.ping s).1 refl
    where
      go :
          (r : Result (Unit {0})) (s1 : S)
          → pools.ping s ≡ (r, s1)
          → let (r', s') =
              (or_close pools "ping postgres" (λ (_ : S). (r, s1))
                  >> or_close pools "apply schema" (pools.exec ddl))
                s in
            Opened before r' s'
      go (ok a) s1 e =
          let (still, left) = works.pings s s1 (ok tt) e in
          applied_lem before s1 older (still ∙ opened) (left ∙ same)
      go (err x) s1 e =
          let (closed, left) = works.closes s1 in
          let (still, left1) = works.pings s s1 (err x) e in (closed, left ∙ left1 ∙ same)

-- Started with no pool open on a database that has no table events or an older one, `NewEventStore`
-- either succeeds, with an open pool and a table that has every column that the store's statements
-- name and all that it had before, or it fails, and then no pool is open and the schema is as it
-- was.
pub new_event_store-Opened :
    {S : Type 0} (pools : Pools S) (is_open : S → Bool) (schema : S → Schema)
    (works : PoolsWork pools is_open schema) (cfg : PostgresConfig) (s : S)
    → IsOlder (schema s).table
    → is_open s ≡ false
    → let (r, s') = new_event_store pools cfg s in Opened pools is_open schema works (schema s) r s'
unfolding new_event_store
new_event_store-Opened {S} pools is_open schema works cfg s older closed =
    let P : Result (Unit {0}) → S → Type 0 = Opened pools is_open schema works (schema s) in
    after_or_wrap P "parse postgres config" (lift (pools.parse_config cfg.dsn)) (connect pools cfg)
      s
      (λ c s1 e. rw (← ap (λ (x : Result PoolConfig × S). x.1) e) (
        after_or_wrap P "connect postgres" (pools.new_with_config (sized cfg c)) (λ _. set_up pools)
          s
          (λ a s2 e2.
            let (opened, same) = works.opens (sized cfg c) s s2 e2 in
            set_up_lem pools is_open schema works (schema s) s2 older opened same)
          (λ x s2 e2.
            let (still, same) = works.fails_to_open (sized cfg c) s s2 x e2 in
            (still ∙ closed, same))))
      (λ x s1 e. rw (← ap (λ (y : Result PoolConfig × S). y.1) e) (closed, refl))
