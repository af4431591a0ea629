-- ===== src/Postgres/Startup.antt =====
-- `NewEventStore` of internal/infrastructure/postgres/store.go: the pool is sized from the
-- settings, opened, pinged, and the schema is applied. The calls of pgx are parameters.
pub mod Opened
use nocturne_atlas_event_str.Prelude.{ℕ, ◌-◌, ◌%◌, ◌^◌, String, Bool, List, ltb, if◌then◌else◌}
use nocturne_atlas_event_str.Prelude.Int.{ℤ, pos, negsuc, ltb_ℤ, to_bits}
use nocturne_atlas_event_str.Exec.{Error, wrap, Result, ok, err, Exec, lift, or_wrap, ◌>>=◌, ◌>>◌}
use nocturne_atlas_event_str.Config.{PostgresConfig}
use nocturne_atlas_event_str.Postgres.Schema.{Statement, ddl}

-- The fields of `pgxpool.Config` that the code sets.
pub record PoolConfig : Type 0 where
  pub max_conns : ℤ
  pub min_conns : ℤ
  pub max_conn_idle_time : ℤ

-- What `NewEventStore` calls of pgx, over a state. `exec` runs the statements of one call.
pub record Pools (S : Type 0) : Type 0 where
  pub parse_config : String → Result PoolConfig
  pub new_with_config : PoolConfig → Exec S (Unit {0})
  pub ping : Exec S (Unit {0})
  pub exec : List Statement → Exec S (Unit {0})
  pub close : S → S

-- The conversion `int32(n)`.
abbrev pub of_bits32 : ℕ → ℤ
of_bits32 m = if ltb m (2 ^ 31) then pos m else negsuc (2 ^ 32 - 1 - m)

unfoldable pub int32_of : ℤ → ℤ
int32_of n = of_bits32 (to_bits n % 2 ^ 32)

-- The settings that are positive replace those of the DSN.
unfoldable pub sized : PostgresConfig → PoolConfig → PoolConfig
sized cfg c = record {
  max_conns = if ltb_ℤ (pos 0) cfg.pool_max then int32_of cfg.pool_max else c.max_conns;
  min_conns = if ltb_ℤ (pos 0) cfg.pool_min then int32_of cfg.pool_min else c.min_conns;
  max_conn_idle_time =
      if ltb_ℤ (pos 0) cfg.pool_max_conn_idle_time
      then cfg.pool_max_conn_idle_time
      else c.max_conn_idle_time;
}

module _ {S : Type 0} (pools : Pools S) where
  -- `if err != nil { pool.Close(); return nil, fmt.Errorf("text: %w", err) }`
  abbrev pub or_close : String → Exec S (Unit {0}) → Exec S (Unit {0})
  or_close t m s =
      let (r, s') = m s in elim r [ ok a ↦ (ok a, s') | err e ↦ (err (wrap t e), pools.close s') ]

  abbrev pub set_up : Exec S (Unit {0})
  set_up = or_close "ping postgres" pools.ping >> or_close "apply schema" (pools.exec ddl)

  abbrev pub connect : PostgresConfig → PoolConfig → Exec S (Unit {0})
  connect cfg c = or_wrap "connect postgres" (pools.new_with_config (sized cfg c)) >> set_up

  -- `NewEventStore`
  unfoldable pub new_event_store : PostgresConfig → Exec S (Unit {0})
  new_event_store cfg =
      or_wrap "parse postgres config" (lift (pools.parse_config cfg.dsn)) >>= connect cfg
