-- ===== src/Db/Pool.antt =====
-- `OpenPool` of internal/db/pool.go and `Up` of internal/migrate/migrate.go. What pgxpool and
-- golang-migrate answer is a parameter.
use notify_stream.Prelude.{ℕ, Bool, true, false, Str, if◌then◌else◌}

-- The times are in seconds.
pub record PoolConfig : Type 0 where
  pub url : Str
  pub max_conns : ℕ
  pub min_conns : ℕ
  pub max_conn_lifetime : ℕ
  pub max_conn_idle_time : ℕ

pub data Opened : Type 0 where
  bad_url no_pool : Opened
  opened : PoolConfig → Opened

-- `pgxpool.ParseConfig` and `pgxpool.NewWithConfig`: do they work?
pub record Pgx : Type 0 where
  pub parses : Str → Bool
  pub connects : PoolConfig → Bool

unfoldable pub pool_config : Str → PoolConfig
pool_config url = record {
  url = url;
  max_conns = 16;
  min_conns = 0;
  max_conn_lifetime = 3600;
  max_conn_idle_time = 1800;
}

unfoldable pub open_pool : Pgx → Str → Opened
unfolding pool_config
open_pool k url =
    if k.parses url
    then (if k.connects (pool_config url) then opened (pool_config url) else no_pool)
    else bad_url

-- `err == nil`
unfoldable pub has_pool : Opened → Bool
has_pool (opened c) = true
has_pool _ = false

-- How `m.Up` ends.
pub data UpResult : Type 0 where
  changed no_change up_failed : UpResult

-- `iofs.New`, `migrate.NewWithSourceInstance` and `m.Up`.
pub record Migrator : Type 0 where
  pub source : Bool
  pub instance_works : Str → Bool
  pub up : Str → UpResult

-- The error of `Up`, if there is one, and whether the instance was closed.
pub data Migrated : Type 0 where
  no_source no_instance : Migrated
  closed : UpResult → Migrated

unfoldable pub migrate_up : Migrator → Str → Migrated
migrate_up k dsn =
    if k.source
    then (if k.instance_works dsn then closed (k.up dsn) else no_instance)
    else no_source

-- `err == nil`: the tables that are up to date are no error.
unfoldable pub is_migrated : Migrated → Bool
is_migrated (closed up_failed) = false
is_migrated (closed _) = true
is_migrated _ = false
