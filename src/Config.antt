-- ===== src/Config.antt =====
-- `Load` of internal/config/config.go, on the environment variables after the file `.env` was read, and
-- `MigrateDSN` of internal/db/pool.go.
pub mod Load
pub mod Dsn
use notify_stream.Prelude.{
  Bool, true, false, ◌&&◌, Option, none, some, List, [], ◌∷◌, ◌++◌, Str, codes, is_empty,
  trim_space, behind_prefix, trim_prefix, if◌then◌else◌,
}

pub record Settings : Type 0 where
  pub database_url : Str
  pub amqp_url : Str
  pub webhook_url : Str
  pub http_addr : Str
  pub metrics_addr : Str
  pub redis_url : Str

-- The settings, or the names of the variables that are missing.
pub data Loaded : Type 0 where
  settings : Settings → Loaded
  missing : List Str → Loaded

abbrev pub database_name : Str
database_name = codes "DATABASE_URL"

abbrev pub amqp_name : Str
amqp_name = codes "AMQP_URL"

abbrev pub webhook_name : Str
webhook_name = codes "WEBHOOK_URL"

abbrev pub default_addr : Str
default_addr = codes ":8080"

-- `if c.X == "" { missing = append(missing, name) }`
unfoldable pub note_missing : Bool → Str → List Str → List Str
note_missing false name names = names
note_missing true name names = name ∷ names

unfoldable pub or_default : Str → Str → Str
or_default s d = if is_empty s then d else s

unfoldable pub missing_names : Bool → Settings → List Str
unfolding note_missing
missing_names require_webhook c = note_missing (is_empty c.database_url) database_name (
    note_missing (is_empty c.amqp_url) amqp_name
      (note_missing (require_webhook && is_empty c.webhook_url) webhook_name []))

unfoldable pub or_missing : List Str → Settings → Loaded
or_missing [] c = settings c
or_missing (n ∷ ns) c = missing (n ∷ ns)

-- `env` is `os.Getenv`.
unfoldable pub settings_of : (Str → Str) → Settings
unfolding or_default
settings_of env = record {
  database_url = trim_space (env database_name);
  amqp_url = trim_space (env amqp_name);
  webhook_url = trim_space (env webhook_name);
  http_addr = or_default (trim_space (env (codes "HTTP_ADDR"))) default_addr;
  metrics_addr = trim_space (env (codes "METRICS_ADDR"));
  redis_url = trim_space (env (codes "REDIS_URL"));
}

unfoldable pub load : Bool → (Str → Str) → Loaded
unfolding missing_names or_missing settings_of
load require_webhook env = let c = settings_of env in or_missing (missing_names require_webhook c) c

abbrev pub postgres : Str
postgres = codes "postgres://"

abbrev pub postgresql : Str
postgresql = codes "postgresql://"

abbrev pub pgx5 : Str
pgx5 = codes "pgx5://"

unfoldable pub with_pgx5 : Str → Option Str → Str
with_pgx5 u none = u
with_pgx5 u (some rest) = pgx5 ++ rest

unfoldable pub migrate_dsn : Str → Str
unfolding trim_prefix with_pgx5
migrate_dsn url =
    let u = trim_prefix postgresql (trim_space url) in with_pgx5 u (behind_prefix postgres u)
