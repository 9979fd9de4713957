-- ===== src/Process.antt =====
-- The main functions of cmd/api, cmd/scheduler and cmd/worker: what a process obtains, starts and
-- releases, and its exit code. `os.Exit` runs no deferred call; a return runs them, the last one first.
-- What the libraries answer is a parameter.
pub mod Tidy
pub mod Passes
pub mod Exit
use notify_stream.Prelude.{
  ℕ, Bool, true, false, not, ◌&&◌, Option, none, some, List, [], ◌∷◌, ◌++◌, Str, codes, is_empty,
  map, is_some, if◌then◌else◌,
}
use notify_stream.Prelude.Int.{ℤ, pos}
use notify_stream.Domain.Types.{Channel, sms, email, push}
use notify_stream.Config.{Settings, Loaded, settings, missing, load, migrate_dsn}
use notify_stream.Db.Pool.{Pgx, open_pool, has_pool, Migrator, migrate_up, is_migrated}
use notify_stream.Ratelimit.{Made, waiter, new_channel_waiter}
use notify_stream.Tracing.{Collector, setup, is_set_up}
use notify_stream.Worker.Timing.{stuck_sending_recovery}
use notify_stream.World.{Error}

pub data Resource : Type 0 where
  tracer pool bus limiter : Resource

pub data Service : Type 0 where
  status_consumer relay scheduler : Service
  http_server metrics_server : Str → Service
  consumer : Channel → ℤ → Service

pub data Action : Type 0 where
  obtained released : Resource → Action
  migrated : Str → Action
  started : Service → Action

-- What was done, and what the deferred calls release, the last one first.
pub record Process : Type 0 where
  pub log : List Action
  pub deferred : List Resource

pub data Step (A : Type 0) : Type 0 where
  exited : ℕ → List Action → Step A
  going : A → Process → Step A

abbrev pub P : Type 0 → Type 0
P A = Process → Step A

module _ {A : Type 0} where
  abbrev pub pure : A → P A
  pure a p = going a p

  abbrev pub bind_step : {B : Type 0} → Step A → (A → P B) → Step B
  bind_step (exited code log) f = exited code log
  bind_step (going a p) f = f a p

  -- `os.Exit(1)`
  abbrev pub fail : P A
  fail p = exited 1 p.log

module _ {A B : Type 0} where
  infixl 5 ◌>>=◌ ◌>>◌
  abbrev pub ◌>>=◌ : P A → (A → P B) → P B
  ◌>>=◌ m f p = bind_step (m p) f

  abbrev pub ◌>>◌ : P A → P B → P B
  m >> n = m >>= λ _. n

unfoldable pub note : Action → P (Unit {0})
note a p = going tt (record p { log = p.log ++ a ∷ [] })

unfoldable pub need : Bool → P (Unit {0})
need true = pure tt
need false = fail

-- The resource is there, and its release is deferred.
unfoldable pub keep : Resource → P (Unit {0})
keep r p = going tt (record { log = p.log ++ obtained r ∷ []; deferred = r ∷ p.deferred })

unfoldable pub obtain : Resource → Bool → P (Unit {0})
unfolding need keep
obtain r works = do need works; keep r

-- What the libraries answer, for the URL that each is given.
pub record Remote : Type 0 where
  pub collector : Collector
  pub migrator : Migrator
  pub pgx : Pgx
  pub connects : Str → Bool
  pub is_redis_url : Str → Bool
  pub redis_answers : Bool
  pub atoi : Str → Option ℤ
  -- `ListenAndServe` ends with another error than `ErrServerClosed`.
  pub serve_fails : Bool
  -- How `Consume` ends.
  pub consume : Channel → Option Error
  -- `errgroup.Group.Wait` for the results of the functions of a group, and whether the context of the
  -- group is done behind it.
  pub wait : List (Option Error) → Option Error × Bool

unfoldable pub configured : Loaded → P Settings
configured (settings c) = pure c
configured (missing names) = fail

unfoldable pub is_made : Made → Bool
is_made (waiter x) = true
is_made _ = false

-- Exits with an error, or goes on.
unfoldable pub exit_if : Bool → P (Unit {0})
exit_if true = fail
exit_if false = pure tt

unfoldable pub start_all : List Service → P (Unit {0})
unfolding note
start_all [] = pure tt
start_all (s ∷ ss) = do note (started s); start_all ss

unfoldable pub metrics_of : Str → List Service
metrics_of addr = if is_empty addr then [] else metrics_server addr ∷ []

abbrev pub channels : List Channel
channels = sms ∷ email ∷ push ∷ []

-- `err != nil && ctx.Err() == nil`, where `ctx` is the context of the group.
unfoldable pub worker_fails : Option Error × Bool → Bool
worker_fails (e, done) = is_some e && not done

module _ (env : Str → Str) (r : Remote) where
  unfoldable pub trace : Str → P (Unit {0})
  unfolding obtain setup is_set_up
  trace name = obtain tracer (is_set_up (setup r.collector env name))

  unfoldable pub migrate : Str → P (Unit {0})
  unfolding need note migrate_up is_migrated
  migrate dsn = do need (is_migrated (migrate_up r.migrator dsn)); note (migrated dsn)

  unfoldable pub open_stores : Settings → P (Unit {0})
  unfolding obtain open_pool has_pool
  open_stores c = do
    obtain pool (has_pool (open_pool r.pgx c.database_url))
    obtain bus (r.connects c.amqp_url)

  unfoldable pub api_main : P (Unit {0})
  unfolding load configured trace migrate migrate_dsn open_stores start_all exit_if
  api_main = do
    c ← configured (load false env)
    trace (codes "notifystream-api")
    migrate (migrate_dsn c.database_url)
    open_stores c
    start_all (status_consumer ∷ http_server c.http_addr ∷ [])
    exit_if r.serve_fails

  unfoldable pub scheduler_main : P (Unit {0})
  unfolding load configured trace open_stores start_all
  scheduler_main = do
    c ← configured (load false env)
    trace (codes "notifystream-scheduler")
    open_stores c
    start_all (relay ∷ scheduler ∷ [])

  unfoldable pub limit_rate : Str → P (Unit {0})
  unfolding obtain is_made new_channel_waiter
  limit_rate url =
      obtain limiter
        (is_made (new_channel_waiter r.is_redis_url r.redis_answers url (pos 100) (pos 100)).0)

  -- The stuck rows are taken again after the time that the environment sets.
  unfoldable pub consumers : List Service
  unfolding stuck_sending_recovery
  consumers =
      let stuck = stuck_sending_recovery r.atoi (env (codes "STUCK_SENDING_RECOVERY_SECONDS")) in
      map (λ ch. consumer ch stuck) channels

  unfoldable pub worker_main : P (Unit {0})
  unfolding load configured trace metrics_of open_stores limit_rate consumers start_all exit_if
      worker_fails
  worker_main = do
    c ← configured (load true env)
    trace (codes "notifystream-worker")
    start_all (metrics_of c.metrics_addr)
    open_stores c
    limit_rate c.redis_url
    start_all consumers
    exit_if (worker_fails (r.wait (map r.consume channels)))

pub data Program : Type 0 where
  api scheduling worker : Program

unfoldable pub main_of : (Str → Str) → Remote → Program → P (Unit {0})
unfolding api_main scheduler_main worker_main
main_of env r api = api_main env r
main_of env r scheduling = scheduler_main env r
main_of env r worker = worker_main env r

unfoldable pub end_of : Step (Unit {0}) → ℕ × List Action
end_of (exited code log) = (code, log)
end_of (going _ p) = (0, p.log ++ map released p.deferred)

-- The exit code, and what was done.
unfoldable pub run_process : P (Unit {0}) → ℕ × List Action
unfolding end_of
run_process m = end_of (m (record { log = []; deferred = [] }))
