-- ===== src/Process/Exit.antt =====
-- When a process exits with which code.
use notify_stream.Prelude.{
  true, false, ◌≡◌, ◌↔◌, refl, List, [], ◌∷◌, Str, codes, map, arith, Option,
}
use notify_stream.Prelude.Int.{pos}
use notify_stream.Config.{Settings, settings, load, migrate_dsn}
use notify_stream.Ratelimit.{new_channel_waiter}
use notify_stream.Tracing.{setup, is_set_up}
use notify_stream.Db.Pool.{open_pool, has_pool, migrate_up, is_migrated}
use notify_stream.Process.{
  Step, exited, going, note, need, obtain, Remote, is_made, start_all, metrics_of, worker_fails,
  channels, trace, migrate, open_stores, api_main, scheduler_main, limit_rate, consumers,
  worker_main, Program, api, scheduling, worker, main_of, end_of, pool, bus, tracer, limiter, relay,
  scheduler, status_consumer, http_server, migrated, run_process,
}
use notify_stream.Process.Tidy.{IsFine, main_of-Keeps, start-IsKept, start}
use notify_stream.World.{Error}
use notify_stream.Process.Passes.{
  Goes, Passes, bind-Passes, bind-Passes_free, configured-Passes, need-Passes, note-Passes,
  start_all-Passes, obtain-Passes, exit_if-Passes,
}

module _ (env : Str → Str) (r : Remote) where
  abbrev Traces : Str → Type 0
  Traces name = is_set_up (setup r.collector env name) ≡ true

  abbrev Opens : Settings → Type 0
  Opens c = (has_pool (open_pool r.pgx c.database_url) ≡ true) × (r.connects c.amqp_url ≡ true)

  abbrev Limits : Settings → Type 0
  Limits c =
      is_made (new_channel_waiter r.is_redis_url r.redis_answers c.redis_url (pos 100) (pos 100)).0
      ≡ true

  open_stores-Passes : (c : Settings) → Passes (open_stores env r c) (Opens c)
  unfolding open_stores
  open_stores-Passes c =
      bind-Passes (λ _. obtain bus (r.connects c.amqp_url))
        (λ _. obtain-Passes bus (r.connects c.amqp_url))
        (obtain pool (has_pool (open_pool r.pgx c.database_url)))
        (obtain-Passes pool (has_pool (open_pool r.pgx c.database_url)))

  -- What each process needs before it starts its services.
  abbrev pub IsReady : Program → Type 0
  IsReady api =
      (c : Settings) × (load false env ≡ settings c)
      × Traces (codes "notifystream-api")
      × (is_migrated (migrate_up r.migrator (migrate_dsn c.database_url)) ≡ true)
      × Opens c
  IsReady scheduling =
      (c : Settings) × (load false env ≡ settings c)
      × Traces (codes "notifystream-scheduler")
      × Opens c
  IsReady worker =
      (c : Settings) × (load true env ≡ settings c)
      × Traces (codes "notifystream-worker")
      × Opens c
      × Limits c

  -- What else an exit with the code 0 depends on: how the HTTP server ends, in the API alone.
  abbrev pub EndsWell : Program → Type 0
  EndsWell api = r.serve_fails ≡ false
  EndsWell scheduling = Unit
  EndsWell worker = Unit

  trace-Passes : (name : Str) → Passes (trace env r name) (Traces name)
  unfolding trace
  trace-Passes name = obtain-Passes tracer (is_set_up (setup r.collector env name))

  migrate-Passes :
      (dsn : Str) → Passes (migrate env r dsn) (is_migrated (migrate_up r.migrator dsn) ≡ true)
  unfolding migrate
  migrate-Passes dsn p =
      let h =
        bind-Passes (λ _. note (migrated dsn)) (λ _. note-Passes (migrated dsn))
          (need (is_migrated (migrate_up r.migrator dsn)))
          (need-Passes (is_migrated (migrate_up r.migrator dsn))) p in
      (λ g. (h.0 g).0, λ e. h.1 (e, tt))

  limit_rate-Passes : (c : Settings) → Passes (limit_rate env r c.redis_url) (Limits c)
  unfolding limit_rate
  limit_rate-Passes c = obtain-Passes limiter (
      is_made (new_channel_waiter r.is_redis_url r.redis_answers c.redis_url (pos 100) (pos 100)).0)

  api_main-Passes : Passes (api_main env r) (
      (c : Settings) × (load false env ≡ settings c)
      × (Traces (codes "notifystream-api")
          × ((is_migrated (migrate_up r.migrator (migrate_dsn c.database_url)) ≡ true)
              × (Opens c × (r.serve_fails ≡ false)))))
  unfolding api_main
  api_main-Passes =
      configured-Passes _
        (λ c.
          bind-Passes _
            (λ _.
              bind-Passes _
                (λ _.
                  bind-Passes _
                    (λ _.
                      bind-Passes_free _ (λ _. exit_if-Passes r.serve_fails)
                        (start_all (status_consumer ∷ http_server c.http_addr ∷ []))
                        (start_all-Passes (status_consumer ∷ http_server c.http_addr ∷ [])))
                    _ (open_stores-Passes c))
                _ (migrate-Passes (migrate_dsn c.database_url)))
            _ (trace-Passes (codes "notifystream-api")))
        (load false env)

  scheduler_main-Passes : Passes (scheduler_main env r) (
      (c : Settings) × (load false env ≡ settings c)
      × (Traces (codes "notifystream-scheduler") × (Opens c × Unit)))
  unfolding scheduler_main
  scheduler_main-Passes =
      configured-Passes _
        (λ c.
          bind-Passes _
            (λ _.
              bind-Passes _ (λ _. start_all-Passes (relay ∷ scheduler ∷ [])) _
                (open_stores-Passes c))
            _ (trace-Passes (codes "notifystream-scheduler")))
        (load false env)

  worker_main-Passes : Passes (worker_main env r) (
      (c : Settings) × (load true env ≡ settings c)
      × (Traces (codes "notifystream-worker")
          × (Opens c × (Limits c × (worker_fails (r.wait (map r.consume channels)) ≡ false)))))
  unfolding worker_main
  worker_main-Passes =
      configured-Passes _
        (λ c.
          bind-Passes _
            (λ _.
              bind-Passes_free _
                (λ _.
                  bind-Passes _
                    (λ _.
                      bind-Passes _
                        (λ _.
                          bind-Passes_free _
                            (λ _. exit_if-Passes (worker_fails (r.wait (map r.consume channels))))
                            (start_all (consumers env r)) (start_all-Passes (consumers env r)))
                        _ (limit_rate-Passes c))
                    _ (open_stores-Passes c))
                (start_all (metrics_of c.metrics_addr))
                (start_all-Passes (metrics_of c.metrics_addr)))
            _ (trace-Passes (codes "notifystream-worker")))
        (load true env)

  -- The context of a group is done when `Wait` is over.
  never_fails :
      ((rs : List (Option Error)) → (r.wait rs).1 ≡ true)
      → worker_fails (r.wait (map r.consume channels)) ≡ false
  unfolding worker_fails
  never_fails cancels = ground (arith, cancels (map r.consume channels))

  main_of-Passes :
      ((rs : List (Option Error)) → (r.wait rs).1 ≡ true)
      → (program : Program)
      → Goes (main_of env r program start) ↔ (IsReady program × EndsWell program)
  unfolding main_of
  main_of-Passes cancels api =
      let (to, from) = api_main-Passes start in
      (
        λ g. let (c, l, (t, (m, (o, e)))) = to g in ((c, l, t, m, o), e),
        λ ((c, l, t, m, o), e). from (c, l, (t, (m, (o, e)))),
      )
  main_of-Passes cancels scheduling =
      let (to, from) = scheduler_main-Passes start in
      (
        λ g. let (c, l, (t, (o, e))) = to g in ((c, l, t, o), e),
        λ ((c, l, t, o), e). from (c, l, (t, (o, e))),
      )
  main_of-Passes cancels worker =
      let (to, from) = worker_main-Passes start in
      (
        λ g. let (c, l, (t, (o, (m, e)))) = to g in ((c, l, t, o, m), tt),
        λ ((c, l, t, o, m), e). from (c, l, (t, (o, (m, never_fails cancels)))),
      )

  end_of-Goes : (s : Step (Unit {0})) → IsFine s → ((end_of s).0 ≡ 0) ↔ Goes s
  unfolding end_of
  end_of-Goes (exited code log) h = (λ e. absurd (omega arith), λ g. absurd g)
  end_of-Goes (going _ p) h = (λ _. tt, λ _. refl)

  -- If the context of an errgroup is done whenever `Wait` has returned, a process exits with the code 0
  -- exactly if it got ready and, the API alone, its HTTP server was shut down: a worker does so however
  -- its consumers end, with an error too.
  pub main_of-exit :
      ((rs : List (Option Error)) → (r.wait rs).1 ≡ true)
      → (program : Program)
      → ((run_process (main_of env r program)).0 ≡ 0) ↔ (IsReady program × EndsWell program)
  unfolding run_process
  main_of-exit cancels program =
      let (a, b) =
        end_of-Goes (main_of env r program start)
          (main_of-Keeps env r program start start-IsKept) in
      let (to, from) = main_of-Passes cancels program in (λ e. to (a e), λ h. b (from h))
