-- ===== src/Config/Dsn.antt =====
-- The data source name of the migrations.
use notify_stream.Prelude.{
  ◌≡◌, refl, false, none, ◌++◌, Str, IsSolid, trim_space, trim_space-IsSolid, All-append,
  behind_prefix, trim_prefix, is_space,
}
use notify_stream.Config.{postgres, postgresql, pgx5, with_pgx5, migrate_dsn}

postgres-IsSolid : IsSolid postgres
unfolding is_space
postgres-IsSolid =
    (refl, (refl, (refl, (refl, (refl, (refl, (refl, (refl, (refl, (refl, (refl, tt)))))))))))

postgresql-IsSolid : IsSolid postgresql
unfolding is_space
postgresql-IsSolid = (
  refl,
  (
    refl,
    (refl, (refl, (refl, (refl, (refl, (refl, (refl, (refl, (refl, (refl, (refl, tt))))))))))),
  ),
)

trimmed : (p s : Str) → IsSolid p → IsSolid s → trim_space (p ++ s) ≡ p ++ s
trimmed p s hp hs = trim_space-IsSolid (p ++ s) (All-append (λ c. is_space c ≡ false) p s hp hs)

module _ (s : Str) (solid : IsSolid s) where
  -- A URL without white space: `postgres://` is replaced by `pgx5://`; but `postgresql://` is dropped,
  -- with nothing in its place, unless `postgres://` follows it.
  pub migrate_dsn_lem :
      (behind_prefix postgres s ≡ none)
      → (migrate_dsn (postgres ++ s) ≡ pgx5 ++ s) × (migrate_dsn (postgresql ++ s) ≡ s)
  unfolding migrate_dsn with_pgx5 trim_prefix behind_prefix
  migrate_dsn_lem bare = (
    rw (trimmed postgres s postgres-IsSolid solid) refl,
    rw (trimmed postgresql s postgresql-IsSolid solid, bare) refl,
  )
