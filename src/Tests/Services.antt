-- ===== src/Tests/Services.antt =====
-- The settings, the origins, the rate limiter and the connection.
use notify_stream.Prelude.{
  ◌≤◌, ◌<◌, ℕ, ◌+◌, ◌<◌, ◌≡◌, ◌⊎◌, refl, true, false, some, List, [], ◌∷◌, ◌++◌, Str, codes, All,
  is_space, arith, length, if◌then◌else◌, ◌==◌, behind_prefix,
}
use notify_stream.Prelude.Int.{pos}
use notify_stream.Domain.Types.{sms}
use notify_stream.Config.{migrate_dsn, postgres, postgresql, pgx5}
use notify_stream.Config.Dsn.{migrate_dsn_lem}
use notify_stream.Api.Broadcast.{capacity}
use notify_stream.Api.Broadcast.Ordered.{
  Move, dispatches, receives, move_all, dispatched, IsPartOf, arrived, move_all-arrived,
}
use notify_stream.Ratelimit.{Asked, granted, redis_wait}
use notify_stream.Ratelimit.Waits.{IsPositive, redis_wait_ends}
use notify_stream.Amqp.Connection.{Call, new_client, no_net, close_client}
use notify_stream.Amqp.Connection.Kept.{IsKept}
use notify_stream.Amqp.Connection.Owned.{
  connects, pings, reads_status, reads, Method, run_methods, run_methods_owned,
}

migrate_dsn_lem_example :
    (migrate_dsn (postgres ++ codes "h/d") ≡ pgx5 ++ codes "h/d")
    × (migrate_dsn (postgresql ++ codes "h/d") ≡ codes "h/d")
unfolding is_space behind_prefix
migrate_dsn_lem_example = migrate_dsn_lem (codes "h/d") (refl, (refl, (refl, tt))) refl

-- The server refuses once.
abbrev answers : Str → ℕ → Asked
answers key t = record { result = some (if t == 0 then pos 0 else pos 1, pos 9); done = false }

refused_once : (i : ℕ) → i < 1 → (answers [] (0 + i)).result ≡ some (pos 0, pos 9)
refused_once i h = ground arith

redis_wait_ends_example :
    ((redis_wait answers sms 2 0).0 ≡ granted)
    × (length (redis_wait answers sms 2 0).1 ≡ 1)
    × All IsPositive (redis_wait answers sms 2 0).1
redis_wait_ends_example =
    redis_wait_ends answers sms 1 0 granted (λ i h. (pos 0, pos 9, refused_once i h, refl, refl))
      (pos 1, pos 9, refl, refl) 2 (omega arith)

-- The first connection is lost before the client closes it.
abbrev network : ℕ → Call
network t = record { works = true; made = t; lost = if t == 30 then 0 ∷ [] else []; done = false }

abbrev methods : List Method
methods = connects ∷ pings ∷ reads sms (1 ∷ 2 ∷ []) ∷ connects ∷ reads_status (3 ∷ []) ∷ []

run_methods_owned_example :
    let (c, n) = run_methods network methods new_client no_net in
    let n' = (close_client network c n).1 in IsKept c n × (n'.conns ≡ []) × (n'.chans ≡ [])
run_methods_owned_example = run_methods_owned network methods

-- Messages 1 and 2 are dispatched, and one is received between them.
abbrev moves : List (Move ℕ)
moves = dispatches 1 ∷ receives ∷ dispatches 2 ∷ []

move_all-arrived_example :
    let s = move_all moves ([], []) in
    (length s.0 ≤ capacity)
    × IsPartOf (arrived s) (dispatched moves)
    × ((arrived s ≡ dispatched moves) ⊎ (capacity < length (dispatched moves)))
move_all-arrived_example = move_all-arrived moves
