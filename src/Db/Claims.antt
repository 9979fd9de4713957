-- ===== src/Db/Claims.antt =====
-- internal/db/outbox_scheduler.go and markqueued_retry.go, with `MarkQueued` of notifications.go. A
-- claim skips the rows that other transactions have locked, here those of `locked`.
pub mod Oldest
pub mod Quiet
use notify_stream.Prelude.{
  ℕ, zero, suc, Bool, false, ◌&&◌, ◌||◌, none, some, List, not, ltb, leb, ◌==◌, take, if◌then◌else◌,
}
use notify_stream.Prelude.Int.{ℤ, pos}
use notify_stream.Prelude.Sort.{sort_by, filter}
use notify_stream.Domain.Types.{Notification, pending, status_eq}
use notify_stream.Db.Tables.{OutboxRow, Tables}
use notify_stream.Db.Change.{Change, is_null, publish_outbox}
use notify_stream.Db.Store.{affected, ignored}
use notify_stream.Db.Transaction.{tx_exec, tx_commit, tx_rollback, transact}
use notify_stream.World.{
  Turn, unexpected, context_done, Result, ok, err, M, pure, ◌>>=◌, ◌>>◌, ask_done,
}

-- `limit`, or `usual` if it is not positive, and `most` at most.
unfoldable pub clamp : ℕ → ℕ → ℤ → ℕ
clamp usual most (ℤ.negsuc n) = usual
clamp usual most (pos zero) = usual
clamp usual most (pos (suc n)) = if ltb most (suc n) then most else suc n

unfoldable pub claim_outbox_batch : (ℕ → Bool) → ℤ → Tables → List OutboxRow
unfolding sort_by filter clamp
claim_outbox_batch locked limit db = take (clamp 20 100 limit) (
    filter (λ e. not (locked e.id))
      (sort_by (λ a b. leb a.id b.id) (filter (λ e. is_null e.published_at) db.outbox)))

-- `status = 'pending' AND scheduled_at IS NOT NULL AND scheduled_at <= now()`
unfoldable pub is_due : ℕ → Notification → Bool
is_due now n =
    status_eq n.status pending && elim n.scheduled_at [ none ↦ false | some t ↦ leb t now ]

-- `ORDER BY scheduled_at ASC, id ASC`
abbrev pub time_of : Notification → ℕ
time_of n = elim n.scheduled_at [ none ↦ 0 | some t ↦ t ]

abbrev pub is_earlier : Notification → Notification → Bool
is_earlier a b = ltb (time_of a) (time_of b) || time_of a == time_of b && leb a.id b.id

unfoldable pub claim_due_scheduled : (ℕ → Bool) → ℕ → ℤ → Tables → List Notification
unfolding sort_by filter clamp is_due
claim_due_scheduled locked now limit db =
    take (clamp 50 200 limit)
      (filter (λ n. not (locked n.id)) (sort_by is_earlier (filter (is_due now) db.notifications)))

module _ {Body : Type 0} (env : ℕ → Turn) where
  -- On an open transaction that started at `now`.
  unfoldable pub mark_queued : ℕ → ℕ → M Body (Result (Unit {0}))
  unfolding tx_exec affected
  mark_queued now id = do r ← tx_exec env (Change.mark_queued id) now; pure (affected r)

  unfoldable pub mark_outbox_published : ℕ → ℕ → M Body (Result (Unit {0}))
  unfolding tx_exec ignored
  mark_outbox_published now id = do r ← tx_exec env (publish_outbox id) now; pure (ignored r)

  -- `Rollback` where `MarkQueued` failed, and else `Commit`.
  unfoldable pub finish_attempt : Tables → Result (Unit {0}) → M Body (Result (Unit {0}))
  unfolding tx_rollback tx_commit
  finish_attempt saved (err e) = do tx_rollback env saved; pure (err e)
  finish_attempt saved (ok _) = tx_commit env saved tt

  -- After an attempt, where `rest` makes the `left` attempts behind it.
  unfoldable pub queue_again :
      ℕ → Result (Unit {0}) → M Body (Result (Unit {0})) → M Body (Result (Unit {0}))
  unfolding ask_done
  queue_again left (ok _) rest = pure (ok tt)
  queue_again zero (err e) rest = pure (err e)
  queue_again (suc left) (err e) rest = do
    over ← ask_done env
    if over then pure (err context_done) else rest

  -- The loop, for a backoff that is positive.
  unfoldable pub queue_attempts : ℕ → ℕ → M Body (Result (Unit {0}))
  unfolding transact finish_attempt mark_queued queue_again
  queue_attempts zero id = pure (err unexpected)
  queue_attempts (suc left) id = do
    r ← transact env finish_attempt (λ now. mark_queued now id)
    queue_again left r (queue_attempts left id)

  unfoldable pub mark_queued_with_retry : ℕ → ℤ → M Body (Result (Unit {0}))
  unfolding queue_attempts
  mark_queued_with_retry id attempts =
      queue_attempts (elim attempts [ pos n ↦ if n == 0 then 3 else n | ℤ.negsuc n ↦ 3 ]) id
