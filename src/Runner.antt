-- ===== src/Runner.antt =====
-- internal/runner/background.go: `processOutboxEntry`, `processScheduled`, and one round of the loops
-- of `StartOutboxRelay` and `StartScheduler`. `mc` is what the trace propagator injects, and `locked`
-- tells the rows that other transactions hold.
pub mod Published
pub mod Quiet
pub mod Waiting
pub mod Drained
use notify_stream.Prelude.{
  ℕ, zero, suc, Bool, true, false, ◌||◌, Option, none, some, List, [], ◌∷◌, Str, not, if◌then◌else◌,
}
use notify_stream.Prelude.Int.{pos}
use notify_stream.Domain.Types.{Notification, pending, status_eq}
use notify_stream.Amqp.Publish.{Wire}
use notify_stream.Amqp.Client.{publish_notification}
use notify_stream.Db.Tables.{OutboxRow, Tables}
use notify_stream.Db.Change.{is_null}
use notify_stream.Db.Store.{get_by_id}
use notify_stream.Db.Transaction.{tx_rollback, tx_commit}
use notify_stream.Db.Claims.{
  claim_outbox_batch, claim_due_scheduled, mark_queued, mark_outbox_published,
}
use notify_stream.World.{Fault, fine, Turn, World, Result, ok, err, M, pure, ◌>>=◌, ◌>>◌, arrive}

module _ {Body : Type 0} where
  unfoldable pub unless_failed : Fault → M Body Bool → M Body Bool
  unless_failed fine act = act
  unless_failed _ act = pure false

abbrev pub outbox_batch_per_tick : ℕ
outbox_batch_per_tick = 25

abbrev pub scheduled_per_tick : ℕ
scheduled_per_tick = 50

module _ {Body : Type 0} (env : ℕ → Turn) where
  -- `MarkQueued` and then `MarkOutboxPublished`, on the claim's transaction.
  unfoldable pub queue_and_publish : ℕ → OutboxRow → Result (Unit {0}) → M Body (Result (Unit {0}))
  unfolding mark_outbox_published
  queue_and_publish now e (ok _) = mark_outbox_published env now e.id
  queue_and_publish now e (err x) = pure (err x)

  unfoldable pub queue_entry : ℕ → OutboxRow → M Body (Result (Unit {0}))
  unfolding mark_queued queue_and_publish
  queue_entry now e = do r ← mark_queued env now e.notification_id; queue_and_publish now e r

  -- `Rollback` where the processing failed, and else `Commit`: the end of the round.
  unfoldable pub finish_claim : Tables → Result (Unit {0}) → M Body (Result (Unit {0}))
  unfolding tx_rollback tx_commit
  finish_claim saved (err e) = do tx_rollback env saved; pure (err e)
  finish_claim saved (ok _) = tx_commit env saved tt

  -- The statements of the processing, and the end.
  unfoldable pub ending : M Body (Result (Unit {0})) → M Body (Result (Unit {0}))
  unfolding finish_claim
  ending body w = let (r, w') = body w in finish_claim w.tables r w'

  -- After `PublishNotification`.
  unfoldable pub entry_sent : ℕ → OutboxRow → Result (Unit {0}) → M Body (Result (Unit {0}))
  unfolding ending queue_entry
  entry_sent now e (ok _) = ending (queue_entry now e)
  entry_sent now e (err x) = pure (err x)

  unfoldable pub scheduled_sent : ℕ → ℕ → Result (Unit {0}) → M Body (Result (Unit {0}))
  unfolding ending mark_queued
  scheduled_sent now id (ok _) = ending (mark_queued env now id)
  scheduled_sent now id (err x) = pure (err x)

module _ (wire : Wire) (env : ℕ → Turn) (mc : List (Str × Str)) where
  -- After `GetByID`.
  unfoldable pub entry_read : ℕ → OutboxRow → Result Notification → M wire.Body (Result (Unit {0}))
  unfolding entry_sent publish_notification ending mark_outbox_published
  entry_read now e (err x) = pure (err x)
  entry_read now e (ok n) =
      if not (status_eq n.status pending)
      then ending env (mark_outbox_published env now e.id)
      else (do r ← publish_notification wire env mc n; entry_sent env now e r)

  -- With the end of the transaction that the entry was claimed in, which started at `now`.
  unfoldable pub process_outbox_entry : ℕ → OutboxRow → M wire.Body (Result (Unit {0}))
  unfolding get_by_id entry_read
  process_outbox_entry now e = do r ← get_by_id env e.notification_id; entry_read now e r

  unfoldable pub scheduled_read : ℕ → ℕ → Result Notification → M wire.Body (Result (Unit {0}))
  unfolding scheduled_sent publish_notification
  scheduled_read now id (err x) = pure (err x)
  scheduled_read now id (ok n) =
      if not (status_eq n.status pending) || is_null n.scheduled_at
      then pure (ok tt)
      else (do r ← publish_notification wire env mc n; scheduled_sent env now id r)

  unfoldable pub process_scheduled : ℕ → ℕ → M wire.Body (Result (Unit {0}))
  unfolding get_by_id scheduled_read
  process_scheduled now id = do r ← get_by_id env id; scheduled_read now id r

  -- The claimed entries; only the first is used, and a failure is only logged. Tells whether the loop
  -- goes on.
  unfoldable pub relay_claimed : ℕ → List OutboxRow → M wire.Body Bool
  unfolding process_outbox_entry
  relay_claimed now [] = pure false
  relay_claimed now (e ∷ es) = do process_outbox_entry now e; pure true

  unfoldable pub schedule_claimed : ℕ → List Notification → M wire.Body Bool
  unfolding process_scheduled
  schedule_claimed now [] = pure false
  schedule_claimed now (n ∷ ns) = do process_scheduled now n.id; pure true

  -- `Begin` and the claim, in two turns; a failure ends the loop until the next tick of the clock.
  unfoldable pub relay_claim : (ℕ → Bool) → ℕ → M wire.Body Bool
  unfolding arrive relay_claimed claim_outbox_batch unless_failed
  relay_claim locked now w =
      unless_failed (env w.tick).fault
        (λ v. relay_claimed now (claim_outbox_batch locked (pos 1) v.tables) v) (arrive env w)

  unfoldable pub relay_round : (ℕ → Bool) → M wire.Body Bool
  unfolding arrive relay_claim unless_failed
  relay_round locked w =
      unless_failed (env w.tick).fault (relay_claim locked (env w.tick).now) (arrive env w)

  unfoldable pub schedule_claim : (ℕ → Bool) → ℕ → M wire.Body Bool
  unfolding arrive schedule_claimed claim_due_scheduled unless_failed
  schedule_claim locked now w =
      unless_failed (env w.tick).fault
        (λ v. schedule_claimed now (claim_due_scheduled locked now (pos 1) v.tables) v)
        (arrive env w)

  unfoldable pub schedule_round : (ℕ → Bool) → M wire.Body Bool
  unfolding arrive schedule_claim unless_failed
  schedule_round locked w =
      unless_failed (env w.tick).fault (schedule_claim locked (env w.tick).now) (arrive env w)

  -- The rounds of one tick of the clock.
  unfoldable pub relay_rounds : (ℕ → Bool) → ℕ → M wire.Body (Unit {0})
  unfolding relay_round
  relay_rounds locked zero = pure tt
  relay_rounds locked (suc left) = do
    more ← relay_round locked
    if more then relay_rounds locked left else pure tt

  unfoldable pub relay_tick : (ℕ → Bool) → M wire.Body (Unit {0})
  unfolding relay_rounds
  relay_tick locked = relay_rounds locked outbox_batch_per_tick

  unfoldable pub schedule_rounds : (ℕ → Bool) → ℕ → M wire.Body (Unit {0})
  unfolding schedule_round
  schedule_rounds locked zero = pure tt
  schedule_rounds locked (suc left) = do
    more ← schedule_round locked
    if more then schedule_rounds locked left else pure tt

  unfoldable pub schedule_tick : (ℕ → Bool) → M wire.Body (Unit {0})
  unfolding schedule_rounds
  schedule_tick locked = schedule_rounds locked scheduled_per_tick
