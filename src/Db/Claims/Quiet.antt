-- ===== src/Db/Claims/Quiet.antt =====
-- `MarkQueuedWithRetry` when nothing fails and nobody interferes.
use notify_stream.Prelude.{ℕ, suc, ◌≡◌, refl, ap, some}
use notify_stream.Prelude.Int.{pos}
use notify_stream.Domain.Types.{pending, queued, status_eq}
use notify_stream.Db.Tables.{Tables, status_in}
use notify_stream.Db.Change.{Change, apply, update_by, from_status, set_row}
use notify_stream.Db.Store.{affected}
use notify_stream.Db.Change.Hit.{update_row_hit}
use notify_stream.Db.Claims.{finish_attempt}
use notify_stream.Db.Transaction.{tx_exec, tx_execute}
use notify_stream.Db.Transaction.Fine.{transact_quiet}
use notify_stream.Db.Claims.{mark_queued, queue_again, queue_attempts, mark_queued_with_retry}
use notify_stream.World.{Turn, World, ok}
use notify_stream.World.Quiet.{IsQuiet}

-- The tables after `MarkQueued`.
abbrev pub queued_at : ℕ → ℕ → Tables → Tables
queued_at now id db = (apply (Change.mark_queued id) now db).0

module _ {Body : Type 0} (env : ℕ → Turn) (q : IsQuiet env) where
  pub mark_queued_quiet :
      (now id : ℕ) (w : World Body)
      → status_in id w.tables.notifications ≡ some pending
      → mark_queued env now id w ≡ (
        ok tt,
        record w { tables = (apply (Change.mark_queued id) now w.tables).0; tick = suc w.tick },
      )
  unfolding mark_queued tx_exec tx_execute affected apply update_by from_status set_row status_eq
  mark_queued_quiet now id w s =
      let (t, k, count) =
        update_row_hit (Change.mark_queued id) queued (λ n. refl) now id w.tables.notifications s
          refl in
      rw (q.works w.tick, count) refl

  -- The first attempt is enough for a row that is pending.
  pub mark_queued_with_retry_quiet :
      (id : ℕ) (w : World Body)
      → status_in id w.tables.notifications ≡ some pending
      → mark_queued_with_retry env id (pos 5) w ≡ (
        ok tt,
        record w { tables = queued_at (env w.tick).now id w.tables; tick = suc (suc (suc w.tick)) },
      )
  unfolding mark_queued_with_retry queue_attempts queue_again finish_attempt
  mark_queued_with_retry_quiet id w s =
      ap (λ r. queue_again env 4 r.0 (queue_attempts env 4 id) r.1)
        (transact_quiet env q (finish_attempt env) (λ s a v. refl) (λ now. mark_queued env now id) w
          (mark_queued_quiet (env w.tick).now id (record w { tick = suc w.tick }) s))
