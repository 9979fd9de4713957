-- ===== src/Db/Transaction.antt =====
-- Transactions of internal/db: `Begin`, statements, `Commit` and `Rollback`; when a transaction is
-- committed or rolled back, its caller says. Other
-- processes act until the first statement; from then on those that want the same rows wait, so a
-- transaction takes place at one point of the history.
pub mod Value
pub mod Fine
pub mod Quiet
use notify_stream.Prelude.{ℕ, suc, Option, if◌then◌else◌}
use notify_stream.Db.Tables.{Tables}
use notify_stream.Db.Change.{Change, apply}
use notify_stream.Db.Store.{found}
use notify_stream.World.{
  Fault, fine, lost_before, lost_after, refused, Turn, World, Error, db_error, Result, ok, err, M,
  arrive,
}

module _ {Body : Type 0} where
  -- A turn in which nobody else acts.
  abbrev pub passed : World Body → World Body
  passed w = record w { tick = suc w.tick }

  unfoldable pub tx_execute : Fault → Change → ℕ → M Body (Result ℕ)
  tx_execute fine c now w =
      (ok (apply c now w.tables).1, record w { tables = (apply c now w.tables).0 })
  tx_execute _ c now w = (err db_error, w)

module _ {Body A : Type 0} where
  unfoldable pub tx_look : Fault → (Tables → Option A) → M Body (Result A)
  tx_look fine q w = (found (q w.tables), w)
  tx_look _ q w = (err db_error, w)

  -- `tx.Commit`; a failed one may have taken effect all the same.
  unfoldable pub commit : Fault → Tables → A → M Body (Result A)
  commit fine saved a w = (ok a, w)
  commit lost_before saved a w = (err db_error, record w { tables = saved })
  commit refused saved a w = (err db_error, record w { tables = saved })
  commit lost_after saved a w = (err db_error, w)

module _ {Body : Type 0} (env : ℕ → Turn) where
  -- `tx.Exec` and `tx.QueryRow` on an open transaction.
  unfoldable pub tx_exec : Change → ℕ → M Body (Result ℕ)
  unfolding tx_execute
  tx_exec c now w = tx_execute (env w.tick).fault c now (passed w)

module _ {Body A : Type 0} (env : ℕ → Turn) where
  unfoldable pub tx_read : (Tables → Option A) → M Body (Result A)
  unfolding tx_look
  tx_read q w = tx_look (env w.tick).fault q (passed w)

  -- `tx.Commit` of a transaction that started on the tables `saved`.
  unfoldable pub tx_commit : Tables → A → M Body (Result A)
  unfolding commit arrive
  tx_commit saved a w = let (r, w') = commit (env w.tick).fault saved a w in (r, arrive env w')

module _ {Body : Type 0} (env : ℕ → Turn) where
  -- `tx.Rollback`, whose error every caller ignores.
  unfoldable pub tx_rollback : Tables → M Body (Unit {0})
  unfolding arrive
  tx_rollback saved w = (tt, arrive env (record w { tables = saved }))

module _ {Body A : Type 0} (env : ℕ → Turn) (finish : Tables → Result A → M Body (Result A)) where
  unfoldable pub begun : Fault → M Body (Result A) → M Body (Result A)
  begun fine body w = let (r, w') = body w in finish w.tables r w'
  begun _ body w = (err db_error, w)

  -- `Begin`, the statements of `body`, and `finish`: what the caller does with their result. `body` is
  -- given the time of the transaction, and `finish` the tables that it started on.
  unfoldable pub transact : (ℕ → M Body (Result A)) → M Body (Result A)
  unfolding begun arrive
  transact body w = let t = env w.tick in begun t.fault (body t.now) (arrive env w)
