-- ===== src/Db/Store.antt =====
-- The methods of `Store` on one row, as calls of a pool: internal/db/notifications.go, templates.go.
pub mod Evolves
pub mod Quiet
use notify_stream.Prelude.{ℕ, zero, suc, Option, none, some, List, Str}
use notify_stream.Domain.Types.{Notification, Template}
use notify_stream.Db.Tables.{Tables, find_row, find_template}
use notify_stream.Db.Change.{Change, apply}
use notify_stream.World.{
  Fault, fine, lost_before, lost_after, refused, Turn, World, Error, db_error, no_rows, bad_state,
  Result, ok, err, M, pure, ◌>>=◌, arrive,
}

-- `tag.RowsAffected() == 0` is an error.
unfoldable pub affected : Result ℕ → Result (Unit {0})
affected (ok zero) = err bad_state
affected (ok (suc k)) = ok tt
affected (err e) = err e

-- A method that does not look at the affected rows.
unfoldable pub ignored : Result ℕ → Result (Unit {0})
ignored (ok k) = ok tt
ignored (err e) = err e

-- `Scan` of a `RETURNING` clause.
unfoldable pub returned : Result ℕ → Option Notification → Result Notification
returned (ok zero) row = err no_rows
returned (ok (suc k)) none = err no_rows
returned (ok (suc k)) (some n) = ok n
returned (err e) row = err e

unfoldable pub found {ℓ} : {A : Type ℓ} → Option A → Result A
found none = err no_rows
found (some a) = ok a

module _ {Body : Type 0} where
  unfoldable pub execute : Fault → Change → ℕ → M Body (Result ℕ)
  execute fine c now w =
      (ok (apply c now w.tables).1, record w { tables = (apply c now w.tables).0 })
  execute lost_before c now w = (err db_error, w)
  execute refused c now w = (err db_error, w)
  execute lost_after c now w = (err db_error, record w { tables = (apply c now w.tables).0 })

module _ {Body A : Type 0} where
  unfoldable pub read : Fault → (Tables → Option A) → M Body (Result A)
  read fine q w = (found (q w.tables), w)
  read lost_before q w = (err db_error, w)
  read lost_after q w = (err db_error, w)
  read refused q w = (err db_error, w)

module _ {Body : Type 0} (env : ℕ → Turn) where
  -- `s.pool.Exec`: the affected rows.
  unfoldable pub exec : Change → M Body (Result ℕ)
  unfolding execute arrive
  exec c w = let t = env w.tick in execute t.fault c t.now (arrive env w)

  -- `GetByID`, `GetTemplate`: `s.pool.QueryRow` of a `SELECT`.
  unfoldable pub get_by_id : ℕ → M Body (Result Notification)
  unfolding read arrive
  get_by_id id w = read (env w.tick).fault (λ db. find_row id db.notifications) (arrive env w)

  unfoldable pub get_template : ℕ → M Body (Result Template)
  unfolding read arrive
  get_template id w = read (env w.tick).fault (λ db. find_template id db.templates) (arrive env w)

  unfoldable pub release_sending_to_queued : ℕ → M Body (Result (Unit {0}))
  unfolding exec ignored
  release_sending_to_queued id = do r ← exec (Change.release_sending id); pure (ignored r)

  unfoldable pub mark_sending : ℕ → M Body (Result (Unit {0}))
  unfolding exec affected
  mark_sending id = do r ← exec (Change.mark_sending id); pure (affected r)

  unfoldable pub mark_delivered : ℕ → Option Str → M Body (Result (Unit {0}))
  unfolding exec affected
  mark_delivered id mid = do r ← exec (Change.mark_delivered id mid); pure (affected r)

  unfoldable pub mark_failed : ℕ → M Body (Result (Unit {0}))
  unfolding exec affected
  mark_failed id = do r ← exec (Change.mark_failed id); pure (affected r)

  -- `UPDATE … RETURNING`: the row as it is after the update, if one was updated.
  unfoldable pub cancel : ℕ → M Body (Result Notification)
  unfolding exec returned
  cancel id w =
      let (r, w') = exec (Change.cancel id) w in
      (returned r (find_row id w'.tables.notifications), w')
