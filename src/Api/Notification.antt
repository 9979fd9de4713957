-- ===== src/Api/Notification.antt =====
-- `GetNotification`, `CancelNotification` and `ListBatchNotifications` of internal/api/handlers.go. The
-- identifier of the path is given as `uuid.Parse` reads it.
pub mod Cancels
use notify_stream.Prelude.{ℕ, Bool, false, Option, none, some, List, map}
use notify_stream.Domain.Types.{Notification}
use notify_stream.Db.Store.{get_by_id, cancel, read}
use notify_stream.Db.Listing.{list_by_batch_id}
use notify_stream.Api.Create.{Item}
use notify_stream.Api.Answer.{
  Answer, good, bad_request, not_found, conflict, database_error, answer_of, answer_or_fail,
  invalid_id, invalid_batch_id,
}
use notify_stream.World.{Turn, Result, ok, err, M, pure, ◌>>=◌, arrive}

-- `toNotificationJSON(n, false)`
abbrev pub shown : Notification → Item
shown n = (n, false)

unfoldable pub shown_row : Result Notification → Result Item
shown_row (ok n) = ok (shown n)
shown_row (err e) = err e

unfoldable pub shown_rows : Result (List Notification) → Result (List Item)
shown_rows (ok ns) = ok (map shown ns)
shown_rows (err e) = err e

module _ {Body : Type 0} (env : ℕ → Turn) where
  unfoldable pub get_notification : Option ℕ → M Body (Answer Item)
  unfolding get_by_id answer_of shown_row
  get_notification none = pure (bad_request invalid_id)
  get_notification (some id) = do r ← get_by_id env id; pure (answer_of not_found (shown_row r))

  unfoldable pub cancel_notification : Option ℕ → M Body (Answer Item)
  unfolding cancel answer_of shown_row
  cancel_notification none = pure (bad_request invalid_id)
  cancel_notification (some id) = do r ← cancel env id; pure (answer_of conflict (shown_row r))

  -- `s.pool.Query`: every row that `q` selects.
  unfoldable pub query_rows :
      (List Notification → List Notification) → M Body (Result (List Notification))
  unfolding read arrive
  query_rows q w = read (env w.tick).fault (λ db. some (q db.notifications)) (arrive env w)

  unfoldable pub list_batch_notifications : Option ℕ → M Body (Answer (List Item))
  unfolding query_rows list_by_batch_id answer_or_fail shown_rows
  list_batch_notifications none = pure (bad_request invalid_batch_id)
  list_batch_notifications (some b) = do
    r ← query_rows (list_by_batch_id b)
    pure (answer_or_fail (shown_rows r))
