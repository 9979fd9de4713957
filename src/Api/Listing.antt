-- ===== src/Api/Listing.antt =====
-- `ListNotifications` of internal/api/handlers.go.
pub mod Request
pub mod Next
use notify_stream.Prelude.{ℕ, Option, none, some, List, [], Str, map}
use notify_stream.Domain.Types.{Notification}
use notify_stream.Db.Store.{read}
use notify_stream.Db.Listing.{Cursor, page}
use notify_stream.Api.Create.{Item}
use notify_stream.Api.Cursor.{Codec, encode_cursor}
use notify_stream.Api.Answer.{Answer, good, bad_request, Checked, refused, accepted, answer_or_fail}
use notify_stream.Api.Notification.{shown}
use notify_stream.Api.Listing.Request.{Query, PageRequest, read_query}
use notify_stream.World.{Turn, Result, ok, err, M, pure, ◌>>=◌, arrive}

module _ (k : Codec) where
  -- `next_cursor`, empty if there is none.
  unfoldable pub next_cursor : Option Cursor → Str
  unfolding encode_cursor
  next_cursor none = []
  next_cursor (some c) = encode_cursor k c

  unfoldable pub shown_page : Result (List Notification × Option Cursor) → Result (List Item × Str)
  unfolding next_cursor
  shown_page (ok (ns, c)) = ok (map shown ns, next_cursor c)
  shown_page (err e) = err e

module _ {Body : Type 0} (env : ℕ → Turn) where
  -- `h.store.List`, with the cursor of the page.
  unfoldable pub query_page : PageRequest → M Body (Result (List Notification × Option Cursor))
  unfolding read arrive page
  query_page (p, limit) w =
      read (env w.tick).fault (λ db. some (page p limit db.notifications)) (arrive env w)

  unfoldable pub list_checked : Codec → Checked PageRequest → M Body (Answer (List Item × Str))
  unfolding query_page shown_page answer_or_fail
  list_checked k (refused r) = pure (bad_request r)
  list_checked k (accepted l) = do r ← query_page l; pure (answer_or_fail (shown_page k r))

  unfoldable pub list_notifications :
      Codec → (Str → Option ℕ) → Query → M Body (Answer (List Item × Str))
  unfolding read_query list_checked
  list_notifications k bound q = list_checked k (read_query k bound q)
