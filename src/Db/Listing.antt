-- ===== src/Db/Listing.antt =====
-- `List` and `ListByBatchID` of internal/db/notifications.go, and the page of `ListNotifications` in
-- internal/api/handlers.go. Times and identifiers are numbers, in their order.
pub mod Pages
pub mod Unique
pub mod Walk
use notify_stream.Prelude.{
  ℕ, Bool, true, false, ◌&&◌, ◌||◌, Option, none, some, List, [], ◌∷◌, Str, codes, str_eq, not, ltb,
  leb, ◌==◌, take, length, if◌then◌else◌,
}
use notify_stream.Prelude.Int.{ℤ, pos}
use notify_stream.Prelude.Sort.{sort_by, filter}
use notify_stream.Domain.Types.{
  Notification, Status, pending, queued, sending, delivered, failed, cancelled,
}
use notify_stream.Db.Claims.{clamp}

-- The time and the identifier of a row.
abbrev pub Cursor : Type 0
Cursor = ℕ × ℕ

pub record ListParams : Type 0 where
  pub status : Option Str
  pub channel : Option Str
  pub from : Option ℕ
  pub to : Option ℕ
  pub cursor : Option Cursor
  pub limit : ℤ

-- `status::text`, and `string(n.Status)`
unfoldable pub status_text : Status → Str
status_text Status.pending = codes "pending"
status_text Status.queued = codes "queued"
status_text Status.sending = codes "sending"
status_text Status.delivered = codes "delivered"
status_text Status.failed = codes "failed"
status_text Status.cancelled = codes "cancelled"

-- A condition on a parameter that may be null.
unfoldable pub or_null : {A : Type 0} → (A → Bool) → Option A → Bool
or_null f none = true
or_null f (some a) = f a

-- `created_at < $5 OR (created_at = $5 AND id < $6)`
unfoldable pub is_behind : Cursor → Notification → Bool
is_behind (at, id) n = ltb n.created_at at || n.created_at == at && ltb n.id id

abbrev pub cursor_of : Notification → Cursor
cursor_of n = (n.created_at, n.id)

-- `ORDER BY created_at DESC, id DESC`
unfoldable pub is_newer : Notification → Notification → Bool
unfolding is_behind
is_newer a b = not (is_behind (cursor_of b) a)

-- The conditions but for the cursor.
unfoldable pub matches : ListParams → Notification → Bool
unfolding status_text or_null
matches p n =
    or_null (λ s. str_eq (status_text n.status) s) p.status
    && or_null (λ c. str_eq n.channel c) p.channel
    && or_null (λ t. leb t n.created_at) p.from
    && or_null (λ t. leb n.created_at t) p.to

-- The rows of a query, before `LIMIT`.
unfoldable pub rows_of : ListParams → List Notification → List Notification
unfolding sort_by filter matches is_newer is_behind or_null
rows_of p ns =
    sort_by is_newer (filter (λ n. or_null (λ c. is_behind c n) p.cursor) (filter (matches p) ns))

unfoldable pub list : ListParams → List Notification → List Notification
unfolding rows_of clamp
list p ns = take (clamp 20 100 p.limit) (rows_of p ns)

-- `ORDER BY created_at ASC, id ASC`
abbrev pub is_older : Notification → Notification → Bool
is_older a b = ltb a.created_at b.created_at || a.created_at == b.created_at && leb a.id b.id

unfoldable pub list_by_batch_id : ℕ → List Notification → List Notification
unfolding sort_by filter
list_by_batch_id b ns =
    sort_by is_older (filter (λ n. elim n.batch_id [ none ↦ false | some c ↦ c == b ]) ns)

unfoldable pub last_of : List Notification → Option Cursor
last_of [] = none
last_of (n ∷ []) = some (cursor_of n)
last_of (n ∷ m ∷ ns) = last_of (m ∷ ns)

-- The page, and the cursor of its last row if the page has as many rows as were asked for.
unfoldable pub page : ListParams → ℕ → List Notification → List Notification × Option Cursor
unfolding list last_of
page p limit ns =
    let out = list (record p { limit = pos limit }) ns in
    (out, if length out == limit then last_of out else none)
