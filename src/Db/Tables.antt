-- ===== src/Db/Tables.antt =====
-- The tables, and the queries for one row. A row set is a list in the order of insertion.
use notify_stream.Prelude.{
  All, ◌≢◌, ℕ, Bool, false, Option, none, some, List, [], ◌∷◌, Str, str_eq, ◌==◌, if◌then◌else◌,
}
use notify_stream.Domain.Types.{Notification, Status, Template}

-- `published_at` and the error text of the payload.
pub record OutboxRow : Type 0 where
  pub id : ℕ
  pub notification_id : ℕ
  pub payload : Str
  pub published_at : Option ℕ

pub record Batch : Type 0 where
  pub id : ℕ
  pub metadata : Str
  pub notification_count : ℕ

pub record Tables : Type 0 where
  pub notifications : List Notification
  pub templates : List Template
  pub batches : List Batch
  pub outbox : List OutboxRow

-- `WHERE id = $1`
unfoldable pub find_row : ℕ → List Notification → Option Notification
find_row id [] = none
find_row id (n ∷ ns) = if n.id == id then some n else find_row id ns

-- `WHERE id = $1` on `templates`
unfoldable pub find_template : ℕ → List Template → Option Template
find_template id [] = none
find_template id (t ∷ ts) = if t.id == id then some t else find_template id ts

-- A key that is not null equals `k`.
unfoldable pub has_key : Str → Option Str → Bool
has_key k none = false
has_key k (some j) = str_eq j k

-- `WHERE idempotency_key = $1`
unfoldable pub find_key : Str → List Notification → Option Notification
unfolding has_key
find_key k [] = none
find_key k (n ∷ ns) = if has_key k n.idempotency_key then some n else find_key k ns

-- The status of a row, if there is one.
unfoldable pub status_in : ℕ → List Notification → Option Status
status_in id [] = none
status_in id (n ∷ ns) = if n.id == id then some n.status else status_in id ns

-- No row of the list has the identifier.
abbrev pub IsNew : ℕ → List Notification → Type 0
IsNew id ns = All (λ n. n.id ≢ id) ns

-- The primary key.
abbrev pub HasUniqueIds : List Notification → Type 0
HasUniqueIds [] = Unit
HasUniqueIds (n ∷ ns) = IsNew n.id ns × HasUniqueIds ns
