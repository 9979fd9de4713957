-- ===== src/Db/Change.antt =====
-- Every statement of internal/db that writes a table: which rows it changes, what it sets, and how many
-- rows it affects. `now` is the time of the transaction.
pub mod Lifecycle
pub mod Terminal
pub mod Hit
pub mod Miss
pub mod Twice
pub mod Keys
pub mod Names
pub mod Constant
use notify_stream.Prelude.{
  ℕ, suc, Bool, true, false, ◌&&◌, ◌||◌, Option, none, some, List, [], ◌∷◌, ◌++◌, Str, str_eq, ◌==◌,
  if◌then◌else◌, is_some,
}
use notify_stream.Domain.Types.{
  Notification, Status, Template, pending, queued, sending, delivered, failed, cancelled, status_eq,
}
use notify_stream.Db.Tables.{OutboxRow, Batch, Tables, find_key}

pub data Change : Type 0 where
  release_sending : ℕ → Change
  mark_sending : ℕ → Change
  mark_delivered : ℕ → Option Str → Change
  mark_failed : ℕ → Change
  mark_queued : ℕ → Change
  cancel : ℕ → Change
  insert_row : Notification → Change
  insert_batch : Batch → Change
  insert_template : Template → Change
  insert_outbox : ℕ → ℕ → Str → Change
  publish_outbox : ℕ → Change

-- `UPDATE notifications SET …, updated_at = now() WHERE id = $1 AND …`, with the affected rows.
unfoldable pub update_row :
    (Status → Bool)
    → (Notification → Notification)
    → ℕ
    → ℕ
    → List Notification
    → List Notification × ℕ
update_row from set now id [] = ([], 0)
update_row from set now id (n ∷ ns) =
    let (rest, count) = update_row from set now id ns in
    if n.id == id && from n.status
    then (record (set n) { updated_at = now } ∷ rest, suc count)
    else (n ∷ rest, count)

-- `status IN ('pending', 'queued', 'sending')`
abbrev pub is_live : Status → Bool
is_live s = status_eq s pending || status_eq s queued || status_eq s sending

-- `COALESCE($2, provider_message_id)`
abbrev pub coalesce : Option Str → Option Str → Option Str
coalesce none old = old
coalesce (some m) old = some m

-- The statuses that a statement starts from, and what it sets.
unfoldable pub from_status : Change → Status → Bool
unfolding status_eq
from_status (release_sending id) s = status_eq s sending
from_status (mark_sending id) s = is_live s
from_status (mark_delivered id mid) s = status_eq s sending
from_status (mark_failed id) s = is_live s
from_status (mark_queued id) s = status_eq s pending
from_status (cancel id) s = status_eq s pending || status_eq s queued
from_status _ s = false

unfoldable pub set_row : Change → Notification → Notification
set_row (release_sending id) n = record n { status = queued }
set_row (mark_sending id) n = record n { status = sending }
set_row (mark_delivered id mid) n = record n {
  status = delivered;
  provider_message_id = coalesce mid n.provider_message_id;
}
set_row (mark_failed id) n = record n { status = failed }
set_row (mark_queued id) n = record n { status = queued }
set_row (cancel id) n = record n { status = cancelled }
set_row _ n = n

abbrev pub is_null : {A : Type 0} → Option A → Bool
is_null none = true
is_null (some t) = false

-- `UPDATE outbox SET published_at = now() WHERE id = $1 AND published_at IS NULL`
unfoldable pub publish_row : ℕ → ℕ → List OutboxRow → List OutboxRow × ℕ
publish_row now id [] = ([], 0)
publish_row now id (e ∷ es) =
    let (rest, count) = publish_row now id es in
    if e.id == id && is_null e.published_at
    then (record e { published_at = some now } ∷ rest, suc count)
    else (e ∷ rest, count)

-- An update of one notification by its identifier.
unfoldable pub update_by : Change → ℕ → ℕ → Tables → Tables × ℕ
unfolding update_row from_status set_row
update_by c id now db =
    let (rows, count) = update_row (from_status c) (set_row c) now id db.notifications in
    (record db { notifications = rows }, count)

-- The unique index on the keys that are not null.
unfoldable pub key_taken : Option Str → List Notification → Bool
unfolding find_key
key_taken none ns = false
key_taken (some k) ns = is_some (find_key k ns)

-- `INSERT … ON CONFLICT (idempotency_key) … DO NOTHING`
unfoldable pub insert_unless : Bool → Notification → Tables → Tables × ℕ
insert_unless true n db = (db, 0)
insert_unless false n db = (record db { notifications = db.notifications ++ n ∷ [] }, 1)

-- A template's name is unique: `INSERT` fails, and writes nothing, if a template has it.
unfoldable pub name_taken : Str → List Template → Bool
unfolding str_eq
name_taken name [] = false
name_taken name (t ∷ ts) = str_eq t.name name || name_taken name ts

unfoldable pub insert_named : Template → List Template → List Template × ℕ
unfolding name_taken
insert_named t ts = if name_taken t.name ts then (ts, 0) else (ts ++ t ∷ [], 1)

-- The tables after a statement, and the affected rows.
unfoldable pub apply : Change → ℕ → Tables → Tables × ℕ
unfolding update_by publish_row key_taken insert_unless insert_named
apply (release_sending id) now db = update_by (release_sending id) id now db
apply (mark_sending id) now db = update_by (mark_sending id) id now db
apply (mark_delivered id mid) now db = update_by (mark_delivered id mid) id now db
apply (mark_failed id) now db = update_by (mark_failed id) id now db
apply (mark_queued id) now db = update_by (mark_queued id) id now db
apply (cancel id) now db = update_by (cancel id) id now db
apply (insert_row n) now db = insert_unless (key_taken n.idempotency_key db.notifications) n db
apply (insert_batch b) now db = (record db { batches = db.batches ++ b ∷ [] }, 1)
apply (insert_template t) now db =
    let (ts, count) = insert_named t db.templates in (record db { templates = ts }, count)
apply (insert_outbox id nid payload) now db = (
  record db {
    outbox =
        db.outbox
        ++ record { id = id; notification_id = nid; payload = payload; published_at = none } ∷ [];
  },
  1,
)
apply (publish_outbox id) now db =
    let (rows, count) = publish_row now id db.outbox in (record db { outbox = rows }, count)

-- Statements at their times, one after the other.
unfoldable pub run : List (Change × ℕ) → Tables → Tables
run [] db = db
run ((c, now) ∷ cs) db = run cs (apply c now db).0
