-- ===== src/Db/Create.antt =====
-- `CreateBatch`, `InsertNotification` and `EnqueueOutbox` of internal/db/notifications.go, on an open
-- transaction that started at `now`. A `jsonb` column is taken to keep its text. What PostgreSQL refuses
-- in a value besides what `is_storable` says (a lone surrogate in a `jsonb`, an invalid byte, a key too
-- long for its index, or a value of a batch) is a turn's `refused`.
pub mod Idempotent
pub mod Accepted
use notify_stream.Prelude.{
  ℕ, zero, suc, Bool, true, false, ◌&&◌, ◌||◌, Option, none, some, List, Str, is_blank, is_empty,
  is_some, not, trim_space, if◌then◌else◌, [], ◌∷◌, ◌==◌, str_eq, take, codes,
}
use notify_stream.Domain.Types.{
  Notification, CreateItem, Template, pending, is_channel, is_priority,
}
use notify_stream.Amqp.Publish.{or_normal}
use notify_stream.Db.Tables.{Tables, Batch, find_template, find_key}
use notify_stream.Db.Change.{Change, key_taken, insert_row, insert_batch, insert_outbox}
use notify_stream.Db.Store.{ignored}
use notify_stream.Db.Transaction.{passed, tx_exec, tx_read}
use notify_stream.World.{Turn, World, Error, db_error, unexpected, Result, ok, err, M, pure, ◌>>=◌}

-- A key that is blank is none.
unfoldable pub key_of : Option Str → Option Str
key_of none = none
key_of (some k) = if is_blank k then none else some (trim_space k)

unfoldable pub trimmed : Option Str → Option Str
trimmed none = none
trimmed (some c) = some (trim_space c)

-- The row of an item; `gen_random_uuid()` gives `id`.
unfoldable pub row_of : ℕ → ℕ → Option ℕ → CreateItem → Option Str → Notification
unfolding key_of trimmed
row_of id now batch item corr = record {
  id = id;
  batch_id = batch;
  recipient = trim_space item.recipient;
  channel = item.channel;
  content = trimmed item.content;
  template_id = item.template_id;
  payload = item.payload;
  priority = or_normal item.priority;
  status = pending;
  idempotency_key = key_of item.idempotency_key;
  provider_message_id = none;
  scheduled_at = item.scheduled_at;
  correlation_id = corr;
  created_at = now;
  updated_at = now;
}

-- `REFERENCES templates (id)`
abbrev pub has_template : Option ℕ → List Template → Bool
has_template none ts = true
has_template (some t) ts = is_some (find_template t ts)

-- A `text` holds no NUL.
unfoldable pub has_nul : Str → Bool
has_nul [] = false
has_nul (c ∷ s) = c == 0 || has_nul s

unfoldable pub is_text : Option Str → Bool
is_text none = true
is_text (some s) = not (has_nul s)

-- Does a JSON text have the escape `\u0000`, which a `jsonb` does not hold? The flag says that the
-- character in front is a backslash that begins an escape.
unfoldable pub escapes_nul : Bool → Str → Bool
escapes_nul escape [] = false
escapes_nul true (c ∷ s) = str_eq (take 5 (c ∷ s)) (codes "u0000") || escapes_nul false s
escapes_nul false (c ∷ s) = escapes_nul (c == b'\\') s

-- No column is given a NUL.
unfoldable pub is_clean : Notification → Bool
is_clean n =
    not (has_nul n.recipient)
    && is_text n.content
    && not (escapes_nul false n.payload)
    && is_text n.idempotency_key
    && is_text n.correlation_id

-- The casts to the enumeration types, the `CHECK` of the table, and the texts.
unfoldable pub is_storable : Notification → Bool
unfolding is_clean
is_storable n =
    is_channel n.channel
    && is_priority n.priority
    && (is_some n.content || is_some n.template_id && not (is_empty n.payload))
    && is_clean n

unfoldable pub known : Result Notification → Result (Notification × Bool)
known (ok n) = ok (n, false)
known (err e) = err e

-- `INSERT … RETURNING id`
unfoldable pub returned_id : ℕ → Result ℕ → Result ℕ
returned_id id (ok k) = ok id
returned_id id (err e) = err e

module _ {Body : Type 0} (env : ℕ → Turn) where
  -- `notificationByIdempotencyKeyTx`; without a key there is no row to return.
  unfoldable pub by_key : Option Str → M Body (Result (Notification × Bool))
  unfolding known tx_read
  by_key none = pure (err unexpected)
  by_key (some k) = do r ← tx_read env (λ db. find_key k db.notifications); pure (known r)

  -- After the `INSERT`: the row it returned, or that of the key.
  unfoldable pub settled : Notification → Result ℕ → M Body (Result (Notification × Bool))
  unfolding by_key
  settled n (ok (suc k)) = pure (ok (n, true))
  settled n (ok zero) = by_key n.idempotency_key
  settled n (err e) = pure (err e)

  -- The foreign key is checked for a row that is inserted: not for one whose key a row has.
  unfoldable pub store_row : ℕ → Notification → M Body (Result (Notification × Bool))
  unfolding settled tx_exec is_storable
  store_row now n w =
      if is_storable n
        && (key_taken n.idempotency_key w.tables.notifications
            || has_template n.template_id w.tables.templates)
      then (do r ← tx_exec env (insert_row n) now; settled n r) w
      else (err db_error, passed w)

  -- The row, and whether it was inserted.
  unfoldable pub insert_notification :
      ℕ → Option ℕ → CreateItem → Option Str → M Body (Result (Notification × Bool))
  unfolding store_row row_of
  insert_notification now batch item corr w =
      store_row now (row_of (env w.tick).uuid now batch item corr) w

  unfoldable pub create_batch : ℕ → Str → ℕ → M Body (Result ℕ)
  unfolding returned_id tx_exec
  create_batch now metadata count w =
      let id = (env w.tick).uuid in
      let b : Batch = record { id = id; metadata = metadata; notification_count = count } in
      let (r, w') = tx_exec env (insert_batch b) now w in (returned_id id r, w')

  -- The text of the payload's one member is kept; the row's serial number is the turn's.
  unfoldable pub enqueue_outbox : ℕ → ℕ → Str → M Body (Result (Unit {0}))
  unfolding tx_exec ignored
  enqueue_outbox now id cause w =
      let (r, w') = tx_exec env (insert_outbox (env w.tick).uuid id cause) now w in (ignored r, w')
