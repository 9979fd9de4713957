-- ===== src/Api/Create.antt =====
-- `CreateNotifications` of internal/api/handlers.go, from the decoded body on. The HTTP response is a
-- value; `request_id` is the header `X-Request-ID`, and `made_id` what the middleware gives, or else a
-- new UUID.
pub mod Granted
pub mod Quiet
pub mod Stored
pub mod Rows
pub mod Inserted
pub mod Sent
pub mod Many
pub mod Undone
use notify_stream.Prelude.{
  ℕ, zero, suc, ◌+◌, Bool, true, false, Option, none, some, List, [], ◌∷◌, Str, is_empty, length,
  ltb, trim_space, if◌then◌else◌,
}
use notify_stream.Prelude.Int.{pos}
use notify_stream.Domain.Types.{Notification, CreateItem, queued}
use notify_stream.Domain.Validate.{Problem, validate}
use notify_stream.Amqp.Publish.{Wire}
use notify_stream.Amqp.Client.{publish_notification}
use notify_stream.Db.Store.{get_by_id}
use notify_stream.Db.Create.{create_batch, insert_notification, enqueue_outbox}
use notify_stream.Db.Claims.{mark_queued_with_retry}
use notify_stream.Db.Transaction.{transact, tx_commit, tx_rollback}
use notify_stream.Db.Tables.{Tables}
use notify_stream.World.{Turn, World, Error, db_error, Result, ok, err, M, pure, ◌>>=◌, ◌>>◌}

-- A notification of the response, and whether the request inserted it.
abbrev pub Item : Type 0
Item = Notification × Bool

pub data Response : Type 0 where
  empty_request too_many server_error : Response
  invalid : List (ℕ × Problem) → Response
  created : Option ℕ → List Item → ℕ → Response

unfoldable pub with_problem : ℕ → Option Problem → List (ℕ × Problem) → List (ℕ × Problem)
with_problem i none rest = rest
with_problem i (some p) rest = (i, p) ∷ rest

-- The problems of the items, each with its index.
unfoldable pub problems : ℕ → List CreateItem → List (ℕ × Problem)
unfolding validate with_problem
problems i [] = []
problems i (it ∷ its) = with_problem i (validate it) (problems (suc i) its)

unfoldable pub correlation_of : Str → Str → Str
correlation_of request_id made_id =
    let corr = trim_space request_id in if is_empty corr then made_id else corr

-- `idemHits`
unfoldable pub idempotent_hits : List Item → ℕ
idempotent_hits [] = 0
idempotent_hits ((n, true) ∷ ns) = idempotent_hits ns
idempotent_hits ((n, false) ∷ ns) = suc (idempotent_hits ns)

-- `n.ScheduledAt != nil && n.ScheduledAt.After(now)`
unfoldable pub is_later : ℕ → Option ℕ → Bool
is_later now none = false
is_later now (some t) = ltb now t

unfoldable pub mark_item : Notification → Result (Unit {0}) → Item
mark_item n (ok _) = (record n { status = queued }, true)
mark_item n (err e) = (n, true)

unfoldable pub with_batch : Option ℕ → Result (List Item) → Result (Option ℕ × List Item)
with_batch batch (ok ns) = ok (batch, ns)
with_batch batch (err e) = err e

unfoldable pub collect : Item → Result (List Item) → Result (List Item)
collect n (ok ns) = ok (n ∷ ns)
collect n (err e) = err e

module _ {Body : Type 0} (env : ℕ → Turn) where
  -- The first failed insertion ends the transaction; `rest` inserts the items behind it.
  unfoldable pub inserted : Result Item → M Body (Result (List Item)) → M Body (Result (List Item))
  unfolding collect
  inserted (err e) rest = pure (err e)
  inserted (ok n) rest = do r ← rest; pure (collect n r)

  unfoldable pub insert_all : ℕ → Option ℕ → Str → List CreateItem → M Body (Result (List Item))
  unfolding insert_notification inserted
  insert_all now batch corr [] = pure (ok [])
  insert_all now batch corr (it ∷ its) = do
    r ← insert_notification env now batch it (some corr)
    inserted r (insert_all now batch corr its)

  unfoldable pub in_batch :
      ℕ → Str → List CreateItem → Result ℕ → M Body (Result (Option ℕ × List Item))
  unfolding insert_all with_batch
  in_batch now corr its (ok b) = do
    r ← insert_all now (some b) corr its
    pure (with_batch (some b) r)
  in_batch now corr its (err e) = pure (err e)

  -- The statements of the transaction: a batch for more than one item, and the items.
  unfoldable pub store_all :
      Str → Str → List CreateItem → ℕ → M Body (Result (Option ℕ × List Item))
  unfolding create_batch in_batch insert_all with_batch
  store_all metadata corr its now =
      if ltb 1 (length its)
      then (do r ← create_batch env now metadata (length its); in_batch now corr its r)
      else (do r ← insert_all now none corr its; pure (with_batch none r))

  -- `Rollback` where `EnqueueOutbox` failed, and else `Commit`.
  unfoldable pub finish_outbox : Tables → Result (Unit {0}) → M Body (Result (Unit {0}))
  unfolding tx_rollback tx_commit
  finish_outbox saved (err e) = do tx_rollback env saved; pure (err e)
  finish_outbox saved (ok _) = tx_commit env saved tt

  -- The `Commit` of a request, or the deferred `Rollback` where a statement failed. After the `Commit`
  -- that `Rollback` finds the transaction closed.
  unfoldable pub finish_request :
      Tables → Result (Option ℕ × List Item) → M Body (Result (Option ℕ × List Item))
  unfolding tx_rollback tx_commit
  finish_request saved (err e) = do tx_rollback env saved; pure (err e)
  finish_request saved (ok a) = tx_commit env saved a

  -- The outbox row of a failed publication, in a transaction of its own; a failure is only logged.
  unfoldable pub to_outbox : Notification → M Body Item
  unfolding transact finish_outbox enqueue_outbox
  to_outbox n = do
    transact env finish_outbox (λ now. enqueue_outbox env now n.id [])
    pure (n, true)

  -- After `PublishNotification`.
  unfoldable pub item_sent : Notification → Result (Unit {0}) → M Body Item
  unfolding mark_queued_with_retry to_outbox mark_item
  item_sent n (ok _) = do r ← mark_queued_with_retry env n.id (pos 5); pure (mark_item n r)
  item_sent n (err e) = to_outbox n

module _ (wire : Wire) (env : ℕ → Turn) (mc : List (Str × Str)) where
  -- After `GetByID`; the response keeps the row as it was inserted.
  unfoldable pub item_read : ℕ → Notification → Result Notification → M wire.Body Item
  unfolding is_later publish_notification item_sent
  item_read now n (err e) = pure (n, true)
  item_read now n (ok m) =
      if is_later now m.scheduled_at
      then pure (n, true)
      else (do r ← publish_notification wire env mc m; item_sent env n r)

  unfoldable pub publish_item : ℕ → Item → M wire.Body Item
  unfolding get_by_id item_read
  publish_item now (n, false) = pure (n, false)
  publish_item now (n, true) = do r ← get_by_id env n.id; item_read now n r

  unfoldable pub publish_all : ℕ → List Item → M wire.Body (List Item)
  unfolding publish_item
  publish_all now [] = pure []
  publish_all now (n ∷ ns) = do n' ← publish_item now n; rest ← publish_all now ns; pure (n' ∷ rest)

  -- After the commit, at the time of the next turn.
  unfoldable pub committed : Result (Option ℕ × List Item) → M wire.Body Response
  unfolding publish_all idempotent_hits
  committed (err e) w = (server_error, w)
  committed (ok (batch, ns)) w =
      let (done, w') = publish_all (env w.tick).now ns w in
      (created batch done (idempotent_hits ns), w')

  unfoldable pub accept : Str → Str → List CreateItem → M wire.Body Response
  unfolding transact finish_request store_all committed
  accept metadata corr its = do
    r ← transact env (finish_request env) (store_all env metadata corr its)
    committed r

  unfoldable pub or_invalid : List (ℕ × Problem) → M wire.Body Response → M wire.Body Response
  or_invalid [] act = act
  or_invalid (p ∷ ps) act = pure (invalid (p ∷ ps))

  unfoldable pub create_notifications : Str → Str → Str → List CreateItem → M wire.Body Response
  unfolding problems or_invalid accept correlation_of
  create_notifications request_id made_id metadata [] = pure empty_request
  create_notifications request_id made_id metadata (it ∷ its) =
      if ltb 1000 (length (it ∷ its))
      then pure too_many
      else or_invalid (problems 0 (it ∷ its))
          (accept metadata (correlation_of request_id made_id) (it ∷ its))
