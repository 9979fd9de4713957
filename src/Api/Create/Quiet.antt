-- ===== src/Api/Create/Quiet.antt =====
-- A request of one item, when nothing fails and nobody interferes.
use notify_stream.Prelude.{
  ℕ, suc, ◌≡◌, refl, true, false, Option, none, some, List, [], ◌∷◌, ◌++◌, Str, arith,
}
use notify_stream.Domain.Types.{Notification, CreateItem, pending, queued}
use notify_stream.Domain.Validate.{validate}
use notify_stream.Amqp.Publish.{Wire, Message, message_of}
use notify_stream.Amqp.Client.{publish_notification}
use notify_stream.Db.Tables.{Tables, find_row, status_in, IsNew}
use notify_stream.Db.Change.{apply, key_taken, insert_unless}
use notify_stream.Db.Claims.Quiet.{queued_at, mark_queued_with_retry_quiet}
use notify_stream.Db.Create.{
  has_template, row_of, is_storable, settled, store_row, insert_notification,
}
use notify_stream.Db.Transaction.{tx_exec, tx_execute}
use notify_stream.Api.Create.{finish_request}
use notify_stream.Db.Transaction.Fine.{transact_quiet}
use notify_stream.Runner.Quiet.{get_quiet, publish_quiet}
use notify_stream.Api.Create.{
  created, problems, with_problem, or_invalid, correlation_of, store_all, insert_all, inserted,
  collect, with_batch, mark_item, item_sent, item_read, publish_item, publish_all, is_later,
  committed, accept, create_notifications, idempotent_hits,
}
use notify_stream.World.{Turn, World, ok}
use notify_stream.World.Quiet.{IsQuiet}
use notify_stream.Worker.Handle.Contract.{find_row-status}

pub find_new :
    (ns : List Notification) (n : Notification)
    → IsNew n.id ns
    → find_row n.id (ns ++ n ∷ []) ≡ some n
unfolding find_row
find_new [] n h = ground arith
find_new (m ∷ ns) n (ne, h) = ground (arith, find_new ns n h)

pub not_later : (now : ℕ) (o : Option ℕ) → o ≡ none → is_later now o ≡ false
unfolding is_later
not_later now none e = refl
not_later now (some t) e = absurd (cc)

-- With a row behind those of the table.
abbrev pub with_row : Notification → Tables → Tables
with_row n db = record db { notifications = db.notifications ++ n ∷ [] }

module _ {Body : Type 0} (env : ℕ → Turn) (q : IsQuiet env) where
  pub store_row_quiet :
      (now : ℕ) (n : Notification) (w : World Body)
      → is_storable n ≡ true
      → key_taken n.idempotency_key w.tables.notifications ≡ false
      → has_template n.template_id w.tables.templates ≡ true
      → store_row env now n w
        ≡ (ok (n, true), record w { tables = with_row n w.tables; tick = suc w.tick })
  unfolding store_row tx_exec tx_execute apply insert_unless settled
  store_row_quiet now n w s f there = rw (s, f, there, q.works w.tick, f) refl

  store_one_quiet :
      (metadata corr : Str) (item : CreateItem) (now : ℕ) (w : World Body)
      → let n = row_of (env w.tick).uuid now none item (some corr) in
        is_storable n ≡ true
        → key_taken n.idempotency_key w.tables.notifications ≡ false
        → has_template n.template_id w.tables.templates ≡ true
        → store_all env metadata corr (item ∷ []) now w ≡ (
          ok (none, (n, true) ∷ []),
          record w { tables = with_row n w.tables; tick = suc w.tick },
        )
  unfolding store_all insert_all inserted collect with_batch insert_notification
  store_one_quiet metadata corr item now w s f there =
      rw (store_row_quiet now (row_of (env w.tick).uuid now none item (some corr)) w s f there) refl

module _ (wire : Wire) (env : ℕ → Turn) (q : IsQuiet env) (mc : List (Str × Str)) where
  -- A pending row, published and queued.
  abbrev pub sent_world : Notification → Message wire.Body → World wire.Body → World wire.Body
  sent_world n m w = record w {
    tables = queued_at (env (suc (suc w.tick))).now n.id w.tables;
    published = w.published ++ m ∷ [];
    tick = suc (suc (suc (suc (suc w.tick))));
  }

  pub publish_item_quiet :
      (now : ℕ) (n : Notification) (w : World wire.Body) {m : Message wire.Body}
      → find_row n.id w.tables.notifications ≡ some n
      → status_in n.id w.tables.notifications ≡ some pending
      → n.scheduled_at ≡ none
      → message_of wire mc n ≡ some m
      → publish_item wire env mc now (n, true) w
        ≡ ((record n { status = queued }, true), sent_world n m w)
  unfolding publish_item item_read publish_notification item_sent mark_item
  publish_item_quiet now n w {m} row s at msg =
      rw
        (
          get_quiet env q n.id w row,
          not_later now n.scheduled_at at,
          msg,
          publish_quiet env q m (record w { tick = suc w.tick }),
          mark_queued_with_retry_quiet env q n.id
              (record w { published = w.published ++ m ∷ []; tick = suc (suc w.tick) }) s,
        )
        refl

  -- The row of the item.
  abbrev pub made_row : Str → Str → CreateItem → World wire.Body → Notification
  made_row request_id made_id item w =
      row_of (env (suc w.tick)).uuid (env w.tick).now none item
        (some (correlation_of request_id made_id))

  -- Where it is stored.
  abbrev pub stored_world : Notification → World wire.Body → World wire.Body
  stored_world n w = record w { tables = with_row n w.tables; tick = suc (suc (suc w.tick)) }

  module _ (request_id made_id metadata : Str) (item : CreateItem) (w : World wire.Body) where
    pub create_one_quiet :
        {m : Message wire.Body}
        → let n = made_row request_id made_id item w in
          validate item ≡ none
          → is_storable n ≡ true
          → key_taken n.idempotency_key w.tables.notifications ≡ false
          → has_template n.template_id w.tables.templates ≡ true
          → IsNew n.id w.tables.notifications
          → item.scheduled_at ≡ none
          → message_of wire mc n ≡ some m
          → create_notifications wire env mc request_id made_id metadata (item ∷ []) w ≡ (
            created none ((record n { status = queued }, true) ∷ []) 0,
            sent_world n m (stored_world n w),
          )
    unfolding create_notifications problems with_problem or_invalid accept committed publish_all
        idempotent_hits finish_request
    create_one_quiet {m} valid s free there new at msg =
        let n : Notification = made_row request_id made_id item w in
        let w' : World wire.Body = stored_world n w in
        let stored =
          transact_quiet env q (finish_request env) (λ s a v. refl)
            (store_all env metadata (correlation_of request_id made_id) (item ∷ [])) w
            (store_one_quiet env q metadata (correlation_of request_id made_id) item
              (env w.tick).now (record w { tick = suc w.tick }) s free there) in
        let row : find_row n.id w'.tables.notifications ≡ some n =
          find_new w.tables.notifications n new in
        rw
          (
            valid,
            stored,
            publish_item_quiet (env w'.tick).now n w' row
                (find_row-status n.id w'.tables.notifications row) at msg,
          )
          refl
