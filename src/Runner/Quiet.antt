-- ===== src/Runner/Quiet.antt =====
-- The relay's handling of an entry, when nothing fails and nobody interferes.
use mathlib.Core.Path.{subst}
use notify_stream.Prelude.{
  ℕ, suc, ◌≡◌, refl, sym, ap, ◌∙◌, true, false, Bool-cases, inl, inr, some, List, [], ◌∷◌, ◌++◌,
  Str, arith,
}
use notify_stream.Domain.Types.{Notification, Status, pending, status_eq}
use notify_stream.Amqp.Publish.{Wire, Message, message_of}
use notify_stream.Amqp.Client.{publish_notification, publish_marshalled, publish, send}
use notify_stream.Db.Tables.{OutboxRow, Tables, find_row, status_in}
use notify_stream.Db.Change.{Change, publish_row, run, apply, update_by}
use notify_stream.Db.Claims.{mark_outbox_published}
use notify_stream.Db.Claims.Quiet.{mark_queued_quiet}
use notify_stream.Db.Store.{get_by_id, read, found, ignored}
use notify_stream.Db.Transaction.{tx_exec, tx_execute, tx_commit, commit}
use notify_stream.Runner.{
  finish_claim, ending, queue_and_publish, queue_entry, entry_sent, entry_read,
  process_outbox_entry,
}
use notify_stream.World.{Turn, World, Result, ok, arrive, M}
use notify_stream.Worker.Handle.Contract.{find_row-status}
use notify_stream.World.Quiet.{IsQuiet}

-- The entry is done: its row and the notifications are changed by statements.
pub record Relayed (now : ℕ) (e : OutboxRow) (db db' : Tables) : Type 0 where
  pub statements : List (Change × ℕ)
  pub tables_run : db' ≡ run statements db
  pub outbox : db'.outbox ≡ (publish_row now e.id db.outbox).0

status_same : (s : Status) → status_eq s pending ≡ true → s ≡ pending
unfolding status_eq
status_same s h = ground arith

module _ {Body : Type 0} (env : ℕ → Turn) (q : IsQuiet env) where
  mark_published_quiet :
      (now id : ℕ) (w : World Body)
      → mark_outbox_published env now id w ≡ (
        ok tt,
        record w { tables = (apply (Change.publish_outbox id) now w.tables).0; tick = suc w.tick },
      )
  unfolding mark_outbox_published tx_exec tx_execute ignored
  mark_published_quiet now id w = rw (q.works w.tick) refl

  pub close_quiet :
      (saved : Tables) (w : World Body)
      → finish_claim env saved (ok tt) w ≡ (ok tt, record w { tick = suc w.tick })
  unfolding finish_claim tx_commit commit arrive run
  close_quiet saved w = rw (q.works w.tick, q.alone w.tick) refl

  pub get_quiet :
      (id : ℕ) (w : World Body) {n : Notification}
      → find_row id w.tables.notifications ≡ some n
      → get_by_id env id w ≡ (ok n, record w { tick = suc w.tick })
  unfolding get_by_id read found arrive run
  get_quiet id w row = rw (q.works w.tick, q.alone w.tick, row) refl

  pub publish_quiet :
      (m : Message Body) (w : World Body)
      → publish_marshalled env (some m) w
        ≡ (ok tt, record w { published = w.published ++ m ∷ []; tick = suc w.tick })
  unfolding publish_marshalled publish send arrive run
  publish_quiet m w = rw (q.works w.tick, q.alone w.tick) refl

  pub queue_entry_quiet :
      (now : ℕ) (e : OutboxRow) (w : World Body)
      → status_in e.notification_id w.tables.notifications ≡ some pending
      → queue_entry env now e w ≡ (
        ok tt,
        record w {
          tables =
              run
                ((Change.mark_queued e.notification_id, now)
                  ∷ (Change.publish_outbox e.id, now)
                  ∷ [])
                w.tables;
          tick = suc (suc w.tick);
        },
      )
  unfolding queue_entry queue_and_publish run
  queue_entry_quiet now e w s =
      let w1 : World Body = record w {
        tables = (apply (Change.mark_queued e.notification_id) now w.tables).0;
        tick = suc w.tick;
      } in
      ap (λ r. queue_and_publish env now e r.0 r.1)
        (mark_queued_quiet env q now e.notification_id w s)
      ∙ mark_published_quiet now e.id w1

  -- The statements of a transaction that commits.
  ending_quiet :
      (body : M Body (Result (Unit {0}))) (w : World Body) {w' : World Body}
      → body w ≡ (ok tt, w')
      → (ending env body w).1.tables ≡ w'.tables
  unfolding ending
  ending_quiet body w {w'} h =
      ap (λ r. (finish_claim env w.tables r.0 r.1).1.tables) h
      ∙ ap (λ r. r.1.tables) (close_quiet w.tables w')

module _ (wire : Wire) (env : ℕ → Turn) (q : IsQuiet env) (mc : List (Str × Str))
    (total : (n : Notification) → (m : Message wire.Body) × (message_of wire mc n ≡ some m)) where
  entry_read_other :
      (now : ℕ) (e : OutboxRow) (n : Notification) (w : World wire.Body)
      → status_eq n.status pending ≡ false
      → Relayed now e w.tables (entry_read wire env mc now e (ok n) w).1.tables
  unfolding entry_read run apply
  entry_read_other now e n w s = rw s (record {
    statements = (Change.publish_outbox e.id, now) ∷ [];
    tables_run =
        ending_quiet env q (mark_outbox_published env now e.id) w
          (mark_published_quiet env q now e.id w);
    outbox =
        ap (λ t. t.outbox)
          (ending_quiet env q (mark_outbox_published env now e.id) w
            (mark_published_quiet env q now e.id w));
  })

  entry_read_pending :
      (now : ℕ) (e : OutboxRow) (n : Notification) (w : World wire.Body)
      → status_eq n.status pending ≡ true
      → status_in e.notification_id w.tables.notifications ≡ some pending
      → Relayed now e w.tables (entry_read wire env mc now e (ok n) w).1.tables
  unfolding entry_read entry_sent publish_notification run apply update_by
  entry_read_pending now e n w s row =
      let (m, msg) = total n in
      let w1 : World wire.Body = record w {
        published = w.published ++ m ∷ [];
        tick = suc w.tick;
      } in
      let sent : publish_marshalled env (message_of wire mc n) w ≡ (ok tt, w1) =
        ap (λ o. publish_marshalled env o w) msg ∙ publish_quiet env q m w in
      let done =
        ap (λ r. (entry_sent env now e r.0 r.1).1.tables) sent
        ∙ ending_quiet env q (queue_entry env now e) w1 (queue_entry_quiet env q now e w1 row) in
      rw s (record {
        statements =
            (Change.mark_queued e.notification_id, now) ∷ (Change.publish_outbox e.id, now) ∷ [];
        tables_run = done;
        outbox = ap (λ t. t.outbox) done;
      })

  -- An entry whose notification is there is done.
  pub process_outbox_entry-Relayed :
      (now : ℕ) (e : OutboxRow) (w : World wire.Body) {n : Notification}
      → find_row e.notification_id w.tables.notifications ≡ some n
      → Relayed now e w.tables (process_outbox_entry wire env mc now e w).1.tables
  unfolding process_outbox_entry
  process_outbox_entry-Relayed now e w {n} row =
      subst (λ r. Relayed now e w.tables (entry_read wire env mc now e r.0 r.1).1.tables)
        (sym (get_quiet env q e.notification_id w row))
        (elim (Bool-cases (status_eq n.status pending)) [
          | inl s ↦
              entry_read_pending now e n (record w { tick = suc w.tick }) s
                (find_row-status e.notification_id w.tables.notifications row
                  ∙ ap some (status_same n.status s))
          | inr s ↦ entry_read_other now e n (record w { tick = suc w.tick }) s
        ])
