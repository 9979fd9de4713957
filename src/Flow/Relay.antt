-- ===== src/Flow/Relay.antt =====
-- An outbox entry or a due notification: internal/runner/background.go, and the worker.
use mathlib.Core.Path.{subst}
use notify_stream.Prelude.{
  ℕ, suc, ◌≡◌, ◌≢◌, refl, sym, ap, ◌∙◌, true, false, Option, none, some, List, [], ◌∷◌, ◌++◌, Str,
  is_blank, arith,
}
use notify_stream.Domain.Types.{Notification, pending, status_eq}
use notify_stream.Domain.Template.{Json}
use notify_stream.Amqp.Headers.{header_retry}
use notify_stream.Amqp.Publish.{Wire, Envelope, Message, message_of}
use notify_stream.Amqp.Client.{publish_notification}
use notify_stream.Amqp.Trace.Carried.{injected}
use notify_stream.Db.Tables.{OutboxRow, find_row}
use notify_stream.Db.Change.{Change, apply, run, is_null}
use notify_stream.Db.Claims.{mark_queued}
use notify_stream.Db.Claims.Quiet.{queued_at, mark_queued_quiet}
use notify_stream.Flow.Message.{queued_row, message_ends}
use notify_stream.Runner.{
  finish_claim, ending, entry_sent, entry_read, process_outbox_entry, queue_entry, scheduled_sent,
  scheduled_read, process_scheduled,
}
use notify_stream.Runner.Quiet.{get_quiet, publish_quiet, close_quiet, queue_entry_quiet}
use notify_stream.Worker.Handle.Chain.{IsOver, handle_all}
use notify_stream.Worker.Handle.Contract.{find_row-status}
use notify_stream.World.{Turn, World, Result, ok, M}
use notify_stream.World.Quiet.{IsQuiet}

id-find_row :
    (id : ℕ) (ns : List Notification) {n : Notification} → find_row id ns ≡ some n → n.id ≡ id
unfolding find_row
id-find_row id [] e = absurd (cc)
id-find_row id (m ∷ ns) {n} e = ground (arith, id-find_row id ns {n = n})

pending_test : (n : Notification) → n.status ≡ pending → status_eq n.status pending ≡ true
unfolding status_eq
pending_test n e = ground arith

not_null : (o : Option ℕ) → o ≢ none → is_null o ≡ false
not_null none h = absurd (h refl)
not_null (some t) h = refl

module _ {Body : Type 0} (env : ℕ → Turn) (q : IsQuiet env) where
  ending_ok :
      (body : M Body (Result (Unit {0}))) (w : World Body) {w' : World Body}
      → body w ≡ (ok tt, w')
      → ending env body w ≡ (ok tt, record w' { tick = suc w'.tick })
  unfolding ending
  ending_ok body w {w'} h =
      ap (λ r. finish_claim env w.tables r.0 r.1) h ∙ close_quiet env q w.tables w'

module _ (wire : Wire) (json : Json) (env : ℕ → Turn) (q : IsQuiet env) (mc : List (Str × Str))
    (total : (n : Notification) → (m : Message wire.Body) × (message_of wire mc n ≡ some m))
    (read_back : (e : Envelope) (b : wire.Body)
      → wire.marshal e ≡ some b
      → wire.unmarshal b ≡ some e)
    (uuid_back : (id : ℕ) → wire.parse_uuid (wire.uuid_string id) ≡ some id)
    (fresh : injected header_retry mc ≡ none) where
  -- One message is sent, and it brings the notification to its end.
  abbrev pub Delivers : ℕ → World wire.Body → World wire.Body → Type 0
  Delivers id w w1 =
      (m : Message wire.Body) × (w1.published ≡ w.published ++ m ∷ [])
      × IsOver id 6 w1 (handle_all wire json env 6 m w1)

  module _ (now : ℕ) (e : OutboxRow) (w : World wire.Body) {n : Notification}
      {m : Message wire.Body} (row : find_row e.notification_id w.tables.notifications ≡ some n)
      (s : n.status ≡ pending) (msg : message_of wire mc n ≡ some m) where
    abbrev relayed_world : World wire.Body
    relayed_world = record w {
      tables =
          (apply (Change.publish_outbox e.id) now (queued_at now e.notification_id w.tables)).0;
      published = w.published ++ m ∷ [];
      tick = suc (suc (suc (suc (suc w.tick))));
    }

    relay_quiet : process_outbox_entry wire env mc now e w ≡ (ok tt, relayed_world)
    unfolding process_outbox_entry entry_read entry_sent publish_notification run
    relay_quiet =
        rw
          (
            get_quiet env q e.notification_id w row,
            pending_test n s,
            msg,
            publish_quiet env q m (record w { tick = suc w.tick }),
            ending_ok env q (queue_entry env now e)
                (record w { published = w.published ++ m ∷ []; tick = suc (suc w.tick) })
                (queue_entry_quiet env q now e
                  (record w { published = w.published ++ m ∷ []; tick = suc (suc w.tick) })
                  (find_row-status e.notification_id w.tables.notifications row ∙ ap some s)),
          )
          refl

  -- When nothing fails and nobody interferes, the relay's handling of an outbox entry whose
  -- notification is pending and has a text of its own sends one message, and the deliveries of this
  -- message, and of what is published again for it, end within six: the row is delivered or failed,
  -- after six requests to the provider at most, and one status event was sent. JSON and UUIDs are taken
  -- to be read back as they were printed, and no trace header to be the retry count.
  pub process_outbox_entry-Delivers :
      (now : ℕ) (e : OutboxRow) (w : World wire.Body) {n : Notification} {c : Str}
      → find_row e.notification_id w.tables.notifications ≡ some n
      → n.status ≡ pending
      → n.content ≡ some c
      → is_blank c ≡ false
      → Delivers e.notification_id w (process_outbox_entry wire env mc now e w).1
  unfolding apply
  process_outbox_entry-Delivers now e w {n} row s content ink =
      let (m, msg) = total n in
      let (n', row', live, same) = queued_row now e.notification_id w.tables row s in
      let k : n.id ≡ e.notification_id = id-find_row e.notification_id w.tables.notifications row in
      rw (relay_quiet now e w row s msg) (
        m,
        refl,
        subst
            (λ id.
              IsOver id 6 (relayed_world now e w row s msg)
                (handle_all wire json env 6 m (relayed_world now e w row s msg)))
            k
            (message_ends wire json env q mc read_back uuid_back fresh n
              (relayed_world now e w row s msg) msg
              (subst
                (λ id.
                  find_row id (queued_at now e.notification_id w.tables).notifications ≡ some n')
                (sym k) row')
              live (same ∙ content) ink),
      )

  module _ (now id : ℕ) (w : World wire.Body) {n : Notification} {m : Message wire.Body}
      (row : find_row id w.tables.notifications ≡ some n) (s : n.status ≡ pending)
      (due : n.scheduled_at ≢ none) (msg : message_of wire mc n ≡ some m) where
    abbrev scheduled_world : World wire.Body
    scheduled_world = record w {
      tables = queued_at now id w.tables;
      published = w.published ++ m ∷ [];
      tick = suc (suc (suc (suc w.tick)));
    }

    schedule_quiet : process_scheduled wire env mc now id w ≡ (ok tt, scheduled_world)
    unfolding process_scheduled scheduled_read scheduled_sent publish_notification
    schedule_quiet =
        rw
          (
            get_quiet env q id w row,
            pending_test n s,
            not_null n.scheduled_at due,
            msg,
            publish_quiet env q m (record w { tick = suc w.tick }),
            ending_ok env q (mark_queued env now id)
                (record w { published = w.published ++ m ∷ []; tick = suc (suc w.tick) })
                (mark_queued_quiet env q now id
                  (record w { published = w.published ++ m ∷ []; tick = suc (suc w.tick) })
                  (find_row-status id w.tables.notifications row ∙ ap some s)),
          )
          refl

  -- When nothing fails and nobody interferes, the scheduler's handling of a notification that is
  -- pending, has a time and has a text of its own sends one message, and the deliveries of this
  -- message, and of what is published again for it, end within six: the row is delivered or failed,
  -- after six requests to the provider at most, and one status event was sent. JSON and UUIDs are taken
  -- to be read back as they were printed, and no trace header to be the retry count.
  pub process_scheduled-Delivers :
      (now id : ℕ) (w : World wire.Body) {n : Notification} {c : Str}
      → find_row id w.tables.notifications ≡ some n
      → n.status ≡ pending
      → n.scheduled_at ≢ none
      → n.content ≡ some c
      → is_blank c ≡ false
      → Delivers id w (process_scheduled wire env mc now id w).1
  process_scheduled-Delivers now id w {n} row s due content ink =
      let (m, msg) = total n in
      let (n', row', live, same) = queued_row now id w.tables row s in
      let k : n.id ≡ id = id-find_row id w.tables.notifications row in
      rw (schedule_quiet now id w row s due msg) (
        m,
        refl,
        subst
            (λ i.
              IsOver i 6 (scheduled_world now id w row s due msg)
                (handle_all wire json env 6 m (scheduled_world now id w row s due msg)))
            k
            (message_ends wire json env q mc read_back uuid_back fresh n
              (scheduled_world now id w row s due msg) msg
              (subst (λ i. find_row i (queued_at now id w.tables).notifications ≡ some n') (sym k)
                row')
              live (same ∙ content) ink),
      )
