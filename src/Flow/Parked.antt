-- ===== src/Flow/Parked.antt =====
-- A notification whose publication failed: the loop of `CreateNotifications`,
-- internal/api/handlers.go, puts it into the outbox, and the relay takes it from there.
use notify_stream.Prelude.{
  ℕ, suc, ◌≡◌, ◌≢◌, refl, ◌∙◌, true, false, none, some, List, [], ◌∷◌, ◌++◌, Str, is_blank, arith,
}
use notify_stream.Domain.Types.{Notification, pending}
use notify_stream.Domain.Template.{Json}
use notify_stream.Amqp.Headers.{header_retry}
use notify_stream.Amqp.Publish.{Wire, Envelope, Message, message_of}
use notify_stream.Amqp.Client.{publish_notification, publish_marshalled, publish, send}
use notify_stream.Amqp.Trace.Carried.{injected}
use notify_stream.Api.Create.{publish_item, item_read, item_sent, to_outbox}
use notify_stream.Api.Create.Quiet.{not_later}
use notify_stream.Db.Tables.{OutboxRow, Tables, find_row}
use notify_stream.Db.Change.{apply, run}
use notify_stream.Db.Create.{enqueue_outbox}
use notify_stream.Db.Store.{get_by_id, read, found, ignored}
use notify_stream.Db.Transaction.{transact, begun, tx_commit, commit, tx_exec, tx_execute}
use notify_stream.Flow.Relay.{Delivers, process_outbox_entry-Delivers}
use notify_stream.Api.Create.{finish_outbox}
use notify_stream.Runner.{process_outbox_entry}
use notify_stream.World.{
  Fault, fine, lost_before, lost_after, refused, Turn, World, amqp_error, ok, err, arrive,
}
use notify_stream.World.Quiet.{IsQuiet}

-- Nobody else acts, and nothing fails but the call of turn `k`, if that does.
pub record FailsAt (k : ℕ) (env : ℕ → Turn) : Type 0 where
  pub alone : (t : ℕ) → (env t).others ≡ []
  pub fails : (env k).fault ≢ fine
  pub works : (t : ℕ) → t ≢ k → (env t).fault ≡ fine

module _ {Body : Type 0} where
  send_fails :
      (f : Fault) (m : Message Body) (w : World Body)
      → f ≢ fine
      → (ms : List (Message Body)) × (send f m w ≡ (err amqp_error, record w { published = ms }))
  unfolding send
  send_fails fine m w h = absurd (h refl)
  send_fails lost_before m w h = (_, refl)
  send_fails lost_after m w h = (_, refl)
  send_fails refused m w h = (_, refl)

-- The entry, and the tables with it.
abbrev pub parked_entry : ℕ → ℕ → OutboxRow
parked_entry id n = record { id = id; notification_id = n; payload = []; published_at = none }

abbrev pub with_entry : OutboxRow → Tables → Tables
with_entry e db = record db { outbox = db.outbox ++ e ∷ [] }

module _ {Body : Type 0} (env : ℕ → Turn) (alone : (t : ℕ) → (env t).others ≡ []) where
  to_outbox_quiet :
      (n : Notification) (w : World Body)
      → (env w.tick).fault ≡ fine
      → (env (suc w.tick)).fault ≡ fine
      → (env (suc (suc w.tick))).fault ≡ fine
      → to_outbox env n w ≡ (
        (n, true),
        record w {
          tables = with_entry (parked_entry (env (suc w.tick)).uuid n.id) w.tables;
          tick = suc (suc (suc w.tick));
        },
      )
  unfolding to_outbox transact begun finish_outbox tx_commit commit arrive run enqueue_outbox
      tx_exec tx_execute ignored apply
  to_outbox_quiet n w a b c = rw (alone w.tick, a, b, c, alone) refl

  get_fine :
      (id : ℕ) (w : World Body) {n : Notification}
      → (env w.tick).fault ≡ fine
      → find_row id w.tables.notifications ≡ some n
      → get_by_id env id w ≡ (ok n, record w { tick = suc w.tick })
  unfolding get_by_id read found arrive run
  get_fine id w f row = rw (f, alone w.tick, row) refl

  publish_fails :
      (m : Message Body) (w : World Body)
      → (env w.tick).fault ≢ fine
      → (ms : List (Message Body)) × (publish_marshalled env (some m) w
          ≡ (err amqp_error, record w { published = ms; tick = suc w.tick }))
  unfolding publish_marshalled publish arrive run
  publish_fails m w h =
      let (ms, e) = send_fails (env w.tick).fault m (arrive env w) h in
      (ms, e ∙ rw (alone w.tick) refl)

module _ (wire : Wire) (env : ℕ → Turn) (mc : List (Str × Str)) where
  parked :
      (now : ℕ) (n : Notification) (w : World wire.Body) {m : Message wire.Body}
      → FailsAt (suc w.tick) env
      → find_row n.id w.tables.notifications ≡ some n
      → n.scheduled_at ≡ none
      → message_of wire mc n ≡ some m
      → (ms : List (Message wire.Body)) × (publish_item wire env mc now (n, true) w ≡ (
        (n, true),
        record w {
          tables = with_entry (parked_entry (env (suc (suc (suc w.tick)))).uuid n.id) w.tables;
          published = ms;
          tick = suc (suc (suc (suc (suc w.tick))));
        },
      ))
  unfolding publish_item item_read item_sent publish_notification
  parked now n w {m} f row at msg =
      let (ms, failed) = publish_fails env f.alone m (record w { tick = suc w.tick }) f.fails in
      (
        ms,
        rw
            (
              get_fine env f.alone n.id w (f.works w.tick (λ e. absurd (omega arith))) row,
              not_later now n.scheduled_at at,
              msg,
              failed,
              to_outbox_quiet env f.alone n (record w { published = ms; tick = suc (suc w.tick) })
                  (f.works _ (λ e. absurd (omega arith))) (f.works _ (λ e. absurd (omega arith)))
                  (f.works _ (λ e. absurd (omega arith))),
            )
            refl,
      )

module _ (wire : Wire) (json : Json) (mc : List (Str × Str))
    (total : (n : Notification) → (m : Message wire.Body) × (message_of wire mc n ≡ some m))
    (read_back : (e : Envelope) (b : wire.Body)
      → wire.marshal e ≡ some b
      → wire.unmarshal b ≡ some e)
    (uuid_back : (id : ℕ) → wire.parse_uuid (wire.uuid_string id) ≡ some id)
    (fresh : injected header_retry mc ≡ none) where
  -- The API publishes the pending row of a new notification with no time and with a text of its own,
  -- nobody else acts, and nothing fails but the publication. Then there is one outbox entry more, for
  -- the notification, and it is not published; and where nothing fails and nobody interferes any more,
  -- the relay's handling of this entry sends one message, whose deliveries bring the row to its end:
  -- within six, it is delivered or failed, after six requests to the provider at most, and one status
  -- event was sent. JSON and UUIDs are taken to be read back as they were printed, and no trace header
  -- to be the retry count.
  pub publish_item-Delivers :
      (env later : ℕ → Turn) (q : IsQuiet later) (now now' : ℕ) (n : Notification)
      (w : World wire.Body) {c : Str}
      → FailsAt (suc w.tick) env
      → find_row n.id w.tables.notifications ≡ some n
      → n.status ≡ pending
      → n.scheduled_at ≡ none
      → n.content ≡ some c
      → is_blank c ≡ false
      → let (r, w1) = publish_item wire env mc now (n, true) w in
        (e : OutboxRow) × (w1.tables.outbox ≡ w.tables.outbox ++ e ∷ [])
        × (e.notification_id ≡ n.id)
        × (e.published_at ≡ none)
        × Delivers wire json later q mc total read_back uuid_back fresh n.id w1
            (process_outbox_entry wire later mc now' e w1).1
  publish_item-Delivers env later q now now' n w f row s at content ink =
      let (m, msg) = total n in
      let (ms, done) = parked wire env mc now n w f row at msg in
      let e : OutboxRow = parked_entry (env (suc (suc (suc w.tick)))).uuid n.id in
      let w1 : World wire.Body = record w {
        tables = with_entry e w.tables;
        published = ms;
        tick = suc (suc (suc (suc (suc w.tick))));
      } in
      rw done (
        e,
        refl,
        refl,
        refl,
        process_outbox_entry-Delivers wire json later q mc total read_back uuid_back fresh now' e w1
            row s content ink,
      )
