-- ===== src/Flow/Request.antt =====
-- A request of one item: `CreateNotifications` of internal/api/handlers.go, and the worker.
use notify_stream.Prelude.{
  ℕ, suc, ◌≡◌, refl, ap, ◌∙◌, true, false, none, some, List, [], ◌∷◌, ◌++◌, Str,
}
use notify_stream.Domain.Types.{Notification, CreateItem, queued}
use notify_stream.Domain.Template.{Json}
use notify_stream.Domain.Validate.Sound.{IsAcceptable, validate_iff}
use notify_stream.Amqp.Headers.{header_retry}
use notify_stream.Amqp.Publish.{Wire, Envelope, Message, message_of}
use notify_stream.Amqp.Trace.Carried.{injected}
use notify_stream.Db.Tables.{IsNew}
use notify_stream.Db.Change.{key_taken}
use notify_stream.Db.Create.Accepted.{IsClean}
use notify_stream.Db.Create.{has_nul, key_of, row_of, trimmed}
use notify_stream.Api.Create.{Response, created, correlation_of, create_notifications}
use notify_stream.Api.Create.Stored.{text_of_item, text_there, not_blank, storable, needs_none}
use notify_stream.Api.Create.Quiet.{create_one_quiet, find_new, made_row, sent_world, stored_world}
use notify_stream.Worker.Handle.Chain.{IsOver, handle_all}
use notify_stream.World.{Turn, World}
use notify_stream.World.Quiet.{IsQuiet}
use notify_stream.Flow.Message.{queued_row, message_ends}

-- A request is accepted with one notification, which is queued; its message is the only one that was
-- sent; and the message, delivered to the worker, brings the notification to its end.
pub record Completes (wire : Wire) (json : Json) (env : ℕ → Turn) (w : World wire.Body)
    (r : Response) (w1 : World wire.Body) : Type 0 where
  pub notification : Notification
  pub message : Message wire.Body
  pub answer : r ≡ created none ((notification, true) ∷ []) 0
  pub status : notification.status ≡ queued
  pub published : w1.published ≡ w.published ++ message ∷ []
  pub over : IsOver notification.id 6 w1 (handle_all wire json env 6 message w1)

module _ (wire : Wire) (json : Json) (env : ℕ → Turn) (q : IsQuiet env) (mc : List (Str × Str))
    (total : (n : Notification) → (m : Message wire.Body) × (message_of wire mc n ≡ some m))
    (read_back : (e : Envelope) (b : wire.Body)
      → wire.marshal e ≡ some b
      → wire.unmarshal b ≡ some e)
    (uuid_back : (id : ℕ) → wire.parse_uuid (wire.uuid_string id) ≡ some id)
    (fresh : injected header_retry mc ≡ none) where
  -- When nothing fails and nobody interferes, an acceptable request of one item with a text, no template
  -- and no time, whose key is free, is answered with one notification, which is queued; its message is
  -- the only one that is sent; and the deliveries of this message, and of what is published again for
  -- it, end within six: the row is delivered or failed, after six requests to the provider at most, and
  -- one status event was sent. JSON and UUIDs are taken to be read back as they were printed, the new
  -- UUID to be new, no text of the request to have a NUL, and no trace header to be the retry count.
  pub create_notifications-Completes :
      (request_id made_id metadata : Str) (item : CreateItem) (w : World wire.Body)
      → IsAcceptable item
      → item.template_id ≡ none
      → item.scheduled_at ≡ none
      → IsClean item
      → has_nul (correlation_of request_id made_id) ≡ false
      → key_taken (key_of item.idempotency_key) w.tables.notifications ≡ false
      → IsNew (env (suc w.tick)).uuid w.tables.notifications
      → let (r, w1) = create_notifications wire env mc request_id made_id metadata (item ∷ []) w in
        Completes wire json env w r w1
  unfolding row_of trimmed
  create_notifications-Completes request_id made_id metadata item w acc template at clean readable
        free new =
      let n : Notification = made_row wire env q mc request_id made_id item w in
      let (m, msg) = total n in
      let w' : World wire.Body = stored_world wire env q mc n w in
      let w1 : World wire.Body = sent_world wire env q mc n m w' in
      let (c, text, ink) = text_of_item item.content (text_there item acc template) in
      let made =
        create_one_quiet wire env q mc request_id made_id metadata item w
          ((validate_iff item).1 acc)
          (storable n.id n.created_at none item (correlation_of request_id made_id) acc clean
            readable)
          free (needs_none item.template_id w.tables.templates template) new at msg in
      let (m', row, live, same) =
        queued_row (env (suc (suc w'.tick))).now n.id w'.tables
          (find_new w.tables.notifications n new) refl in
      rw made (record {
        notification = record n { status = queued };
        message = m;
        answer = refl;
        status = refl;
        published = refl;
        over =
            message_ends wire json env q mc read_back uuid_back fresh n w1 msg row live
              (same ∙ ap trimmed text) (not_blank c ink);
      })
