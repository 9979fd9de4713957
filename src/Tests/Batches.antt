-- ===== src/Tests/Batches.antt =====
-- Several messages that wait, and a request of several items.
use notify_stream.Prelude.{
  ℕ, ◌≡◌, ◌≢◌, ◌==◌, if◌then◌else◌, refl, none, some, List, [], ◌∷◌, codes, map, is_blank, is_space,
  trim_space, str_eq, arith,
}
use notify_stream.Prelude.Int.{pos}
use notify_stream.Domain.Types.{
  CreateItem, delivered, queued, sending, status_eq, is_channel, is_priority,
}
use notify_stream.Domain.Validate.{validate, content_problem}
use notify_stream.Domain.Validate.Sound.{IsAcceptable, validate_iff}
use notify_stream.Amqp.Headers.{retry_count, lookup, field_int32, header_retry}
use notify_stream.Db.Tables.{find_row, status_in}
use notify_stream.Db.Change.{key_taken}
use notify_stream.Db.Create.{key_of, is_clean, has_nul, row_of, is_text, escapes_nul}
use notify_stream.Api.Create.{create_notifications, correlation_of}
use notify_stream.Flow.Batch.{CompletesAll, create_notifications-CompletesAll}
use notify_stream.Worker.Queue.{work}
use notify_stream.Worker.Queue.Drained.{Ticket, IsReady, Drained}
use notify_stream.Worker.Queue.Finite.{work-Drained}
use notify_stream.Worker.Envelope.{enrich_envelope}
use notify_stream.Worker.Handle.{emit_status}
use notify_stream.Amqp.Client.{publish_status}
use notify_stream.Db.Store.{found}
use notify_stream.Db.Change.{run, apply}
use notify_stream.Delivery.Webhook.{classify}
use notify_stream.World.{Turn, fine, refused, lost_after, World, Event}
use notify_stream.Api.Create.Undone.{create_notifications-tables}
use notify_stream.Amqp.Publish.{or_normal}
use notify_stream.Tests.Fixtures.{
  plain_wire, plain_json, quiet, quiet-IsQuiet, row, start, tables_of, envelope, delivery,
}
use notify_stream.Tests.Flows.{marshalled, read_back, request, request-IsAcceptable}
use notify_stream.Tests.Retries.{failing, failing-IsQuiet}

abbrev two_rows : World plain_wire.Body
two_rows = record start { tables = tables_of (row 7 queued ∷ row 9 sending ∷ []) }

-- Row 7, retried twice, and row 9, retried five times.
abbrev first_ticket : Ticket plain_wire.Body
first_ticket = record { message = delivery; id = 7; retries = 2 }

abbrev last_ticket : Ticket plain_wire.Body
last_ticket = record {
  message = record delivery {
    body = record envelope { id = 9 ∷ [] };
    headers = (header_retry, field_int32 (pos 5)) ∷ [];
  };
  id = 9;
  retries = 5;
}

first_ticket-IsReady : IsReady plain_wire two_rows.tables first_ticket
unfolding retry_count lookup str_eq find_row status_eq is_blank trim_space is_space
first_ticket-IsReady = record {
  envelope = envelope;
  row = row 7 queued;
  text = codes " hello ";
  few = omega arith;
  count = refl;
  body = refl;
  parsed = refl;
  here = refl;
  live = refl;
  content = refl;
  ink = refl;
}

last_ticket-IsReady : IsReady plain_wire two_rows.tables last_ticket
unfolding retry_count lookup str_eq find_row status_eq is_blank trim_space is_space
last_ticket-IsReady = record {
  envelope = record envelope { id = 9 ∷ [] };
  row = row 9 sending;
  text = codes " hello ";
  few = omega arith;
  count = refl;
  body = refl;
  parsed = refl;
  here = refl;
  live = refl;
  content = refl;
  ink = refl;
}

-- The message at the end is delivered first.
abbrev order : ℕ → ℕ
order t = 1

work-Drained_example : Drained (first_ticket ∷ last_ticket ∷ []) 5 two_rows (
    work plain_wire plain_json failing order 5
      (map (λ (t : Ticket plain_wire.Body). t.message) (first_ticket ∷ last_ticket ∷ []))
      two_rows)
work-Drained_example =
    work-Drained plain_wire plain_json failing failing-IsQuiet order 5
      (first_ticket ∷ last_ticket ∷ []) two_rows (first_ticket-IsReady, (last_ticket-IsReady, tt))
      ((omega arith, tt), (tt, tt)) (omega arith)

-- Two items, the second one without a key.
abbrev other_request : CreateItem
other_request = record request { idempotency_key = none; recipient = codes "+90777" }

abbrev items : List CreateItem
items = request ∷ other_request ∷ []

other_request-IsAcceptable : IsAcceptable other_request
unfolding validate is_blank trim_space is_space is_channel str_eq is_priority content_problem
other_request-IsAcceptable = (validate_iff other_request).0 refl

uuids_differ : (s t : ℕ) → (quiet s).uuid ≡ (quiet t).uuid → s ≡ t
uuids_differ s t e = omega arith

create_notifications-CompletesAll_example :
    let (r, w1) = create_notifications plain_wire quiet [] (codes "r") [] [] items start in
    CompletesAll plain_wire plain_json quiet order items start r w1
unfolding key_taken key_of is_blank trim_space is_space str_eq is_clean has_nul row_of is_text
    escapes_nul correlation_of
create_notifications-CompletesAll_example =
    create_notifications-CompletesAll plain_wire plain_json quiet quiet-IsQuiet order [] marshalled
      read_back (λ id. refl) refl (codes "r") [] [] items start (omega arith) (omega arith)
      (
        record { acceptable = request-IsAcceptable; template = refl; at = refl; clean = refl },
        (
          record {
            acceptable = other_request-IsAcceptable;
            template = refl;
            at = refl;
            clean = refl;
          },
          tt,
        ),
      )
      refl (refl, (tt, tt), (refl, tt, tt)) (λ t. (grind arith, (grind arith, tt))) uuids_differ

-- The second row of the request is refused, behind its batch and its first row.
abbrev refusing : ℕ → Turn
refusing t = record (quiet t) { fault = if t == 3 then refused else fine }

refusing_heard : (t : ℕ) → (refusing t).fault ≢ lost_after
refusing_heard t = ground arith

create_notifications-tables_example :
    (create_notifications plain_wire refusing [] (codes "r") [] [] items start).1.tables
    ≡ start.tables
unfolding create_notifications is_blank trim_space is_space is_channel str_eq is_priority
    content_problem or_normal apply run has_nul is_text escapes_nul
create_notifications-tables_example =
    create_notifications-tables plain_wire refusing (λ t. refl) refusing_heard [] (codes "r") [] []
      items start refl

-- Both rows are delivered, the second one first.
work_run :
    let (left, w) =
      work plain_wire plain_json quiet order 5
        (first_ticket.message ∷ last_ticket.message ∷ [])
        two_rows in
    (left ≡ [])
    × (status_in 7 w.tables.notifications ≡ some delivered)
    × (map (λ (e : Event). e.notification_id) w.events ≡ 9 ∷ 7 ∷ [])
unfolding work status_in enrich_envelope lookup str_eq found find_row run status_eq is_blank
    trim_space is_space apply classify retry_count emit_status publish_status
work_run = (refl, refl, refl)
