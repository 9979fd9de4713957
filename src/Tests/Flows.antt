-- ===== src/Tests/Flows.antt =====
-- A request, an outbox entry and a due notification, on their way to the provider.
use notify_stream.Prelude.{
  ℕ, ◌≡◌, refl, sym, none, some, List, [], ◌∷◌, codes, arith, is_blank, trim_space, is_space,
  str_eq, true, ◌==◌, if◌then◌else◌,
}
use notify_stream.Domain.Types.{
  Notification, CreateItem, pending, sms, high, is_channel, is_priority,
}
use notify_stream.Domain.Validate.{validate, content_problem}
use notify_stream.Domain.Validate.Sound.{IsAcceptable, validate_iff}
use notify_stream.Amqp.Publish.{Envelope, Message, message_of}
use notify_stream.Db.Tables.{OutboxRow, find_row, status_in}
use notify_stream.Flow.Relay.{Delivers, process_scheduled-Delivers}
use notify_stream.Runner.{process_outbox_entry, process_scheduled}
use notify_stream.World.{Turn, World, fine, lost_before}
use notify_stream.Flow.Parked.{FailsAt, publish_item-Delivers}
use notify_stream.Api.Create.{publish_item}
use notify_stream.Flow.Stuck.{IsStuck}
use notify_stream.Flow.Stuck.Ticks.{Tick, ticks}
use notify_stream.Flow.Orphan.{publish_item-IsPending}
use notify_stream.Tests.Fixtures.{
  plain_wire, plain_json, quiet, quiet-IsQuiet, row, start, tables_of,
}

pub marshalled :
    (n : Notification) → (m : Message plain_wire.Body) × (message_of plain_wire [] n ≡ some m)
unfolding message_of
marshalled n = (_, refl)

pub read_back :
    (e : Envelope) (b : plain_wire.Body)
    → plain_wire.marshal e ≡ some b
    → plain_wire.unmarshal b ≡ some e
read_back e b h = sym h

abbrev pub request : CreateItem
request = record {
  recipient = codes "+90555";
  channel = sms;
  content = some (codes " hi ");
  template_id = none;
  payload = [];
  priority = high;
  idempotency_key = some (codes "k-9");
  scheduled_at = none;
}

pub request-IsAcceptable : IsAcceptable request
unfolding validate is_blank trim_space is_space is_channel str_eq is_priority content_problem
request-IsAcceptable = (validate_iff request).0 refl

abbrev entry : OutboxRow
entry = record { id = 3; notification_id = 7; payload = []; published_at = none }

abbrev waiting : World plain_wire.Body
waiting = record start { tables = record (tables_of (row 7 pending ∷ [])) { outbox = entry ∷ [] } }

abbrev due_row : Notification
due_row = record (row 7 pending) { scheduled_at = some 40 }

abbrev due : World plain_wire.Body
due = record start { tables = tables_of (due_row ∷ []) }

process_scheduled-Delivers_example :
    Delivers plain_wire plain_json quiet quiet-IsQuiet [] marshalled read_back
      (λ id. refl)
      refl
      7
      due
      (process_scheduled plain_wire quiet [] 50 7 due).1
unfolding find_row is_blank trim_space is_space
process_scheduled-Delivers_example =
    process_scheduled-Delivers plain_wire plain_json quiet quiet-IsQuiet [] marshalled read_back
      (λ id. refl) refl 50 7 due refl refl (λ e. cc) refl refl

-- The broker is away when the message is published.
abbrev no_broker : ℕ → Turn
no_broker t = record (quiet t) { fault = if t == 1 then lost_before else fine }

no_broker-FailsAt : FailsAt 1 no_broker
no_broker-FailsAt = record { alone = λ t. refl; fails = λ e. cc; works = λ t ne. ground arith }

publish_item-Delivers_example :
    let (r, w1) = publish_item plain_wire no_broker [] 50 (row 7 pending, true) waiting in
    (e : OutboxRow) × (w1.tables.outbox ≡ entry ∷ e ∷ [])
    × (e.notification_id ≡ 7)
    × (e.published_at ≡ none)
    × Delivers plain_wire plain_json quiet quiet-IsQuiet [] marshalled read_back
        (λ id. refl)
        refl
        7
        w1
        (process_outbox_entry plain_wire quiet [] 60 e w1).1
unfolding find_row is_blank trim_space is_space
publish_item-Delivers_example =
    publish_item-Delivers plain_wire plain_json [] marshalled read_back (λ id. refl) refl no_broker
      quiet quiet-IsQuiet 50 60 (row 7 pending) waiting no_broker-FailsAt refl refl refl refl refl

-- The database is away when the row is read back.
abbrev no_database : ℕ → Turn
no_database t = record (quiet t) { fault = if t == 0 then lost_before else fine }

abbrev unread : World plain_wire.Body
unread = record start { tables = tables_of (row 7 pending ∷ []) }

unread-IsStuck : IsStuck 7 unread.tables
unfolding status_in
unread-IsStuck = record { status = refl; untimed = (λ e. refl, tt); unposted = tt }

publish_item-IsPending_example :
    let (r, w1) = publish_item plain_wire no_database [] 50 (row 7 pending, true) unread in
    (r ≡ (row 7 pending, true))
    × (w1.published ≡ unread.published)
    × ((ts : List Tick)
        → status_in 7 (ticks plain_wire quiet [] ts w1).tables.notifications ≡ some pending)
publish_item-IsPending_example =
    publish_item-IsPending plain_wire [] no_database quiet (λ t. refl) (λ t. refl) 50
      (row 7 pending) unread unread-IsStuck (λ e. cc)
