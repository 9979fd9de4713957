-- ===== src/Tests/Store.antt =====
-- Creating, listing and relaying notifications.
use notify_stream.Prelude.{
  false, ℕ, ◌≡◌, refl, none, some, List, [], ◌∷◌, codes, arith, take, not, str_eq, is_blank,
  trim_space, is_space,
}
use notify_stream.Prelude.Int.{pos}
use notify_stream.Domain.Types.{
  CreateItem, Notification, queued, pending, sms, high, status_eq, is_channel, is_priority,
}
use notify_stream.Db.Tables.{OutboxRow, find_key, find_row}
use notify_stream.Db.Change.{Change, run, apply}
use notify_stream.Db.Change.Keys.{HasUniqueKeys, run-HasUniqueKeys}
use notify_stream.Db.Create.{
  insert_notification, is_storable, row_of, has_nul, is_text, escapes_nul,
}
use notify_stream.Db.Create.Idempotent.{Repeats, insert_notification-Repeats}
use notify_stream.Db.Claims.{clamp}
use notify_stream.Db.Store.{found}
use notify_stream.Domain.Validate.{content_problem}
use notify_stream.Amqp.Publish.{or_normal, message_of}
use notify_stream.Db.Listing.{rows_of, ListParams, list, cursor_of}
use notify_stream.Db.Listing.Pages.{list_behind}
use notify_stream.Runner.{process_outbox_entry}
use notify_stream.Runner.Published.{Relays, process_outbox_entry-Relays}
use notify_stream.Api.Create.{Item, Response, created, create_notifications}
use notify_stream.Api.Create.Granted.{IsGranted, create_notifications-IsGranted}
use notify_stream.Api.Hub.{Step, opens, closes, serve_all, new_hub}
use notify_stream.Api.Hub.Subscribed.{times, once, is_open, serve_all-times}
use notify_stream.World.{World}
use notify_stream.Tests.Fixtures.{plain_wire, quiet, row, start, tables_of}

-- An insertion with a key that is taken, and a cancellation.
abbrev again : List (Change × ℕ)
again = (Change.insert_row (row 9 pending), 20) ∷ (Change.cancel 7, 21) ∷ []

run-HasUniqueKeys_example : HasUniqueKeys (run again (tables_of (row 7 queued ∷ []))).notifications
unfolding find_key
run-HasUniqueKeys_example = run-HasUniqueKeys again (tables_of (row 7 queued ∷ [])) (refl, tt)

abbrev keyed : CreateItem
keyed = record {
  recipient = codes "+90555";
  channel = sms;
  content = some (codes "hello");
  template_id = none;
  payload = [];
  priority = high;
  idempotency_key = some (codes " k-8 ");
  scheduled_at = none;
}

insert_notification-Repeats_example :
    let (r, w1) = insert_notification quiet 1 none keyed none start in
    let (r', w2) = insert_notification quiet 2 (some 3) keyed none w1 in Repeats quiet r w1 r' w2
unfolding is_storable is_channel str_eq row_of is_priority or_normal is_blank trim_space is_space
    has_nul is_text escapes_nul
insert_notification-Repeats_example =
    insert_notification-Repeats quiet (λ t. refl) 1 2 none (some 3) keyed keyed none none start
      (λ i t b. refl) (λ i t b. refl) (λ h. refl) refl refl

abbrev entry : OutboxRow
entry = record { id = 1; notification_id = 7; payload = []; published_at = none }

abbrev waiting : World plain_wire.Body
waiting = record start { tables = record (tables_of (row 7 pending ∷ [])) { outbox = entry ∷ [] } }

process_outbox_entry-Relays_example :
    Relays plain_wire quiet [] 7
      (λ n. not (status_eq n.status pending))
      waiting
      (process_outbox_entry plain_wire quiet [] 5 entry waiting).1
unfolding process_outbox_entry found find_row run status_eq message_of apply
process_outbox_entry-Relays_example =
    process_outbox_entry-Relays plain_wire quiet [] 5 entry waiting refl

abbrev timed : Notification
timed = record (row 7 pending) { scheduled_at = some 4 }

abbrev due : World plain_wire.Body
due = record start { tables = tables_of (timed ∷ []) }

abbrev any_rows : ListParams
any_rows = record {
  status = none;
  channel = none;
  from = none;
  to = none;
  cursor = none;
  limit = pos 1;
}

list_behind_example :
    list
      (record any_rows { cursor = some (cursor_of (row 8 queued)) })
      (row 7 queued ∷ row 9 queued ∷ row 8 queued ∷ [])
    ≡ take (clamp 20 100 (pos 1)) (row 7 queued ∷ [])
unfolding rows_of
list_behind_example =
    list_behind any_rows (row 7 queued ∷ row 9 queued ∷ row 8 queued ∷ []) (row 9 queued ∷ [])
      (row 7 queued ∷ []) (row 8 queued) refl (grind arith, tt)

abbrev request : List CreateItem
request = keyed ∷ []

abbrev items_of : Response → List Item
items_of (created b ns hits) = ns
items_of _ = []

create_notifications-IsGranted_example :
    IsGranted request
      (items_of (create_notifications plain_wire quiet [] [] (codes "r") [] request start).0)
unfolding create_notifications is_blank trim_space is_space is_channel str_eq is_priority
    content_problem or_normal apply run has_nul is_text escapes_nul
create_notifications-IsGranted_example =
    create_notifications-IsGranted plain_wire quiet [] [] (codes "r") [] request start refl

-- Connection 5 subscribes, 6 subscribes to the same notification, and 5 closes.
abbrev visits : List Step
visits = opens (some 7) none 5 ∷ opens (some 7) (some 9) 6 ∷ closes 5 ∷ []

serve_all-times_example :
    times 6 ((serve_all visits new_hub).by_notif 7) ≡ once (is_open 7 6 visits false)
serve_all-times_example = serve_all-times 6 7 visits
