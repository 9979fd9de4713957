-- ===== src/Flow/Batch.antt =====
-- A request of any number of items: `CreateNotifications` of internal/api/handlers.go, and the workers.
use mathlib.Core.Path.{subst}
use notify_stream.Prelude.{
  ℕ, suc, ◌+◌, ◌*◌, ◌≤◌, ◌≡◌, ◌≢◌, refl, false, ap, ◌∙◌, sym, Option, none, some, List, [], ◌∷◌,
  ◌++◌, Str, All, All-map, map-All, length-map, map-map, length, ltb, map, is_some, arith,
}
use notify_stream.Prelude.Pick.{Lacks, IsDistinct, sum_of}
use notify_stream.Domain.Types.{Notification, CreateItem, queued}
use notify_stream.Domain.Template.{Json}
use notify_stream.Amqp.Headers.{header_retry}
use notify_stream.Amqp.Publish.{Wire, Envelope, Message, message_of}
use notify_stream.Amqp.Trace.Carried.{injected}
use notify_stream.Db.Tables.{IsNew, find_row}
use notify_stream.Db.Create.{has_nul}
use notify_stream.Api.Create.{Response, created, correlation_of, create_notifications}
use notify_stream.Api.Create.Stored.{IsPlain, AreFree}
use notify_stream.Api.Create.Rows.{
  fresh, IsMade, made_rows-IsMade, made_rows-IsDistinct, made_rows-IsNew, length-made_rows,
  All-found,
}
use notify_stream.Api.Create.Inserted.{stored_rows, store_all_quiet}
use notify_stream.Api.Create.Many.{create_many_quiet}
use notify_stream.Api.Create.Sent.{IsDue, message, sent_all, queued_item, AreSent, sent_all-AreSent}
use notify_stream.Flow.Tickets.{
  made-IsDue, ticket, ticket-Lacks, ticket-IsDistinct, six_each, tickets_ready, find_before,
}
use notify_stream.Worker.Queue.{work}
use notify_stream.Worker.Queue.Drained.{Ticket, IsEnded, left_of, Drained, Drained-mono}
use notify_stream.Worker.Queue.Finite.{work-Drained}
use notify_stream.World.{Turn, World}
use notify_stream.World.Quiet.{IsQuiet}

-- A notification as the response shows it.
abbrev as_queued : Notification → Notification
as_queued n = record n { status = queued }

All-queued : (ns : List Notification) → All (λ n. n.status ≡ queued) (map as_queued ns)
All-queued [] = tt
All-queued (n ∷ ns) = (refl, All-queued ns)

module _ (wire : Wire) (json : Json) (env : ℕ → Turn) (order : ℕ → ℕ) where
  -- The request is accepted: its notifications are queued, there is a batch if there are several, and
  -- their messages are all that is sent. The messages, delivered in some order, bring each notification
  -- to its end.
  pub record CompletesAll (its : List CreateItem) (w : World wire.Body) (r : Response)
      (w1 : World wire.Body) : Type 0 where
    pub batch : Option ℕ
    pub notifications : List Notification
    pub messages : List (Message wire.Body)
    pub answer : r ≡ created batch (map fresh notifications) 0
    pub batched : is_some batch ≡ ltb 1 (length its)
    pub size : length notifications ≡ length its
    pub status : All (λ n. n.status ≡ queued) notifications
    pub published : w1.published ≡ w.published ++ messages
    pub counted : length messages ≡ length its
    pub finished :
        let (left, w2) = work wire json env order (6 * length its) messages w1 in
        (left ≡ [])
        × All (λ n. IsEnded w2.tables n.id) notifications
        × (length w2.posts ≤ length w.posts + 6 * length its)
        × (length w2.events ≡ length w.events + length its)
        × ((j : ℕ)
            → Lacks (λ n. n.id) j notifications
            → find_row j w2.tables.notifications ≡ find_row j w.tables.notifications)

module _ (wire : Wire) (json : Json) (env : ℕ → Turn) (q : IsQuiet env) (order : ℕ → ℕ)
    (mc : List (Str × Str))
    (total : (n : Notification) → (m : Message wire.Body) × (message_of wire mc n ≡ some m))
    (read_back : (e : Envelope) (b : wire.Body)
      → wire.marshal e ≡ some b
      → wire.unmarshal b ≡ some e)
    (uuid_back : (id : ℕ) → wire.parse_uuid (wire.uuid_string id) ≡ some id)
    (fresh_count : injected header_retry mc ≡ none) where
  -- What `finished` says of a result.
  abbrev IsFinished :
      List CreateItem
      → List Notification
      → World wire.Body
      → List (Message wire.Body) × World wire.Body
      → Type 0
  IsFinished its rows w (left, w2) =
      (left ≡ [])
      × All (λ n. IsEnded w2.tables n.id) (map as_queued rows)
      × (length w2.posts ≤ length w.posts + 6 * length its)
      × (length w2.events ≡ length w.events + length its)
      × ((j : ℕ)
          → Lacks (λ n. n.id) j (map as_queued rows)
          → find_row j w2.tables.notifications ≡ find_row j w.tables.notifications)

  module _ (its : List CreateItem) (rows : List Notification) (w w' w1 : World wire.Body)
      (size : length rows ≡ length its)
      (stored : w'.tables.notifications ≡ w.tables.notifications ++ rows)
      (es : w'.events ≡ w.events) (ps : w'.posts ≡ w.posts)
      (s : AreSent wire env q mc total rows w' w1) where
    abbrev tickets : List (Ticket wire.Body)
    tickets = map (ticket wire mc total) rows

    IsFinished-by :
        (r : List (Message wire.Body) × World wire.Body)
        → Drained tickets (6 * length its) w1 r
        → IsFinished its rows w r
    IsFinished-by (left, w2) d = (
      d.nothing_left,
      All-map (λ (n : Notification). IsEnded w2.tables n.id) as_queued rows
          (map-All (λ (t : Ticket wire.Body). IsEnded w2.tables t.id) (ticket wire mc total) rows
            d.outcomes),
      omega (arith, d.posts, ap length (s.posts ∙ ps)),
      omega (arith, d.events, ap length (s.events ∙ es), length-map (ticket wire mc total) rows),
      λ j l.
          let l' = map-All (λ (n : Notification). n.id ≢ j) as_queued rows l in
          d.others j (ticket-Lacks wire mc total j rows l')
          ∙ s.others j l'
          ∙ ap (find_row j) stored
          ∙ find_before j w.tables.notifications rows l',
    )

    All-IsFinished :
        All IsMade rows
        → IsDistinct (λ n. n.id) rows
        → IsFinished its rows w
            (work wire json env order (6 * length its) (map (message wire env q mc total) rows) w1)
    All-IsFinished made distinct =
        let six : sum_of left_of tickets ≡ 6 * length its =
          omega (arith, six_each wire mc total rows) in
        rw (← map-map (λ (t : Ticket wire.Body). t.message) (ticket wire mc total) rows) (
          IsFinished-by _ (
            Drained-mono tickets w1 _ (omega arith) (
              work-Drained wire json env q order (6 * length its) tickets w1
                (tickets_ready wire mc total read_back uuid_back fresh_count w1.tables rows made
                  s.rows)
                (ticket-IsDistinct wire mc total rows distinct) (omega arith))))

  same_items :
      (ns : List Notification)
      → map fresh (map as_queued ns) ≡ map (queued_item wire env q mc total) ns
  same_items [] = refl
  same_items (n ∷ ns) = ap (λ xs. fresh (as_queued n) ∷ xs) (same_items ns)

  -- When nothing fails and nobody interferes, a request of one to 1000 acceptable items, each with
  -- no template and no time, whose keys are free and not the same, is answered with as many
  -- notifications, which are queued, under a batch if there are several; their messages are all
  -- that is sent. In whatever order the broker delivers these messages, and what is published
  -- again for them, six deliveries for each item are enough: nothing waits any more, each
  -- notification is delivered or failed, there were no more requests to the provider than six
  -- times the items and as many status events as items, and the other rows are as they were. JSON
  -- and UUIDs are taken to be read back as they were printed, the new UUIDs to be new and
  -- different, no text of the request to have a NUL, and no trace header to be the retry count.
  pub create_notifications-CompletesAll :
      (request_id made_id metadata : Str) (its : List CreateItem) (w : World wire.Body)
      → 1 ≤ length its
      → length its ≤ 1000
      → All IsPlain its
      → has_nul (correlation_of request_id made_id) ≡ false
      → AreFree its w.tables.notifications
      → ((t : ℕ) → IsNew (env t).uuid w.tables.notifications)
      → ((s t : ℕ) → (env s).uuid ≡ (env t).uuid → s ≡ t)
      → let (r, w1) = create_notifications wire env mc request_id made_id metadata its w in
        CompletesAll wire json env order its w r w1
  create_notifications-CompletesAll request_id made_id metadata [] w some_item few plain readable
        free new differ =
      absurd (omega arith)
  create_notifications-CompletesAll request_id made_id metadata (it ∷ its) w some_item few plain
        readable free new differ =
      let corr : Str = correlation_of request_id made_id in
      let now : ℕ = (env w.tick).now in
      let (w', s, stored) =
        store_all_quiet env q metadata corr readable (it ∷ its) now (record w { tick = suc w.tick })
          plain free in
      let rows : List Notification = stored_rows s in
      let w0 : World wire.Body = record w' { tick = suc w'.tick } in
      let w1 : World wire.Body = sent_all wire env q mc total rows w0 in
      let made : All IsMade rows = made_rows-IsMade env now s.batch corr (it ∷ its) s.first plain in
      let distinct : IsDistinct (λ n. n.id) rows =
        made_rows-IsDistinct env now s.batch corr differ (it ∷ its) s.first in
      let due : All (IsDue w'.tables) rows = made-IsDue w'.tables rows made (
        subst (λ l. All (λ n. find_row n.id l ≡ some n) rows) (sym s.notifications)
          (All-found w.tables.notifications rows
            (made_rows-IsNew env now s.batch corr w.tables.notifications new (it ∷ its) s.first)
            distinct)) in
      let size : length rows ≡ length (it ∷ its) =
        length-made_rows env now s.batch corr (it ∷ its) s.first in
      let sent = sent_all-AreSent wire env q mc total rows w0 due distinct in
      rw
        (create_many_quiet wire env q mc total request_id made_id metadata it its w w' s.batch rows
          plain few stored due distinct)
        (record {
          batch = s.batch;
          notifications = map as_queued rows;
          messages = map (message wire env q mc total) rows;
          answer = ap (λ xs. created s.batch xs 0) (sym (same_items rows));
          batched = s.batched;
          size = length-map as_queued rows ∙ size;
          status = All-queued rows;
          published =
              sent.published ∙ ap (λ ms. ms ++ map (message wire env q mc total) rows) s.published;
          counted = length-map (message wire env q mc total) rows ∙ size;
          finished =
              All-IsFinished (it ∷ its) rows w w0 w1 size s.notifications s.events s.posts sent made
                distinct;
        })
