-- ===== src/Tests/Retries.antt =====
-- Retries of a delivery, and of MarkDelivered.
use notify_stream.Prelude.{ℕ, ◌≡◌, refl, none, some, List, [], ◌∷◌, arith, if◌then◌else◌, ◌==◌}
use notify_stream.Domain.Types.{Notification, pending, queued, sending, delivered}
use notify_stream.Db.Tables.{find_row, status_in}
use notify_stream.Db.Change.{Change, run}
use notify_stream.Db.Change.Constant.{HasCore, run-HasCore}
use notify_stream.World.{Turn, fine, lost_after, Error, err, World}
use notify_stream.World.Quiet.{IsQuiet}
use notify_stream.Amqp.Publish.{Message, message_of}
use notify_stream.Runner.{relay_tick}
use notify_stream.Runner.Drained.{relay_tick_drains}
use notify_stream.Runner.Waiting.{nobody, unpublished}
use notify_stream.Worker.Handle.{mark_delivered_with_retry}
use notify_stream.Worker.Handle.Lost.{mark_delivered_with_retry_lost}
use notify_stream.Tests.Fixtures.{plain_wire, quiet, quiet-IsQuiet, row, start, tables_of}

-- The provider is out of order.
abbrev pub failing : ℕ → Turn
failing t = record (quiet t) { reply = record { code = 503; message_id = none } }

pub failing-IsQuiet : IsQuiet failing
failing-IsQuiet = record { works = λ t. refl; alone = λ t. refl; running = λ t. refl }

abbrev written_row : List (Change × ℕ)
written_row = (Change.mark_sending 7, 10) ∷ (Change.mark_delivered 7 none, 11) ∷ []

run-HasCore_example : HasCore 7 (row 7 queued) (run written_row start.tables).notifications
unfolding find_row
run-HasCore_example = run-HasCore written_row start.tables 7 refl

-- The answer of the second call is lost.
abbrev lossy : ℕ → Turn
lossy t = record (quiet t) { fault = if t == 1 then lost_after else fine }

abbrev being_sent : World plain_wire.Body
being_sent = record start { tables = tables_of (row 7 sending ∷ []) }

mark_delivered_with_retry_lost_example :
    let (r, w) = mark_delivered_with_retry lossy 7 none being_sent in
    ((e : Error) × (r ≡ err e)) × (status_in 7 w.tables.notifications ≡ some delivered)
unfolding status_in
mark_delivered_with_retry_lost_example =
    mark_delivered_with_retry_lost lossy (λ t. refl) 7 none being_sent refl refl refl

-- Two entries wait, one of them for a row that is queued.
abbrev waiting : World plain_wire.Body
waiting = record start {
  tables = record (tables_of (row 7 pending ∷ row 8 queued ∷ [])) {
    outbox =
        record { id = 2; notification_id = 8; payload = []; published_at = none }
        ∷ record { id = 1; notification_id = 7; payload = []; published_at = none }
        ∷ [];
  };
}

marshalled :
    (n : Notification) → (m : Message plain_wire.Body) × (message_of plain_wire [] n ≡ some m)
unfolding message_of
marshalled n = (_, refl)

relay_tick_drains_example :
    unpublished (relay_tick plain_wire quiet [] nobody waiting).1.tables.outbox ≡ 0
unfolding find_row
relay_tick_drains_example =
    relay_tick_drains plain_wire quiet quiet-IsQuiet [] marshalled waiting
      ((row 8 queued, refl), ((row 7 pending, refl), tt)) (omega arith)
