-- ===== src/Tests/Runs.antt =====
-- The handler and the statements on the database of the fixtures.
use notify_stream.Prelude.{
  ℕ, ◌≡◌, refl, some, List, [], ◌∷◌, codes, inl, str_eq, is_blank, trim_space, is_space,
}
use notify_stream.Domain.Types.{Status, queued, delivered, status_eq}
use notify_stream.Amqp.Headers.{retry_count, lookup}
use notify_stream.Db.Tables.{find_row, status_in}
use notify_stream.Db.Change.{Change, run, release_sending, mark_sending, mark_failed, cancel}
use notify_stream.Db.Change.Lifecycle.{◌⟶*◌, run-⟶*}
use notify_stream.Db.Change.Terminal.{run-find_row}
use notify_stream.World.Evolves.{Evolves}
use notify_stream.Worker.Envelope.{enrich_envelope}
use notify_stream.Worker.Handle.{handle_delivery}
use notify_stream.Worker.Handle.Evolves.{handle_delivery-Evolves}
use notify_stream.Worker.Handle.Fate.{fate}
use notify_stream.Worker.Handle.Finished.{IsSilent, handle_delivery-IsSilent}
use notify_stream.Worker.Handle.Outcome.{Ends}
use notify_stream.Worker.Handle.Contract.{content_request, handle_delivery-Ends}
use notify_stream.Tests.Fixtures.{
  plain_wire, plain_json, quiet, quiet-IsQuiet, row, start, envelope, headers, delivery,
}

handle_delivery-Ends_example :
    Ends delivery start.tables.notifications 7
      (row 7 queued)
      (fate 202 (retry_count headers))
      []
      []
      (content_request (enrich_envelope envelope headers) (codes " hello ") ∷ [])
      (handle_delivery plain_wire plain_json quiet delivery start).0
      (handle_delivery plain_wire plain_json quiet delivery start).1
unfolding enrich_envelope lookup str_eq find_row status_eq is_blank trim_space is_space
handle_delivery-Ends_example =
    handle_delivery-Ends plain_wire plain_json quiet quiet-IsQuiet delivery start refl refl refl
      refl refl refl

handle_delivery-Evolves_example :
    Evolves 1 start (handle_delivery plain_wire plain_json quiet delivery start).1
handle_delivery-Evolves_example = handle_delivery-Evolves plain_wire plain_json quiet delivery start

-- A worker claims row 7 and gives it back, and then it is cancelled.
abbrev statements : List (Change × ℕ)
statements =
    (mark_sending 7, 10) ∷ (release_sending 7, 11) ∷ (cancel 7, 12) ∷ (mark_failed 8, 13) ∷ []

run-⟶*_example :
    (t : Status) × (status_in 7 (run statements start.tables).notifications ≡ some t)
    × (queued ⟶* t)
unfolding status_in
run-⟶*_example = run-⟶* statements start.tables 7 refl

run-find_row_example :
    find_row 8 (run statements start.tables).notifications ≡ some (row 8 delivered)
unfolding find_row
run-find_row_example = run-find_row statements start.tables 8 refl (inl refl)

-- The delivery of row 8, which is delivered.
handle_delivery-IsSilent_example :
    IsSilent start
      (handle_delivery plain_wire plain_json quiet
        (record delivery { body = record envelope { id = 8 ∷ [] } })
        start).1
unfolding enrich_envelope lookup str_eq find_row
handle_delivery-IsSilent_example =
    handle_delivery-IsSilent plain_wire plain_json quiet
      (record delivery { body = record envelope { id = 8 ∷ [] } }) start refl refl refl (inl refl)
