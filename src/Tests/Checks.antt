-- ===== src/Tests/Checks.antt =====
-- Small runs of the definitions.
use notify_stream.Prelude.{◌≡◌, refl, none, some, [], ◌∷◌}
use notify_stream.Domain.Types.{queued}
use notify_stream.Db.Listing.{ListParams, page, rows_of}
use notify_stream.Prelude.Int.{pos}
use notify_stream.Tests.Fixtures.{row}

abbrev any_rows : ListParams
any_rows = record {
  status = none;
  channel = none;
  from = none;
  to = none;
  cursor = none;
  limit = pos 1;
}

-- A full page has the cursor of its last row, and a short one has none.
full_page : (page any_rows 1 (row 7 queued ∷ row 8 queued ∷ [])).1 ≡ some (1, 8)
unfolding page rows_of
full_page = refl

short_page : (page any_rows 3 (row 7 queued ∷ row 8 queued ∷ [])).1 ≡ none
unfolding page rows_of
short_page = refl
