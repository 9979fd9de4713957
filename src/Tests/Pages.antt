-- ===== src/Tests/Pages.antt =====
-- Reading pages, cancelling, and creating templates.
use notify_stream.Prelude.Sort.Members.{TakesFirst}
use notify_stream.Db.Claims.{claim_outbox_batch, claim_due_scheduled, is_due, is_earlier}
use notify_stream.Db.Claims.Oldest.{
  by_id, claim_outbox_batch-TakesFirst, claim_due_scheduled-TakesFirst,
}
use notify_stream.Prelude.{
  length, ◌≤◌, not, ◌==◌, ℕ, ◌+◌, ◌-◌, ◌≡◌, ◌≢◌, refl, none, some, Option, List, [], ◌∷◌, Str,
  codes, IsSolid, is_space, arith, take, trim_space, map, atoi,
}
use notify_stream.Prelude.Int.{pos}
use notify_stream.Domain.Types.{Notification, pending, queued, sms}
use notify_stream.Db.Tables.{OutboxRow, status_in}
use notify_stream.Db.Change.{is_null, Change, run}
use notify_stream.Db.Store.{found}
use notify_stream.Db.Listing.{ListParams, rows_of, page}
use notify_stream.Db.Listing.Walk.{walk, walk-rows_of, page_beyond}
use notify_stream.Api.Cursor.{Codec, IsCodec, encode_cursor, decode_cursor}
use notify_stream.Api.Cursor.RoundTrip.{decode_cursor-encode_cursor}
use notify_stream.Api.Listing.{list_notifications}
use notify_stream.Api.Listing.Request.{Query}
use notify_stream.Api.Listing.Next.{IsContinued, list_notifications-IsContinued}
use notify_stream.Api.Notification.{shown, cancel_notification}
use notify_stream.Api.Notification.Cancels.{Cancels, cancel_notification-Cancels}
use notify_stream.Api.Template.{TemplateRequest, create_template, template_row}
use notify_stream.Api.Template.Stored.{Answers, create_template-Answers}
use notify_stream.World.{arrive}
use notify_stream.Tests.Fixtures.{quiet, row, start, tables_of, parse_one}

abbrev pub time_of : Str → Option ℕ
time_of (c ∷ []) = some (c - 200)
time_of _ = none

-- Each character is moved to a place of its own, far from white space.
abbrev pub plain_codec : Codec
plain_codec = record {
  encode_base64 = λ s. map (λ c. c + 0x4000) s;
  decode_base64 = λ s. some (map (λ c. c - 0x4000) s);
  format_time = λ t. (t + 200) ∷ [];
  parse_time = time_of;
  uuid_string = λ n. n ∷ [];
  parse_uuid = parse_one;
}

moved_back : (s : Str) → map (λ c. c - 0x4000) (map (λ c. c + 0x4000) s) ≡ s
moved_back [] = refl
moved_back (c ∷ s) = ground (arith, moved_back s)

moved-IsSolid : (s : Str) → IsSolid (map (λ c. c + 0x4000) s)
unfolding is_space
moved-IsSolid [] = tt
moved-IsSolid (c ∷ s) = (ground arith, moved-IsSolid s)

time_back : (t : ℕ) → plain_codec.parse_time (plain_codec.format_time t) ≡ some t
time_back t = ground arith

no_bar : (t : ℕ) → t + 200 ≢ b'|'
no_bar t e = absurd (omega arith)

plain_codec-IsCodec : IsCodec plain_codec
plain_codec-IsCodec = record {
  base64 = λ s. ground (arith, moved_back s);
  alphabet = moved-IsSolid;
  empty = refl;
  time = time_back;
  bar = λ t. (no_bar t, tt);
  uuid = λ id. refl;
}

decode_cursor-encode_cursor_example :
    decode_cursor plain_codec (encode_cursor plain_codec (5, 7)) ≡ some (5, 7)
decode_cursor-encode_cursor_example =
    decode_cursor-encode_cursor plain_codec plain_codec-IsCodec (5, 7)

abbrev any_rows : ListParams
any_rows = record {
  status = none;
  channel = none;
  from = none;
  to = none;
  cursor = none;
  limit = pos 1;
}

abbrev two_rows : List Notification
two_rows = row 7 queued ∷ row 8 queued ∷ []

walk-rows_of_example : walk 3 any_rows 1 two_rows ≡ some (rows_of any_rows two_rows)
unfolding rows_of
walk-rows_of_example =
    walk-rows_of 3 0 any_rows two_rows (omega arith) ((grind arith, tt), (tt, tt)) (omega arith)

page_beyond_example : page any_rows 101 two_rows ≡ (take 100 (rows_of any_rows two_rows), none)
page_beyond_example = page_beyond any_rows 101 two_rows (omega arith)

abbrev query : Query
query = record { status = []; channel = []; from = []; to = []; limit = codes "1"; cursor = [] }

list_notifications-IsContinued_example :
    IsContinued plain_codec plain_codec-IsCodec parse_one query
      (shown (row 8 queued) ∷ [])
      (encode_cursor plain_codec (1, 8))
unfolding list_notifications encode_cursor run rows_of trim_space is_space atoi found
list_notifications-IsContinued_example =
    list_notifications-IsContinued plain_codec plain_codec-IsCodec quiet parse_one query
      (record start { tables = tables_of two_rows }) (shown (row 8 queued) ∷ [])
      (encode_cursor plain_codec (1, 8)) refl (λ e. cc)

cancel_notification-Cancels_example :
    Cancels 7
      (status_in 7 (arrive quiet start).tables.notifications)
      (cancel_notification quiet (some 7) start).0
      (arrive quiet start)
      (cancel_notification quiet (some 7) start).1
unfolding arrive run
cancel_notification-Cancels_example =
    cancel_notification-Cancels quiet 7 start refl ((grind arith, tt), (tt, tt))

abbrev greeting : TemplateRequest
greeting = record {
  name = codes " welcome ";
  body = codes "Hi {{name}}";
  channel = sms;
  variables_schema = [];
}

create_template-Answers_example :
    Answers greeting start
      (arrive quiet start)
      (create_template quiet greeting start).0
      (create_template quiet greeting start).1
create_template-Answers_example = create_template-Answers quiet greeting start refl

-- A template is stored twice.
abbrev stored_twice : List (Change × ℕ)
stored_twice =
    (Change.insert_template (template_row 1 5 greeting), 5)
    ∷ (Change.insert_template (template_row 2 6 greeting), 6)
    ∷ []

-- Row 7 is locked.
claim_due_scheduled-TakesFirst_example :
    let rows =
      record (row 7 pending) { scheduled_at = some 4 }
      ∷ record (row 8 pending) { scheduled_at = some 5 }
      ∷ [] in
    let got = claim_due_scheduled (λ id. id == 7) 9 (pos 1) (tables_of rows) in
    (length got ≤ 200) × TakesFirst is_earlier (is_due 9) (λ n. not (n.id == 7)) rows got
claim_due_scheduled-TakesFirst_example =
    claim_due_scheduled-TakesFirst (λ id. id == 7) 9 (pos 1)
      (tables_of (
        record (row 7 pending) { scheduled_at = some 4 }
        ∷ record (row 8 pending) { scheduled_at = some 5 }
        ∷ []))

abbrev entries : List OutboxRow
entries =
    record { id = 2; notification_id = 8; payload = []; published_at = none }
    ∷ record { id = 1; notification_id = 7; payload = []; published_at = none }
    ∷ []

claim_outbox_batch-TakesFirst_example :
    let got =
      claim_outbox_batch (λ id. id == 3) (pos 1) (record (tables_of []) { outbox = entries }) in
    (length got ≤ 100)
    × TakesFirst by_id (λ e. is_null e.published_at) (λ e. not (e.id == 3)) entries got
claim_outbox_batch-TakesFirst_example =
    claim_outbox_batch-TakesFirst (λ id. id == 3) (pos 1)
      (record (tables_of []) { outbox = entries })
