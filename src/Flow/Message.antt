-- ===== src/Flow/Message.antt =====
-- The message of a notification, from its publication to its end: internal/amqp and cmd/worker.
use notify_stream.Prelude.{
  ℕ, ◌≡◌, refl, sym, ap, ◌∙◌, true, false, Bool-cases, inl, inr, Option, none, some, List, [], ◌∷◌,
  Str, is_blank, is_empty, arith, str_eq,
}
use notify_stream.Prelude.Int.{pos}
use notify_stream.Domain.Types.{Notification, pending, queued, Status, status_eq}
use notify_stream.Domain.Template.{Json}
use notify_stream.Amqp.Headers.{header_retry, lookup, retry_count, insert, count_of}
use notify_stream.Amqp.Publish.{
  Wire, Envelope, Message, message_of, envelope_of, correlation_headers,
}
use notify_stream.Amqp.Trace.Carried.{injected, headers-message_of, lookup-kept}
use notify_stream.Db.Tables.{Tables, find_row}
use notify_stream.Db.Change.{Change, run, apply, update_by, from_status, set_row, is_live}
use notify_stream.Db.Change.Constant.{run-HasCore}
use notify_stream.Db.Change.Hit.{update_row_hit}
use notify_stream.Db.Claims.Quiet.{queued_at}
use notify_stream.Worker.Handle.Contract.{find_row-status}
use notify_stream.Worker.Handle.Chain.{IsOver, handle_all, handle_all-IsOver}
use notify_stream.World.{Turn, World}
use notify_stream.World.Quiet.{IsQuiet}

no_count : (corr : Option Str) → lookup header_retry (correlation_headers corr []) ≡ none
unfolding correlation_headers lookup insert str_eq
no_count none = refl
no_count (some c) = elim (Bool-cases (is_empty c)) [
  | inl empty ↦ rw empty refl
  | inr full ↦ rw full refl
]

module _ (wire : Wire) (mc : List (Str × Str)) (n : Notification) {m : Message wire.Body}
    (msg : message_of wire mc n ≡ some m) where
  -- A message that was just published has no retries behind it.
  pub new_count : injected header_retry mc ≡ none → retry_count m.headers ≡ pos 0
  unfolding retry_count count_of
  new_count fresh = ap count_of (
      ap (lookup header_retry) (headers-message_of wire mc n msg)
      ∙ lookup-kept mc header_retry (correlation_headers n.correlation_id []) fresh
      ∙ no_count n.correlation_id)

  pub marshalled : wire.marshal (envelope_of wire n) ≡ some m.body
  unfolding message_of
  marshalled = ground arith

pub live_of_queued : {s : Status} → some s ≡ some queued → is_live s ≡ true
unfolding status_eq
live_of_queued e = ground arith

-- A pending row that is queued is found as it was, but for its status.
pub queued_row :
    (now id : ℕ) (db : Tables) {n : Notification}
    → find_row id db.notifications ≡ some n
    → n.status ≡ pending
    → (m : Notification) × (find_row id (queued_at now id db).notifications ≡ some m)
      × (is_live m.status ≡ true)
      × (m.content ≡ n.content)
unfolding run apply update_by from_status set_row status_eq
queued_row now id db {n} row s =
    let (m, row', same) = run-HasCore ((Change.mark_queued id, now) ∷ []) db id row in
    let (hit, k, count) =
      update_row_hit (Change.mark_queued id) queued (λ x. refl) now id db.notifications
        (find_row-status id db.notifications row ∙ ap some s) refl in
    (
      m,
      row',
      live_of_queued (sym (find_row-status id (queued_at now id db).notifications row') ∙ hit),
      ap (λ u. u.content) same,
    )

module _ (wire : Wire) (json : Json) (env : ℕ → Turn) (q : IsQuiet env) (mc : List (Str × Str))
    (read_back : (e : Envelope) (b : wire.Body)
      → wire.marshal e ≡ some b
      → wire.unmarshal b ≡ some e)
    (uuid_back : (id : ℕ) → wire.parse_uuid (wire.uuid_string id) ≡ some id)
    (fresh : injected header_retry mc ≡ none) where
  -- The first delivery of a message, and those that follow it.
  pub message_ends :
      (n : Notification) (w : World wire.Body) {m : Message wire.Body} {row : Notification}
      {c : Str}
      → message_of wire mc n ≡ some m
      → find_row n.id w.tables.notifications ≡ some row
      → is_live row.status ≡ true
      → row.content ≡ some c
      → is_blank c ≡ false
      → IsOver n.id 6 w (handle_all wire json env 6 m w)
  unfolding envelope_of
  message_ends n w {m} msg here live content ink =
      handle_all-IsOver wire json env q (uuid_back n.id) ink 6 0 m w (omega arith) (omega arith)
        (new_count wire mc n msg fresh)
        (read_back (envelope_of wire n) m.body (marshalled wire mc n msg)) here live content
