-- ===== src/Worker/Handle/Contract.antt =====
-- The whole handler when nothing fails and nobody interferes, told by the provider's answer.
use notify_stream.Prelude.{
  ℕ, suc, ◌≡◌, refl, true, false, ◌||◌, Option, some, List, [], ◌∷◌, ◌++◌, Str, not, arith, inl,
  inr, Bool-cases, ◌==◌, trim_space, is_blank,
}
use notify_stream.Domain.Types.{
  Notification, Status, pending, queued, sending, delivered, cancelled, status_eq,
}
use notify_stream.Domain.Template.{Json}
use notify_stream.Amqp.Headers.{retry_count}
use notify_stream.Amqp.Publish.{Envelope, Wire, Message}
use notify_stream.Db.Tables.{find_row, status_in}
use notify_stream.Db.Change.{is_live}
use notify_stream.Db.Store.{get_by_id, mark_sending}
use notify_stream.Db.Store.Quiet.{mark_sending-Now, get_by_id-Now}
use notify_stream.Delivery.Outbound.{Outbound, outbound_of}
use notify_stream.Delivery.Webhook.{post}
use notify_stream.World.{Turn, Event, World, ok}
use notify_stream.World.Quiet.{IsQuiet, Now}
use notify_stream.Worker.Envelope.{enrich_envelope, stripped, from_content, build_outbound_envelope}
use notify_stream.Worker.Handle.{
  wait_limit, claimed, admitted, prepared, looked_up, identified, decoded, handle_delivery,
}
use notify_stream.Worker.Handle.Quiet.{post-Now, wait_limit-Now}
use notify_stream.Worker.Handle.Fate.{fate}
use notify_stream.Worker.Handle.Outcome.{Ends, answered-Ends}

same_status :
    (m : Notification) {n : Notification} → some m ≡ some n → some m.status ≡ some n.status
same_status m e = cc

pub find_row-status :
    (id : ℕ) (ns : List Notification) {n : Notification}
    → find_row id ns ≡ some n
    → status_in id ns ≡ some n.status
unfolding find_row status_in
find_row-status id [] e = absurd (cc)
find_row-status id (m ∷ ns) e = elim (Bool-cases (m.id == id)) [
  | inl here ↦ rw here (same_status m (rw here at e))
  | inr there ↦ rw there (find_row-status id ns (rw there at e))
]

module _ {Body : Type 0} (env : ℕ → Turn) (q : IsQuiet env) {old : List Notification} {id : ℕ}
    {s : Status} {ms : List (Message Body)} {es : List Event} {os : List Outbound} {tick : ℕ} where
  prepared-Ends :
      (d : Message Body) (n : Notification) (out : Envelope) (w : World Body)
      → is_live s ≡ true
      → Now old id s ms es os tick w
      → Ends d old id n
          (fate (env (suc (suc tick))).reply.code (retry_count d.headers))
          ms
          es
          (os ++ outbound_of out ∷ [])
          (prepared env d id n (ok out) w).0
          (prepared env d id n (ok out) w).1
  unfolding prepared admitted claimed
  prepared-Ends d n out w live h =
      let w1 : World Body = (wait_limit env w).1 in
      let (r1, h1) = wait_limit-Now env q w h in
      let (r2, h2) = mark_sending-Now env q w1 live h1 in
      let w2 : World Body = (mark_sending env id w1).1 in
      let (r3, h3) = post-Now env q out w2 h2 in
      rw (r1, admitted)
        (rw (r2, claimed)
          (rw r3 (answered-Ends env q d n (env (suc (suc tick))).reply (post env out w2).1 h3)))

live_statuses :
    (s : Status)
    → is_live s ≡ true
    → (status_eq s cancelled || status_eq s delivered ≡ false)
      × (not (status_eq s pending || status_eq s queued || status_eq s sending) ≡ false)
unfolding status_eq
live_statuses s h = ground arith

abbrev pub content_envelope : Envelope → Str → Envelope
content_envelope e c = record (stripped e) { content = some (trim_space c) }

-- The request for a row that has a content of its own.
abbrev pub content_request : Envelope → Str → Outbound
content_request e c = outbound_of (content_envelope e c)

-- The envelope of a row with a content of its own, for which no template is read.
from_content_text :
    {Body : Type 0} (json : Json) (env : ℕ → Turn) (n : Notification) (e : Envelope)
    (o : Option Str) (w : World Body) {c : Str}
    → o ≡ some c
    → is_blank c ≡ false
    → from_content json env n e o w ≡ (ok (content_envelope e c), w)
unfolding from_content
from_content_text json env n e o w f text = rw f (rw text)

module _ (wire : Wire) (json : Json) (env : ℕ → Turn) (q : IsQuiet env) where
  -- In a quiet environment a delivery that names a pending, queued or sending row with a content of its
  -- own is acknowledged after one request, which carries the trimmed content; the row's status, the
  -- status event and the next delivery are those of the answer and of the retry count, and every other
  -- row is as it was.
  pub handle_delivery-Ends :
      (d : Message wire.Body) (w : World wire.Body) {e : Envelope} {id : ℕ} {n : Notification}
      {c : Str}
      → wire.unmarshal d.body ≡ some e
      → wire.parse_uuid (enrich_envelope e d.headers).id ≡ some id
      → find_row id w.tables.notifications ≡ some n
      → is_live n.status ≡ true
      → n.content ≡ some c
      → is_blank c ≡ false
      → Ends d w.tables.notifications id n
          (fate (env (suc (suc (suc w.tick)))).reply.code (retry_count d.headers))
          w.published
          w.events
          (w.posts ++ content_request (enrich_envelope e d.headers) c ∷ [])
          (handle_delivery wire json env d w).0
          (handle_delivery wire json env d w).1
  unfolding handle_delivery decoded identified looked_up build_outbound_envelope
  handle_delivery-Ends d w {e} {id} {n} {c} body parsed row live content text =
      let h : Now w.tables.notifications id n.status w.published w.events w.posts w.tick w =
        record {
          status = find_row-status id w.tables.notifications row;
          others = λ j e. refl;
          published = refl;
          events = refl;
          posts = refl;
          tick = refl;
        } in
      let (r, h1) = get_by_id-Now env q w row h in
      let (s1, s2) = live_statuses n.status live in
      rw (body, decoded)
        (rw (parsed, identified)
          (rw (r, looked_up)
            (rw (s1, s2)
              (rw
                (from_content_text json env n (enrich_envelope e d.headers) n.content
                  (get_by_id env id w).1 content text)
                (prepared-Ends env q d n (content_envelope (enrich_envelope e d.headers) c)
                  (get_by_id env id w).1 live h1)))))
