-- ===== src/Worker/Handle/Finished.antt =====
-- A notification that is delivered, failed or cancelled is not sent again.
use mathlib.Core.Path.{subst}
use notify_stream.Prelude.{ℕ, ◌≡◌, ◌⊎◌, refl, true, false, ◌||◌, not, inl, inr, Option, some, arith}
use notify_stream.Domain.Types.{
  Notification, Status, pending, queued, sending, delivered, cancelled, status_eq,
}
use notify_stream.Domain.Template.{Json}
use notify_stream.Amqp.Publish.{Envelope, Wire, Message}
use notify_stream.Db.Tables.{Tables, find_row}
use notify_stream.Db.Change.Terminal.{IsTerminal, run-find_row}
use notify_stream.Db.Store.{read, found, get_by_id}
use notify_stream.Worker.Envelope.{enrich_envelope}
use notify_stream.Worker.Handle.{looked_up, identified, decoded, handle_delivery}
use notify_stream.World.{
  Fault, fine, lost_before, lost_after, refused, Turn, World, Error, Result, ok, err, arrive,
}

-- Nothing is sent: no message, no status event, no request.
abbrev pub IsSilent : {Body : Type 0} → World Body → World Body → Type 0
IsSilent w w' = (w'.published ≡ w.published) × (w'.events ≡ w.events) × (w'.posts ≡ w.posts)

-- A row that is read, or an error; the world is as it was.
abbrev Reads :
    {Body : Type 0} → Notification → World Body → Result Notification × World Body → Type 0
Reads n w out = (out.1 ≡ w) × ((out.0 ≡ ok n) ⊎ ((x : Error) × (out.0 ≡ err x)))

read-Reads :
    {Body : Type 0} (f : Fault) (q : Tables → Option Notification) (w : World Body)
    {n : Notification}
    → q w.tables ≡ some n
    → Reads n w (read f q w)
unfolding read found
read-Reads fine q w e = (refl, inl (rw e refl))
read-Reads lost_before q w e = (refl, inr (_, refl))
read-Reads lost_after q w e = (refl, inr (_, refl))
read-Reads refused q w e = (refl, inr (_, refl))

terminal_statuses :
    (s : Status)
    → IsTerminal s
    → (status_eq s cancelled || status_eq s delivered ≡ true)
      ⊎ ((status_eq s cancelled || status_eq s delivered ≡ false)
          × (not (status_eq s pending || status_eq s queued || status_eq s sending) ≡ true))
unfolding status_eq
terminal_statuses s h = ground arith

module _ (wire : Wire) (json : Json) (env : ℕ → Turn) where
  looked_up-finished :
      (d : Message wire.Body) (e : Envelope) (id : ℕ) (n : Notification) (w : World wire.Body)
      → IsTerminal n.status
      → looked_up wire json env d e id (ok n) w ≡ (ok tt, w)
  unfolding looked_up
  looked_up-finished d e id n w h = elim (terminal_statuses n.status h) [
    | inl over ↦ rw over refl
    | inr (live, other) ↦ rw (live, other) refl
  ]

  looked_up-IsSilent :
      (d : Message wire.Body) (e : Envelope) (id : ℕ) (r : Result Notification)
      (w : World wire.Body) {n : Notification}
      → (r ≡ ok n) ⊎ ((x : Error) × (r ≡ err x))
      → IsTerminal n.status
      → IsSilent w (looked_up wire json env d e id r w).1
  looked_up-IsSilent d e id r w {n} (inl f) h =
      rw (f, looked_up-finished d e id n w h) (refl, refl, refl)
  looked_up-IsSilent d e id r w (inr (x, f)) h = unfold looked_up in rw f (refl, refl, refl)

  identified-IsSilent :
      (d : Message wire.Body) (e : Envelope) (id : ℕ) (w : World wire.Body) {n : Notification}
      → find_row id w.tables.notifications ≡ some n
      → IsTerminal n.status
      → IsSilent w (identified wire json env d e (some id) w).1
  unfolding identified get_by_id arrive
  identified-IsSilent d e id w {n} row h =
      let t = env w.tick in
      let w1 : World wire.Body = arrive env w in
      let q : Tables → Option Notification = λ db. find_row id db.notifications in
      let (same, out) = read-Reads t.fault q w1 (run-find_row t.others w.tables id row h) in
      let w2 : World wire.Body = (read t.fault q w1).1 in
      let w3 : World wire.Body = (looked_up wire json env d e id (read t.fault q w1).0 w2).1 in
      subst (λ u. IsSilent u w3) same (looked_up-IsSilent d e id (read t.fault q w1).0 w2 out h)

  -- A delivery that names a row which is delivered, failed or cancelled sends nothing, neither to the
  -- provider nor to the broker, whatever fails and whatever the other processes do.
  pub handle_delivery-IsSilent :
      (d : Message wire.Body) (w : World wire.Body) {e : Envelope} {id : ℕ} {n : Notification}
      → wire.unmarshal d.body ≡ some e
      → wire.parse_uuid (enrich_envelope e d.headers).id ≡ some id
      → find_row id w.tables.notifications ≡ some n
      → IsTerminal n.status
      → IsSilent w (handle_delivery wire json env d w).1
  unfolding handle_delivery decoded
  handle_delivery-IsSilent d w {e} {id} body parsed row h =
      rw (body, decoded)
        (rw parsed (identified-IsSilent d (enrich_envelope e d.headers) id w row h))
