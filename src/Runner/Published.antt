-- ===== src/Runner/Published.antt =====
-- The relay and the scheduler take a notification off only once it is published.
use notify_stream.Prelude.{
  ℕ, ◌≡◌, ◌⊎◌, refl, ap, ◌∙◌, inl, inr, Bool, Bool-cases, true, ◌||◌, not, Option, none, some, List,
  [], ◌∷◌, ◌++◌, Str,
}
use notify_stream.Domain.Types.{Notification, pending, status_eq}
use notify_stream.Amqp.Publish.{Wire, Message, message_of}
use notify_stream.Amqp.Client.{send, publish, publish_marshalled, publish_notification}
use notify_stream.Db.Tables.{Tables, OutboxRow}
use notify_stream.Db.Change.{Change, is_null}
use notify_stream.Db.Store.{read, get_by_id}
use notify_stream.Db.Claims.{mark_queued, mark_outbox_published}
use notify_stream.Db.Transaction.{tx_commit, tx_rollback}
use notify_stream.Db.Transaction.Quiet.{published-tx_exec, published-commit}
use notify_stream.Runner.{
  finish_claim, ending, queue_and_publish, queue_entry, entry_sent, scheduled_sent, entry_read,
  process_outbox_entry, scheduled_read, process_scheduled,
}
use notify_stream.World.{
  M, Fault, fine, lost_before, lost_after, refused, Turn, World, Result, ok, err, arrive,
}

module _ {Body : Type 0} where
  -- A publication that is reported as made is made.
  sent :
      (f : Fault) (m : Message Body) (w : World Body)
      → (send f m w).0 ≡ ok tt
      → (send f m w).1.published ≡ w.published ++ m ∷ []
  unfolding send
  sent fine m w h = refl
  sent lost_before m w h = absurd (cc)
  sent lost_after m w h = absurd (cc)
  sent refused m w h = absurd (cc)

module _ {Body : Type 0} (env : ℕ → Turn) where
  marshalled_sent :
      (o : Option (Message Body)) (w : World Body)
      → (publish_marshalled env o w).0 ≡ ok tt
      → (m : Message Body) × (o ≡ some m)
        × ((publish_marshalled env o w).1.published ≡ w.published ++ m ∷ [])
  unfolding publish_marshalled publish arrive
  marshalled_sent none w h = absurd (cc)
  marshalled_sent (some m) w h = (m, refl, sent (env w.tick).fault m (arrive env w) h)

  published-queue_and_publish :
      (now : ℕ) (e : OutboxRow) (r : Result (Unit {0})) (w : World Body)
      → (queue_and_publish env now e r w).1.published ≡ w.published
  unfolding queue_and_publish mark_outbox_published
  published-queue_and_publish now e (ok _) w = published-tx_exec env _ now w
  published-queue_and_publish now e (err x) w = refl

  published-queue_entry :
      (now : ℕ) (e : OutboxRow) (w : World Body)
      → (queue_entry env now e w).1.published ≡ w.published
  unfolding queue_entry mark_queued
  published-queue_entry now e w =
      let (r, w') = mark_queued env now e.notification_id w in
      published-queue_and_publish now e r w'
      ∙ published-tx_exec env (Change.mark_queued e.notification_id) now w

  published-finish :
      (saved : Tables) (r : Result (Unit {0})) (w : World Body)
      → (finish_claim env saved r w).1.published ≡ w.published
  unfolding finish_claim tx_commit tx_rollback arrive
  published-finish saved (err x) w = refl
  published-finish saved (ok a) w = published-commit (env w.tick).fault saved tt w

  -- A transaction whose statements send nothing sends nothing.
  published-ending :
      (body : M Body (Result (Unit {0}))) (w : World Body)
      → (body w).1.published ≡ w.published
      → (ending env body w).1.published ≡ w.published
  unfolding ending
  published-ending body w h = published-finish w.tables (body w).0 (body w).1 ∙ h

  entry_sent-ok :
      (now : ℕ) (e : OutboxRow) (r : Result (Unit {0})) (w : World Body)
      → (entry_sent env now e r w).0 ≡ ok tt
      → (r ≡ ok tt) × ((entry_sent env now e r w).1.published ≡ w.published)
  unfolding entry_sent
  entry_sent-ok now e (err x) w h = absurd (cc)
  entry_sent-ok now e (ok _) w h =
      (refl, published-ending (queue_entry env now e) w (published-queue_entry now e w))

  published-mark_queued :
      (now id : ℕ) (w : World Body) → (mark_queued env now id w).1.published ≡ w.published
  unfolding mark_queued
  published-mark_queued now id w = published-tx_exec env (Change.mark_queued id) now w

  scheduled_sent-ok :
      (now id : ℕ) (r : Result (Unit {0})) (w : World Body)
      → (scheduled_sent env now id r w).0 ≡ ok tt
      → (r ≡ ok tt) × ((scheduled_sent env now id r w).1.published ≡ w.published)
  unfolding scheduled_sent
  scheduled_sent-ok now id (err x) w h = absurd (cc)
  scheduled_sent-ok now id (ok _) w h =
      (refl, published-ending (mark_queued env now id) w (published-mark_queued now id w))

module _ {Body : Type 0} where
  published-read :
      {A : Type 0} (f : Fault) (q : Tables → Option A) (w : World Body)
      → (read f q w).1.published ≡ w.published
  unfolding read
  published-read fine q w = refl
  published-read _ q w = refl

module _ (wire : Wire) (env : ℕ → Turn) (mc : List (Str × Str)) where
  -- From `w` to `w'` the message of the notification was published.
  abbrev pub IsPublished : Notification → World wire.Body → World wire.Body → Type 0
  IsPublished n w w' =
      (m : Message wire.Body) × (message_of wire mc n ≡ some m)
      × (w'.published ≡ w.published ++ m ∷ [])

  -- The row, read at the start, was published, or did not ask for it.
  abbrev pub Relays : ℕ → (Notification → Bool) → World wire.Body → World wire.Body → Type 0
  Relays id off w w' =
      (n : Notification) × ((get_by_id env id w).0 ≡ ok n) × ((off n ≡ true) ⊎ IsPublished n w w')

  published-get_by_id :
      (id : ℕ) (w : World wire.Body) → (get_by_id env id w).1.published ≡ w.published
  unfolding get_by_id arrive
  published-get_by_id id w = published-read (env w.tick).fault _ (arrive env w)

  entry_pending :
      (now : ℕ) (e : OutboxRow) (n : Notification) (w : World wire.Body)
      → let (r, w1) = publish_notification wire env mc n w in
        (entry_sent env now e r w1).0 ≡ ok tt → IsPublished n w (entry_sent env now e r w1).1
  unfolding publish_notification
  entry_pending now e n w h =
      let (r, w1) = publish_notification wire env mc n w in
      let (good, kept) = entry_sent-ok env now e r w1 h in
      let (m, built, out) = marshalled_sent env (message_of wire mc n) w good in
      (m, built, kept ∙ out)

  entry_read-ok :
      (now : ℕ) (e : OutboxRow) (r : Result Notification) (w : World wire.Body)
      → (entry_read wire env mc now e r w).0 ≡ ok tt
      → (n : Notification) × (r ≡ ok n)
        × ((not (status_eq n.status pending) ≡ true)
            ⊎ IsPublished n w (entry_read wire env mc now e r w).1)
  unfolding entry_read
  entry_read-ok now e (err x) w h = absurd (cc)
  entry_read-ok now e (ok n) w h = elim (Bool-cases (not (status_eq n.status pending))) [
    | inl gone ↦ (n, refl, inl gone)
    | inr waits ↦ (n, refl, inr (rw waits (entry_pending now e n w (rw waits at h))))
  ]

  scheduled_pending :
      (now id : ℕ) (n : Notification) (w : World wire.Body)
      → let (r, w1) = publish_notification wire env mc n w in
        (scheduled_sent env now id r w1).0 ≡ ok tt
        → IsPublished n w (scheduled_sent env now id r w1).1
  unfolding publish_notification
  scheduled_pending now id n w h =
      let (r, w1) = publish_notification wire env mc n w in
      let (good, kept) = scheduled_sent-ok env now id r w1 h in
      let (m, built, out) = marshalled_sent env (message_of wire mc n) w good in
      (m, built, kept ∙ out)

  scheduled_read-ok :
      (now id : ℕ) (r : Result Notification) (w : World wire.Body)
      → (scheduled_read wire env mc now id r w).0 ≡ ok tt
      → (n : Notification) × (r ≡ ok n)
        × ((not (status_eq n.status pending) || is_null n.scheduled_at ≡ true)
            ⊎ IsPublished n w (scheduled_read wire env mc now id r w).1)
  unfolding scheduled_read
  scheduled_read-ok now id (err x) w h = absurd (cc)
  scheduled_read-ok now id (ok n) w h =
      elim (Bool-cases (not (status_eq n.status pending) || is_null n.scheduled_at)) [
        | inl off ↦ (n, refl, inl off)
        | inr waits ↦ (n, refl, inr (rw waits (scheduled_pending now id n w (rw waits at h))))
      ]

  -- Reading the row first published nothing.
  since :
      (n : Notification) (u v w : World wire.Body) {b : Bool}
      → u.published ≡ w.published
      → (b ≡ true) ⊎ IsPublished n u v
      → (b ≡ true) ⊎ IsPublished n w v
  since n u v w s (inl x) = inl x
  since n u v w s (inr (m, built, out)) = inr (m, built, out ∙ ap (λ t. t ++ m ∷ []) s)

  -- Where the relay reports an outbox entry as done, the notification that it read was pending and its
  -- message is on the exchange, or it was not pending, whatever fails and whatever the other processes
  -- do.
  pub process_outbox_entry-Relays :
      (now : ℕ) (e : OutboxRow) (w : World wire.Body)
      → (process_outbox_entry wire env mc now e w).0 ≡ ok tt
      → Relays e.notification_id
          (λ n. not (status_eq n.status pending))
          w
          (process_outbox_entry wire env mc now e w).1
  unfolding process_outbox_entry
  process_outbox_entry-Relays now e w h =
      let (r, w1) = get_by_id env e.notification_id w in
      let (n, was, p) = entry_read-ok now e r w1 h in
      let same : w1.published ≡ w.published = published-get_by_id e.notification_id w in
      (n, was, since n w1 (process_outbox_entry wire env mc now e w).1 w same p)

  -- Where the scheduler reports a due notification as done, the row that it read was pending with a
  -- time and its message is on the exchange, or the row was not pending or had no time, whatever fails
  -- and whatever the other processes do.
  pub process_scheduled-Relays :
      (now id : ℕ) (w : World wire.Body)
      → (process_scheduled wire env mc now id w).0 ≡ ok tt
      → Relays id
          (λ n. not (status_eq n.status pending) || is_null n.scheduled_at)
          w
          (process_scheduled wire env mc now id w).1
  unfolding process_scheduled
  process_scheduled-Relays now id w h =
      let (r, w1) = get_by_id env id w in
      let (n, was, p) = scheduled_read-ok now id r w1 h in
      let same : w1.published ≡ w.published = published-get_by_id id w in
      (n, was, since n w1 (process_scheduled wire env mc now id w).1 w same p)
