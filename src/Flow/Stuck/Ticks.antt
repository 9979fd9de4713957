-- ===== src/Flow/Stuck/Ticks.antt =====
-- The ticks of internal/runner/background.go, and a row that nobody publishes.
use notify_stream.Prelude.{
  ℕ, zero, suc, ◌≡◌, ◌≢◌, refl, true, Bool, Bool-cases, inl, inr, none, List, [], ◌∷◌, IsIn, Str,
  not, ◌||◌, arith,
}
use notify_stream.Prelude.Int.{pos}
use notify_stream.Prelude.Sort.Members.{IsIn-All}
use notify_stream.Domain.Types.{Notification, pending, status_eq}
use notify_stream.Amqp.Publish.{Wire, message_of}
use notify_stream.Amqp.Client.{publish_notification, publish_marshalled}
use notify_stream.Db.Tables.{OutboxRow}
use notify_stream.Db.Change.{is_null}
use notify_stream.Db.Claims.{
  claim_outbox_batch, claim_due_scheduled, is_due, mark_queued, mark_outbox_published,
}
use notify_stream.Db.Claims.Oldest.{claim_outbox_batch-TakesFirst, claim_due_scheduled-TakesFirst}
use notify_stream.Db.Store.{get_by_id}
use notify_stream.Flow.Stuck.{
  IsStuck, Keeps, bind-Keeps, arrive-IsStuck, get_by_id-Keeps, publish_marshalled-Keeps,
  mark_queued-Keeps, mark_outbox_published-Keeps, ending-Keeps,
}
use notify_stream.Runner.{
  unless_failed, queue_and_publish, queue_entry, entry_sent, scheduled_sent, entry_read,
  process_outbox_entry, scheduled_read, process_scheduled, relay_claimed, schedule_claimed,
  relay_claim, relay_round, schedule_claim, schedule_round, relay_rounds, relay_tick,
  schedule_rounds, schedule_tick,
}
use notify_stream.World.{
  Fault, fine, lost_before, lost_after, refused, Turn, World, Result, ok, err, M, arrive,
}

timed : (now : ℕ) (n : Notification) → is_due now n ≡ true → n.scheduled_at ≡ none → ⊥
unfolding is_due
timed now n due e = ground arith

module _ {Body : Type 0} {id : ℕ} where
  unless_failed-Keeps :
      (f : Fault) (act : M Body Bool) → Keeps id act → Keeps id (unless_failed f act)
  unfolding unless_failed
  unless_failed-Keeps fine act h w s = h w s
  unless_failed-Keeps lost_before act h w s = s
  unless_failed-Keeps lost_after act h w s = s
  unless_failed-Keeps refused act h w s = s

module _ {Body : Type 0} (env : ℕ → Turn) (alone : (t : ℕ) → (env t).others ≡ []) {id : ℕ} where
  queue_and_publish-Keeps :
      (now : ℕ) (e : OutboxRow) (r : Result (Unit {0}))
      → Keeps id {Body = Body} (queue_and_publish env now e r)
  unfolding queue_and_publish
  queue_and_publish-Keeps now e (ok _) w h = mark_outbox_published-Keeps env alone now e.id w h
  queue_and_publish-Keeps now e (err x) w h = h

  entry_sent-Keeps :
      (now : ℕ) (e : OutboxRow) (r : Result (Unit {0}))
      → e.notification_id ≢ id
      → Keeps id {Body = Body} (entry_sent env now e r)
  unfolding entry_sent queue_entry
  entry_sent-Keeps now e (ok _) ne w h =
      ending-Keeps env alone (queue_entry env now e)
        (bind-Keeps (mark_queued env now e.notification_id) (queue_and_publish env now e)
          (mark_queued-Keeps env alone now e.notification_id ne) (queue_and_publish-Keeps now e))
        w h
  entry_sent-Keeps now e (err x) ne w h = h

  scheduled_sent-Keeps :
      (now k : ℕ) (r : Result (Unit {0}))
      → k ≢ id
      → Keeps id {Body = Body} (scheduled_sent env now k r)
  unfolding scheduled_sent
  scheduled_sent-Keeps now k (ok _) ne w h =
      ending-Keeps env alone (mark_queued env now k) (mark_queued-Keeps env alone now k ne) w h
  scheduled_sent-Keeps now k (err x) ne w h = h

module _ (wire : Wire) (env : ℕ → Turn) (alone : (t : ℕ) → (env t).others ≡ [])
    (mc : List (Str × Str)) {id : ℕ} where
  entry_read-Keeps :
      (now : ℕ) (e : OutboxRow) (r : Result Notification)
      → e.notification_id ≢ id
      → Keeps id (entry_read wire env mc now e r)
  unfolding entry_read publish_notification
  entry_read-Keeps now e (err x) ne w h = h
  entry_read-Keeps now e (ok n) ne w h = elim (Bool-cases (status_eq n.status pending)) [
    | inl wait ↦ rw wait (
        bind-Keeps (publish_marshalled env (message_of wire mc n)) (entry_sent env now e)
          (publish_marshalled-Keeps env alone (message_of wire mc n))
          (λ r. entry_sent-Keeps env alone now e r ne) w h)
    | inr past ↦ rw past (
        ending-Keeps env alone (mark_outbox_published env now e.id)
          (mark_outbox_published-Keeps env alone now e.id) w h)
  ]

  process_outbox_entry-Keeps :
      (now : ℕ) (e : OutboxRow)
      → e.notification_id ≢ id
      → Keeps id (process_outbox_entry wire env mc now e)
  unfolding process_outbox_entry
  process_outbox_entry-Keeps now e ne =
      bind-Keeps (get_by_id env e.notification_id) (entry_read wire env mc now e)
        (get_by_id-Keeps env alone e.notification_id) (λ r. entry_read-Keeps now e r ne)

  scheduled_read-Keeps :
      (now k : ℕ) (r : Result Notification) → k ≢ id → Keeps id (scheduled_read wire env mc now k r)
  unfolding scheduled_read publish_notification
  scheduled_read-Keeps now k (err x) ne w h = h
  scheduled_read-Keeps now k (ok n) ne w h =
      elim (Bool-cases (not (status_eq n.status pending) || is_null n.scheduled_at)) [
        | inl over ↦ rw over h
        | inr due ↦ rw due (
            bind-Keeps (publish_marshalled env (message_of wire mc n)) (scheduled_sent env now k)
              (publish_marshalled-Keeps env alone (message_of wire mc n))
              (λ r. scheduled_sent-Keeps env alone now k r ne) w h)
      ]

  process_scheduled-Keeps : (now k : ℕ) → k ≢ id → Keeps id (process_scheduled wire env mc now k)
  unfolding process_scheduled
  process_scheduled-Keeps now k ne =
      bind-Keeps (get_by_id env k) (scheduled_read wire env mc now k) (get_by_id-Keeps env alone k)
        (λ r. scheduled_read-Keeps now k r ne)

  relay_claimed-Keeps :
      (now : ℕ) (got : List OutboxRow)
      → ((e : OutboxRow) → IsIn e got → e.notification_id ≢ id)
      → Keeps id (relay_claimed wire env mc now got)
  unfolding relay_claimed
  relay_claimed-Keeps now [] f w h = h
  relay_claimed-Keeps now (e ∷ es) f w h = process_outbox_entry-Keeps now e (f e (inl refl)) w h

  schedule_claimed-Keeps :
      (now : ℕ) (got : List Notification)
      → ((n : Notification) → IsIn n got → n.id ≢ id)
      → Keeps id (schedule_claimed wire env mc now got)
  unfolding schedule_claimed
  schedule_claimed-Keeps now [] f w h = h
  schedule_claimed-Keeps now (n ∷ ns) f w h = process_scheduled-Keeps now n.id (f n (inl refl)) w h

  -- An entry that is claimed is in the outbox, and a row that is claimed has a time.
  relay_claim-Keeps : (locked : ℕ → Bool) (now : ℕ) → Keeps id (relay_claim wire env mc locked now)
  unfolding relay_claim
  relay_claim-Keeps locked now w h =
      unless_failed-Keeps (env w.tick).fault
        (λ v. relay_claimed wire env mc now (claim_outbox_batch locked (pos 1) v.tables) v)
        (λ v k.
          relay_claimed-Keeps now (claim_outbox_batch locked (pos 1) v.tables)
            (λ e i.
              IsIn-All (λ x. x.notification_id ≢ id) e v.tables.outbox k.unposted
                ((claim_outbox_batch-TakesFirst locked (pos 1) v.tables).1.0 e i).0)
            v k)
        (arrive env w) (arrive-IsStuck env alone w h)

  schedule_claim-Keeps :
      (locked : ℕ → Bool) (now : ℕ) → Keeps id (schedule_claim wire env mc locked now)
  unfolding schedule_claim
  schedule_claim-Keeps locked now w h =
      unless_failed-Keeps (env w.tick).fault
        (λ v. schedule_claimed wire env mc now (claim_due_scheduled locked now (pos 1) v.tables) v)
        (λ v k.
          schedule_claimed-Keeps now (claim_due_scheduled locked now (pos 1) v.tables)
            (λ n i e.
              let (there, due, free) =
                (claim_due_scheduled-TakesFirst locked now (pos 1) v.tables).1.0 n i in
              timed now n due (
                IsIn-All (λ x. x.id ≡ id → x.scheduled_at ≡ none) n v.tables.notifications k.untimed
                  there e))
            v k)
        (arrive env w) (arrive-IsStuck env alone w h)

  relay_round-Keeps : (locked : ℕ → Bool) → Keeps id (relay_round wire env mc locked)
  unfolding relay_round
  relay_round-Keeps locked w h =
      unless_failed-Keeps (env w.tick).fault (relay_claim wire env mc locked (env w.tick).now)
        (relay_claim-Keeps locked (env w.tick).now) (arrive env w) (arrive-IsStuck env alone w h)

  schedule_round-Keeps : (locked : ℕ → Bool) → Keeps id (schedule_round wire env mc locked)
  unfolding schedule_round
  schedule_round-Keeps locked w h =
      unless_failed-Keeps (env w.tick).fault (schedule_claim wire env mc locked (env w.tick).now)
        (schedule_claim-Keeps locked (env w.tick).now) (arrive env w) (arrive-IsStuck env alone w h)

  relay_rounds-Keeps :
      (locked : ℕ → Bool) (left : ℕ) → Keeps id (relay_rounds wire env mc locked left)
  unfolding relay_rounds
  relay_rounds-Keeps locked zero w h = h
  relay_rounds-Keeps locked (suc left) w h =
      elim (Bool-cases (relay_round wire env mc locked w).0) [
        | inl more ↦ rw more (relay_rounds-Keeps locked left _ (relay_round-Keeps locked w h))
        | inr over ↦ rw over (relay_round-Keeps locked w h)
      ]

  schedule_rounds-Keeps :
      (locked : ℕ → Bool) (left : ℕ) → Keeps id (schedule_rounds wire env mc locked left)
  unfolding schedule_rounds
  schedule_rounds-Keeps locked zero w h = h
  schedule_rounds-Keeps locked (suc left) w h =
      elim (Bool-cases (schedule_round wire env mc locked w).0) [
        | inl more ↦ rw more (schedule_rounds-Keeps locked left _ (schedule_round-Keeps locked w h))
        | inr over ↦ rw over (schedule_round-Keeps locked w h)
      ]

-- A tick of the relay or of the scheduler, while other transactions have rows locked.
pub data Tick : Type 0 where
  relays schedules : (ℕ → Bool) → Tick

module _ (wire : Wire) (env : ℕ → Turn) (mc : List (Str × Str)) where
  abbrev pub tick : Tick → M wire.Body (Unit {0})
  tick (relays locked) = relay_tick wire env mc locked
  tick (schedules locked) = schedule_tick wire env mc locked

  abbrev pub ticks : List Tick → World wire.Body → World wire.Body
  ticks [] w = w
  ticks (t ∷ ts) w = ticks ts (tick t w).1

module _ (wire : Wire) (env : ℕ → Turn) (alone : (t : ℕ) → (env t).others ≡ [])
    (mc : List (Str × Str)) {id : ℕ} where
  tick-Keeps : (t : Tick) → Keeps id (tick wire env mc t)
  unfolding relay_tick schedule_tick
  tick-Keeps (relays locked) w h = relay_rounds-Keeps wire env alone mc locked 25 w h
  tick-Keeps (schedules locked) w h = schedule_rounds-Keeps wire env alone mc locked 50 w h

  pub ticks-IsStuck :
      (ts : List Tick) (w : World wire.Body)
      → IsStuck id w.tables
      → IsStuck id (ticks wire env mc ts w).tables
  ticks-IsStuck [] w h = h
  ticks-IsStuck (t ∷ ts) w h = ticks-IsStuck ts (tick wire env mc t w).1 (tick-Keeps t w h)
