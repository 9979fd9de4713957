-- ===== src/Flow/Stuck.antt =====
-- A row that is pending, has no time and is in no outbox: the calls of internal/db and internal/amqp
-- that the runner makes for other rows leave it as it is.
pub mod Ticks
use notify_stream.Prelude.{
  ℕ, suc, ◌≡◌, ◌≢◌, refl, sym, ap, ◌∙◌, true, false, Bool-cases, inl, inr, Option, none, some, List,
  [], ◌∷◌, All, Str, ◌==◌, ◌&&◌, arith, Bool, if◌then◌else◌,
}
use notify_stream.Domain.Types.{Notification, Status, pending}
use notify_stream.Amqp.Publish.{Wire, Message, message_of}
use notify_stream.Amqp.Client.{send, publish, publish_marshalled, publish_notification}
use notify_stream.Db.Tables.{OutboxRow, Tables, status_in}
use notify_stream.Db.Change.{
  Change, apply, run, update_row, update_by, from_status, set_row, publish_row,
}
use notify_stream.Db.Change.Lifecycle.{id-set_row}
use notify_stream.Db.Store.{read, get_by_id, affected, ignored}
use notify_stream.Db.Store.Evolves.{read_same}
use notify_stream.Db.Claims.{mark_queued, mark_outbox_published}
use notify_stream.Db.Transaction.{tx_exec, tx_execute, tx_commit, tx_rollback, commit, passed}
use notify_stream.Runner.{finish_claim, ending}
use notify_stream.Runner.Drained.{publish_row-All}
use notify_stream.World.{
  Fault, fine, lost_before, lost_after, refused, Turn, World, Result, ok, err, M, ◌>>=◌, arrive,
}

pub record IsStuck (id : ℕ) (db : Tables) : Type 0 where
  pub status : status_in id db.notifications ≡ some pending
  pub untimed : All (λ n. n.id ≡ id → n.scheduled_at ≡ none) db.notifications
  pub unposted : All (λ e. e.notification_id ≢ id) db.outbox

status_in_other :
    (c : Change) (now k id : ℕ) (ns : List Notification)
    → k ≢ id
    → status_in id (update_row (from_status c) (set_row c) now k ns).0 ≡ status_in id ns
unfolding status_in update_row
status_in_other c now k id [] h = refl
status_in_other c now k id (n ∷ ns) h =
    ground (arith, status_in_other c now k id ns h, id-set_row c n)

scheduled_at-set_row : (c : Change) (n : Notification) → (set_row c n).scheduled_at ≡ n.scheduled_at
unfolding set_row
scheduled_at-set_row c n = ground arith

untimed_update :
    (c : Change) (now k id : ℕ) (ns : List Notification)
    → All (λ n. n.id ≡ id → n.scheduled_at ≡ none) ns
    → All
        (λ n. n.id ≡ id → n.scheduled_at ≡ none)
        (update_row (from_status c) (set_row c) now k ns).0
unfolding update_row
untimed_update c now k id [] h = tt
untimed_update c now k id (n ∷ ns) (u, h) =
    elim (Bool-cases (n.id == k && from_status c n.status)) [
      | inl hit ↦ rw hit (
        λ e. scheduled_at-set_row c n ∙ u (sym (id-set_row c n) ∙ e),
        untimed_update c now k id ns h,
      )
      | inr miss ↦ rw miss (u, untimed_update c now k id ns h)
    ]

module _ {id : ℕ} where
  queued-IsStuck :
      (now k : ℕ) (db : Tables)
      → k ≢ id
      → IsStuck id db
      → IsStuck id (apply (Change.mark_queued k) now db).0
  unfolding apply update_by
  queued-IsStuck now k db ne h = record {
    status = status_in_other (Change.mark_queued k) now k id db.notifications ne ∙ h.status;
    untimed = untimed_update (Change.mark_queued k) now k id db.notifications h.untimed;
    unposted = h.unposted;
  }

  posted-IsStuck :
      (now k : ℕ) (db : Tables)
      → IsStuck id db
      → IsStuck id (apply (Change.publish_outbox k) now db).0
  unfolding apply
  posted-IsStuck now k db h = record {
    status = h.status;
    untimed = h.untimed;
    unposted = publish_row-All (λ j. j ≢ id) now k db.outbox h.unposted;
  }

-- The row is stuck after a call if it was before.
abbrev pub Keeps : ℕ → {Body A : Type 0} → M Body A → Type 0
Keeps id {Body} m = (w : World Body) → IsStuck id w.tables → IsStuck id (m w).1.tables

module _ {Body : Type 0} {id : ℕ} where
  pub bind-Keeps :
      {A B : Type 0} (m : M Body A) (f : A → M Body B)
      → Keeps id m
      → ((a : A) → Keeps id (f a))
      → Keeps id (m >>= f)
  bind-Keeps m f hm hf w h = hf (m w).0 (m w).1 (hm w h)

  send-Keeps : (f : Fault) (m : Message Body) → Keeps id (send f m)
  unfolding send
  send-Keeps fine m w h = h
  send-Keeps lost_before m w h = h
  send-Keeps lost_after m w h = h
  send-Keeps refused m w h = h

  tx_execute-Keeps :
      (f : Fault) (c : Change) (now : ℕ) (w : World Body)
      → IsStuck id w.tables
      → IsStuck id (apply c now w.tables).0
      → IsStuck id (tx_execute f c now w).1.tables
  unfolding tx_execute
  tx_execute-Keeps fine c now w h k = k
  tx_execute-Keeps lost_before c now w h k = h
  tx_execute-Keeps lost_after c now w h k = h
  tx_execute-Keeps refused c now w h k = h

  commit-IsStuck :
      {A : Type 0} (f : Fault) (saved : Tables) (a : A) (w : World Body)
      → IsStuck id saved
      → IsStuck id w.tables
      → IsStuck id (commit f saved a w).1.tables
  unfolding commit
  commit-IsStuck fine saved a w s h = h
  commit-IsStuck lost_before saved a w s h = s
  commit-IsStuck refused saved a w s h = s
  commit-IsStuck lost_after saved a w s h = h

module _ {Body : Type 0} {id : ℕ} (env : ℕ → Turn) (alone : (t : ℕ) → (env t).others ≡ []) where
  pub arrive-IsStuck : (w : World Body) → IsStuck id w.tables → IsStuck id (arrive env w).tables
  unfolding arrive run
  arrive-IsStuck w h = rw (alone w.tick) h

  pub get_by_id-Keeps : (k : ℕ) → Keeps id {Body = Body} (get_by_id env k)
  unfolding get_by_id
  get_by_id-Keeps k w h = rw (read_same (env w.tick).fault _ (arrive env w)) (arrive-IsStuck w h)

  pub publish_marshalled-Keeps : (o : Option (Message Body)) → Keeps id (publish_marshalled env o)
  unfolding publish_marshalled publish
  publish_marshalled-Keeps none w h = h
  publish_marshalled-Keeps (some m) w h =
      send-Keeps (env w.tick).fault m (arrive env w) (arrive-IsStuck w h)

  pub mark_queued-Keeps : (now k : ℕ) → k ≢ id → Keeps id {Body = Body} (mark_queued env now k)
  unfolding mark_queued tx_exec
  mark_queued-Keeps now k ne w h =
      tx_execute-Keeps (env w.tick).fault (Change.mark_queued k) now (passed w) h
        (queued-IsStuck now k w.tables ne h)

  pub mark_outbox_published-Keeps :
      (now k : ℕ) → Keeps id {Body = Body} (mark_outbox_published env now k)
  unfolding mark_outbox_published tx_exec
  mark_outbox_published-Keeps now k w h =
      tx_execute-Keeps (env w.tick).fault (Change.publish_outbox k) now (passed w) h
        (posted-IsStuck now k w.tables h)

  finish-IsStuck :
      (saved : Tables) (r : Result (Unit {0})) (w : World Body)
      → IsStuck id saved
      → IsStuck id w.tables
      → IsStuck id (finish_claim env saved r w).1.tables
  unfolding finish_claim tx_commit tx_rollback
  finish-IsStuck saved (err e) w s h = arrive-IsStuck (record w { tables = saved }) s
  finish-IsStuck saved (ok a) w s h =
      arrive-IsStuck (commit (env w.tick).fault saved tt w).1
        (commit-IsStuck (env w.tick).fault saved tt w s h)

  pub ending-Keeps :
      (body : M Body (Result (Unit {0}))) → Keeps id body → Keeps id (ending env body)
  unfolding ending
  ending-Keeps body hb w h = finish-IsStuck w.tables (body w).0 (body w).1 h (hb w h)
