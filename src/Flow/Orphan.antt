-- ===== src/Flow/Orphan.antt =====
-- A new notification that is read back in vain: the loop of `CreateNotifications`,
-- internal/api/handlers.go, goes on, and nobody publishes it any more.
use notify_stream.Prelude.{ℕ, ◌≡◌, ◌≢◌, refl, true, Option, some, List, [], Str}
use notify_stream.Domain.Types.{Notification, pending}
use notify_stream.Amqp.Publish.{Wire}
use notify_stream.Db.Tables.{Tables, status_in}
use notify_stream.Db.Store.{read, get_by_id}
use notify_stream.Api.Create.{publish_item, item_read}
use notify_stream.Flow.Stuck.{IsStuck, arrive-IsStuck}
use notify_stream.Flow.Stuck.Ticks.{Tick, ticks, ticks-IsStuck}
use notify_stream.World.{
  Fault, fine, lost_before, lost_after, refused, Turn, World, db_error, err, arrive,
}

module _ {Body : Type 0} {A : Type 0} where
  read_fails :
      (f : Fault) (q : Tables → Option A) (w : World Body)
      → f ≢ fine
      → read f q w ≡ (err db_error, w)
  unfolding read
  read_fails fine q w h = absurd (h refl)
  read_fails lost_before q w h = refl
  read_fails lost_after q w h = refl
  read_fails refused q w h = refl

module _ (wire : Wire) (mc : List (Str × Str)) (env later : ℕ → Turn)
    (alone : (t : ℕ) → (env t).others ≡ []) (alone_later : (t : ℕ) → (later t).others ≡ []) where
  -- Nobody else acts. A new notification is pending, has no time and is in no outbox, and the API fails
  -- to read it back. Then the response shows it as it was inserted, no message is sent, and after any
  -- ticks of the relay and of the scheduler, whatever fails in them, the row is still pending.
  pub publish_item-IsPending :
      (now : ℕ) (n : Notification) (w : World wire.Body)
      → IsStuck n.id w.tables
      → (env w.tick).fault ≢ fine
      → let (r, w1) = publish_item wire env mc now (n, true) w in
        (r ≡ (n, true))
        × (w1.published ≡ w.published)
        × ((ts : List Tick)
            → status_in n.id (ticks wire later mc ts w1).tables.notifications ≡ some pending)
  unfolding publish_item get_by_id item_read arrive
  publish_item-IsPending now n w h f = rw (read_fails (env w.tick).fault _ (arrive env w) f) (
    refl,
    refl,
    λ ts.
        (ticks-IsStuck wire later alone_later mc ts (arrive env w)
          (arrive-IsStuck env alone w h)).status,
  )
