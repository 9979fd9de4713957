-- ===== src/Db/Store/Quiet.antt =====
-- The methods of the store in a quiet environment, at a row that they start from.
use notify_stream.Prelude.{ℕ, suc, ◌≡◌, refl, ap, true, Option, some, List, Str, ◌∙◌}
use notify_stream.Domain.Types.{Notification, Status, sending, delivered, failed}
use notify_stream.Amqp.Publish.{Message}
use notify_stream.Delivery.Outbound.{Outbound}
use notify_stream.Db.Tables.{Tables, find_row}
use notify_stream.Db.Change.{Change, from_status, set_row, update_by, apply, is_live}
use notify_stream.Db.Change.Hit.{update_row_hit, update_row_other}
use notify_stream.Db.Store.{
  execute, exec, affected, get_by_id, mark_sending, mark_delivered, mark_failed, read, found,
}
use notify_stream.World.{fine, Turn, Event, World, ok, arrive}
use notify_stream.World.Quiet.{IsQuiet, Now, arrive-Now, arrive_quiet}

-- A statement about one row that sets one status.
pub record Sets (c : Change) (id : ℕ) (t : Status) : Type 0 where
  pub one_status : (n : Notification) → (set_row c n).status ≡ t
  pub one_row : (now : ℕ) (db : Tables) → apply c now db ≡ update_by c id now db

mark_sending-Sets : (id : ℕ) → Sets (Change.mark_sending id) id sending
unfolding apply
mark_sending-Sets id = record { one_status = λ n. refl; one_row = λ now db. refl }

mark_delivered-Sets : (id : ℕ) (mid : Option Str) → Sets (Change.mark_delivered id mid) id delivered
unfolding apply
mark_delivered-Sets id mid = record { one_status = λ n. refl; one_row = λ now db. refl }

mark_failed-Sets : (id : ℕ) → Sets (Change.mark_failed id) id failed
unfolding apply
mark_failed-Sets id = record { one_status = λ n. refl; one_row = λ now db. refl }

module _ {Body : Type 0} where
  read_row :
      (i : ℕ) (w : World Body) {n : Notification}
      → find_row i w.tables.notifications ≡ some n
      → (read fine (λ db. find_row i db.notifications) w).0 ≡ ok n
  unfolding read found
  read_row i w e = ap found e

module _ {Body : Type 0} {old : List Notification} {id : ℕ} {s : Status} {ms : List (Message Body)}
    {es : List Event} {os : List Outbound} {tick : ℕ} where
  execute_hit :
      (c : Change) (t : Status) (now : ℕ) (w : World Body)
      → Sets c id t
      → from_status c s ≡ true
      → Now old id s ms es os tick w
      → (k : ℕ) × ((execute fine c now w).0 ≡ ok (suc k))
        × Now old id t ms es os tick (execute fine c now w).1
  unfolding execute
  execute_hit c t now w sets starts h =
      let (hit, k, counted) =
        update_row_hit c t sets.one_status now id w.tables.notifications h.status starts in
      rw (sets.one_row now w.tables) (
        k,
        unfold update_by in ap ok counted,
        record {
          status = unfold update_by in hit;
          others = λ j ne.
              unfold update_by in
              update_row_other c now id j w.tables.notifications ne ∙ h.others j ne;
          published = h.published;
          events = h.events;
          posts = h.posts;
          tick = h.tick;
        },
      )

module _ {Body : Type 0} (env : ℕ → Turn) (q : IsQuiet env) {old : List Notification} {id : ℕ}
    {s : Status} {ms : List (Message Body)} {es : List Event} {os : List Outbound} {tick : ℕ} where
  exec-Now :
      (c : Change) (t : Status) (w : World Body)
      → Sets c id t
      → from_status c s ≡ true
      → Now old id s ms es os tick w
      → (k : ℕ) × ((exec env c w).0 ≡ ok (suc k))
        × Now old id t ms es os (suc tick) (exec env c w).1
  unfolding exec
  exec-Now c t w sets starts h =
      rw (q.works w.tick)
        (execute_hit c t (env w.tick).now (arrive env w) sets starts (arrive-Now env q w h))

  pub mark_sending-Now :
      (w : World Body)
      → is_live s ≡ true
      → Now old id s ms es os tick w
      → ((mark_sending env id w).0 ≡ ok tt)
        × Now old id sending ms es os (suc tick) (mark_sending env id w).1
  unfolding mark_sending
  mark_sending-Now w live h =
      let (k, e, now) =
        exec-Now (Change.mark_sending id) sending w (mark_sending-Sets id)
          (unfold from_status in live) h in
      (rw (e, affected), now)

  pub mark_delivered-Now :
      (mid : Option Str) (w : World Body)
      → s ≡ sending
      → Now old id s ms es os tick w
      → ((mark_delivered env id mid w).0 ≡ ok tt)
        × Now old id delivered ms es os (suc tick) (mark_delivered env id mid w).1
  unfolding mark_delivered
  mark_delivered-Now mid w e h =
      let c : Change = Change.mark_delivered id mid in
      let (k, e', now) =
        exec-Now c delivered w (mark_delivered-Sets id mid) (unfold from_status in rw e) h in
      (rw (e', affected), now)

  pub mark_failed-Now :
      (w : World Body)
      → is_live s ≡ true
      → Now old id s ms es os tick w
      → Now old id failed ms es os (suc tick) (mark_failed env id w).1
  unfolding mark_failed
  mark_failed-Now w live h =
      (exec-Now (Change.mark_failed id) failed w (mark_failed-Sets id) (unfold from_status in live)
        h).2

  pub get_by_id-Now :
      (w : World Body) {n : Notification}
      → find_row id w.tables.notifications ≡ some n
      → Now old id s ms es os tick w
      → ((get_by_id env id w).0 ≡ ok n) × Now old id s ms es os (suc tick) (get_by_id env id w).1
  unfolding get_by_id
  get_by_id-Now w e h = rw (q.works w.tick) (
    read_row id (arrive env w)
        (ap (λ (v : World Body). find_row id v.tables.notifications) (arrive_quiet env q w) ∙ e),
    arrive-Now env q w h,
  )
