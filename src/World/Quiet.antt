-- ===== src/World/Quiet.antt =====
-- An environment in which nothing fails and nobody else acts, and what is known of a world in it.
use notify_stream.Prelude.{ℕ, suc, ◌≡◌, ◌≢◌, ap, false, some, List, []}
use notify_stream.Domain.Types.{Notification, Status}
use notify_stream.Amqp.Publish.{Message}
use notify_stream.Delivery.Outbound.{Outbound}
use notify_stream.Db.Tables.{Tables, find_row, status_in}
use notify_stream.Db.Change.{run}
use notify_stream.World.{fine, Turn, Event, World, arrive, ask_done}

pub record IsQuiet (env : ℕ → Turn) : Type 0 where
  pub works : (t : ℕ) → (env t).fault ≡ fine
  pub alone : (t : ℕ) → (env t).others ≡ []
  pub running : (t : ℕ) → (env t).done ≡ false

-- The status of one row, everything sent so far, and the turn; the other rows are those of `old`.
pub record Now {Body : Type 0} (old : List Notification) (id : ℕ) (s : Status)
    (ms : List (Message Body)) (es : List Event) (os : List Outbound) (t : ℕ) (w : World Body)
    : Type 0 where
  pub status : status_in id w.tables.notifications ≡ some s
  pub others : (j : ℕ) → j ≢ id → find_row j w.tables.notifications ≡ find_row j old
  pub published : w.published ≡ ms
  pub events : w.events ≡ es
  pub posts : w.posts ≡ os
  pub tick : w.tick ≡ t

module _ {Body : Type 0} (env : ℕ → Turn) (q : IsQuiet env) where
  pub arrive_quiet : (w : World Body) → arrive env w ≡ record w { tick = suc w.tick }
  unfolding arrive run
  arrive_quiet w = rw (q.alone w.tick, run)

module _ {Body : Type 0} (env : ℕ → Turn) (q : IsQuiet env) {old : List Notification} {id : ℕ}
    {s : Status} {ms : List (Message Body)} {es : List Event} {os : List Outbound} {t : ℕ} where
  pub arrive-Now :
      (w : World Body) → Now old id s ms es os t w → Now old id s ms es os (suc t) (arrive env w)
  arrive-Now w h = rw (arrive_quiet env q w) (record {
    status = h.status;
    others = h.others;
    published = h.published;
    events = h.events;
    posts = h.posts;
    tick = ap suc h.tick;
  })

  pub ask_done-Now :
      (w : World Body)
      → Now old id s ms es os t w
      → ((ask_done env w).0 ≡ false) × Now old id s ms es os (suc t) (ask_done env w).1
  unfolding ask_done
  ask_done-Now w h = (q.running w.tick, arrive-Now w h)

-- Where nobody else acts, a call finds the tables as they were.
pub arrive_alone :
    {Body : Type 0} (env : ℕ → Turn)
    → ((t : ℕ) → (env t).others ≡ [])
    → (w : World Body) {db : Tables} → w.tables ≡ db
    → (arrive env w).tables ≡ db
unfolding arrive run
arrive_alone env alone w h = rw (alone w.tick, run) h
