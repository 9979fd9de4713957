-- ===== src/Api/Create/Sent.antt =====
-- The publication of the items of a request, when nothing fails and nobody interferes.
use notify_stream.Prelude.{
  ℕ, suc, ◌≡◌, ◌≢◌, refl, ap, ◌∙◌, sym, true, none, some, List, [], ◌∷◌, ◌++◌, Str, All, append-nil,
  append_assoc, map,
}
use notify_stream.Prelude.Pick.{Lacks, IsDistinct}
use notify_stream.Domain.Types.{Notification, pending, queued}
use notify_stream.Amqp.Publish.{Wire, Message, message_of}
use notify_stream.Db.Tables.{Tables, find_row}
use notify_stream.Db.Change.{Change, apply, update_by, is_live}
use notify_stream.Db.Change.Hit.{update_row_other}
use notify_stream.Db.Claims.Quiet.{queued_at}
use notify_stream.Api.Create.{Item, publish_all}
use notify_stream.Api.Create.Quiet.{sent_world, publish_item_quiet}
use notify_stream.Api.Create.Rows.{fresh}
use notify_stream.Flow.Message.{queued_row}
use notify_stream.Worker.Handle.Contract.{find_row-status}
use notify_stream.World.{Turn, World}
use notify_stream.World.Quiet.{IsQuiet}

-- A pending row with no time that is in the tables.
pub record IsDue (db : Tables) (n : Notification) : Type 0 where
  pub row : find_row n.id db.notifications ≡ some n
  pub status : n.status ≡ pending
  pub at : n.scheduled_at ≡ none

-- A row that a delivery may claim, with the text of `n`.
abbrev pub IsQueued : Tables → Notification → Type 0
IsQueued db n =
    (m : Notification) × (find_row n.id db.notifications ≡ some m)
    × (is_live m.status ≡ true)
    × (m.content ≡ n.content)

queued_at-other :
    (now id j : ℕ) (db : Tables)
    → j ≢ id
    → find_row j (queued_at now id db).notifications ≡ find_row j db.notifications
unfolding apply update_by
queued_at-other now id j db ne =
    update_row_other (Change.mark_queued id) now id j db.notifications ne

All-IsDue :
    (now id : ℕ) (db : Tables) (ns : List Notification)
    → Lacks (λ n. n.id) id ns
    → All (IsDue db) ns
    → All (IsDue (queued_at now id db)) ns
All-IsDue now id db [] l h = tt
All-IsDue now id db (n ∷ ns) (ne, l) (d, h) = (
  record { row = queued_at-other now id n.id db ne ∙ d.row; status = d.status; at = d.at },
  All-IsDue now id db ns l h,
)

module _ (wire : Wire) (env : ℕ → Turn) (q : IsQuiet env) (mc : List (Str × Str))
    (total : (n : Notification) → (m : Message wire.Body) × (message_of wire mc n ≡ some m)) where
  abbrev pub message : Notification → Message wire.Body
  message n = (total n).0

  abbrev pub sent_all : List Notification → World wire.Body → World wire.Body
  sent_all [] w = w
  sent_all (n ∷ ns) w = sent_all ns (sent_world wire env q mc n (message n) w)

  abbrev pub queued_item : Notification → Item
  queued_item n = (record n { status = queued }, true)

  pub publish_all_quiet :
      (now : ℕ) (ns : List Notification) (w : World wire.Body)
      → All (IsDue w.tables) ns
      → IsDistinct (λ n. n.id) ns
      → publish_all wire env mc now (map fresh ns) w ≡ (map queued_item ns, sent_all ns w)
  unfolding publish_all
  publish_all_quiet now [] w h d = refl
  publish_all_quiet now (n ∷ ns) w (due, h) (absent, d) =
      let w1 : World wire.Body = sent_world wire env q mc n (message n) w in
      rw
        (
          publish_item_quiet wire env q mc now n w due.row
              (find_row-status n.id w.tables.notifications due.row ∙ ap some due.status) due.at
              (total n).1,
          publish_all_quiet now ns w1 (All-IsDue _ n.id w.tables ns absent h) d,
        )
        refl

  -- The messages are sent, and every row is queued; the other rows are as they were.
  pub record AreSent (ns : List Notification) (w w' : World wire.Body) : Type 0 where
    pub published : w'.published ≡ w.published ++ map message ns
    pub events : w'.events ≡ w.events
    pub posts : w'.posts ≡ w.posts
    pub others :
        (j : ℕ)
        → Lacks (λ n. n.id) j ns
        → find_row j w'.tables.notifications ≡ find_row j w.tables.notifications
    pub rows : All (IsQueued w'.tables) ns

  pub sent_all-AreSent :
      (ns : List Notification) (w : World wire.Body)
      → All (IsDue w.tables) ns
      → IsDistinct (λ n. n.id) ns
      → AreSent ns w (sent_all ns w)
  sent_all-AreSent [] w h d = record {
    published = sym (append-nil w.published);
    events = refl;
    posts = refl;
    others = λ j l. refl;
    rows = tt;
  }
  sent_all-AreSent (n ∷ ns) w (due, h) (absent, d) =
      let now : ℕ = (env (suc (suc w.tick))).now in
      let w1 : World wire.Body = sent_world wire env q mc n (message n) w in
      let s = sent_all-AreSent ns w1 (All-IsDue now n.id w.tables ns absent h) d in
      let (m, row, live, same) = queued_row now n.id w.tables due.row due.status in
      record {
        published = s.published ∙ append_assoc w.published (message n ∷ []) (map message ns);
        events = s.events;
        posts = s.posts;
        others = λ j (ne, l). s.others j l ∙ queued_at-other now n.id j w.tables (λ e. ne (sym e));
        rows = ((m, s.others n.id absent ∙ row, live, same), s.rows);
      }
