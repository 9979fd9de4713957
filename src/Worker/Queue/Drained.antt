-- ===== src/Worker/Queue/Drained.antt =====
-- The waiting messages come to an end.
use notify_stream.Prelude.{
  ℕ, suc, ◌+◌, ◌-◌, ◌≤◌, ◌≡◌, ◌≢◌, ◌⊎◌, refl, sym, ap, ◌∙◌, inl, inr, true, false, Option, none,
  some, Bool-cases, ◌==◌, List, [], ◌∷◌, ◌++◌, Str, length, length-append, All, All-append,
  is_blank, arith,
}
use notify_stream.Prelude.Int.{pos}
use notify_stream.Prelude.Pick.{
  pick, pick-All, All-pick, All-last, length-pick, sum_of, pick-sum_of, Lacks,
}
use notify_stream.Domain.Types.{Notification, Status, delivered, failed}
use notify_stream.Amqp.Headers.{retry_count}
use notify_stream.Amqp.Publish.{Envelope, Wire, Message}
use notify_stream.Db.Tables.{Tables, find_row, status_in}
use notify_stream.Db.Change.{is_live}
use notify_stream.Worker.Handle.Fate.{next_delivery}
use notify_stream.World.{World}

-- A waiting message, the row it names, and the retries behind it.
pub record Ticket (Body : Type 0) : Type 0 where
  pub message : Message Body
  pub id : ℕ
  pub retries : ℕ

-- The message names a pending, queued or sending row that has a text of its own.
pub record IsReady (wire : Wire) (db : Tables) (t : Ticket wire.Body) : Type 0 where
  pub envelope : Envelope
  pub row : Notification
  pub text : Str
  pub few : t.retries ≤ 5
  pub count : retry_count t.message.headers ≡ pos t.retries
  pub body : wire.unmarshal t.message.body ≡ some envelope
  pub parsed : wire.parse_uuid envelope.id ≡ some t.id
  pub here : find_row t.id db.notifications ≡ some row
  pub live : is_live row.status ≡ true
  pub content : row.content ≡ some text
  pub ink : is_blank text ≡ false

abbrev pub IsEnded : Tables → ℕ → Type 0
IsEnded db id =
    (s : Status) × (status_in id db.notifications ≡ some s) × ((s ≡ delivered) ⊎ (s ≡ failed))

-- The deliveries that a message has left.
abbrev pub left_of : {Body : Type 0} → Ticket Body → ℕ
left_of t = 6 - t.retries

-- Nothing waits, each row is delivered or failed, there were at most `k` requests and as many status
-- events as messages, and the other rows are as they were.
pub record Drained {Body : Type 0} (ts : List (Ticket Body)) (k : ℕ) (w : World Body)
    (r : List (Message Body) × World Body) : Type 0 where
  pub nothing_left : r.0 ≡ []
  pub outcomes : All (λ t. IsEnded r.1.tables t.id) ts
  pub posts : length r.1.posts ≤ length w.posts + k
  pub events : length r.1.events ≡ length w.events + length ts
  pub others :
      (j : ℕ)
      → Lacks (λ t. t.id) j ts
      → find_row j r.1.tables.notifications ≡ find_row j w.tables.notifications

-- The ticket of the message that is published again.
abbrev pub next_ticket : {Body : Type 0} → Ticket Body → Ticket Body
next_ticket t = record { message = next_delivery t.message; id = t.id; retries = t.retries + 1 }

abbrev status_of : Option Notification → Option Status
status_of none = none
status_of (some n) = some n.status

status_in-find_row :
    (id : ℕ) (ns : List Notification) → status_in id ns ≡ status_of (find_row id ns)
unfolding status_in find_row
status_in-find_row id [] = refl
status_in-find_row id (n ∷ ns) = elim (Bool-cases (n.id == id)) [
  | inl here ↦ rw here refl
  | inr there ↦ rw there (status_in-find_row id ns)
]

-- A row that is as it was has ended as before.
IsEnded-kept :
    (id : ℕ) (db db' : Tables)
    → find_row id db'.notifications ≡ find_row id db.notifications
    → IsEnded db id
    → IsEnded db' id
IsEnded-kept id db db' e (s, st, end) = (
  s,
  status_in-find_row id db'.notifications
      ∙ ap status_of e
      ∙ sym (status_in-find_row id db.notifications)
      ∙ st,
  end,
)

pub ready_kept :
    (wire : Wire) (db db' : Tables) (t : Ticket wire.Body)
    → find_row t.id db'.notifications ≡ find_row t.id db.notifications
    → IsReady wire db t
    → IsReady wire db' t
ready_kept wire db db' t e h = record {
  envelope = h.envelope;
  row = h.row;
  text = h.text;
  few = h.few;
  count = h.count;
  body = h.body;
  parsed = h.parsed;
  here = e ∙ h.here;
  live = h.live;
  content = h.content;
  ink = h.ink;
}

pub All-ready_kept :
    (wire : Wire) (k : ℕ) (db db' : Tables) (ts : List (Ticket wire.Body))
    → ((j : ℕ) → j ≢ k → find_row j db'.notifications ≡ find_row j db.notifications)
    → Lacks (λ t. t.id) k ts
    → All (IsReady wire db) ts
    → All (IsReady wire db') ts
All-ready_kept wire k db db' [] same l h = tt
All-ready_kept wire k db db' (t ∷ ts) same (ne, l) (r, h) =
    (ready_kept wire db db' t (same t.id ne) r, All-ready_kept wire k db db' ts same l h)

module _ {Body : Type 0} (u : Ticket Body) (us : List (Ticket Body)) {k : ℕ} {w w' : World Body}
    {r : List (Message Body) × World Body}
    (same : (j : ℕ)
      → j ≢ u.id
      → find_row j w'.tables.notifications ≡ find_row j w.tables.notifications)
    (asked : length w'.posts ≡ length w.posts + 1) where
  -- The message is done with, and the others are drained.
  pub Drained-end :
      Lacks (λ t. t.id) u.id us
      → IsEnded w'.tables u.id
      → length w'.events ≡ length w.events + 1
      → Drained us k w' r
      → Drained (u ∷ us) (suc k) w r
  Drained-end absent end told h = record {
    nothing_left = h.nothing_left;
    outcomes = (IsEnded-kept u.id w'.tables r.1.tables (h.others u.id absent) end, h.outcomes);
    posts = omega (arith, h.posts);
    events = omega (arith, h.events);
    others = λ j (ne, l). h.others j l ∙ same j (λ e. ne (sym e));
  }

  -- The message waits again, behind the others.
  pub Drained-again :
      length w'.events ≡ length w.events
      → Drained (us ++ next_ticket u ∷ []) k w' r
      → Drained (u ∷ us) (suc k) w r
  Drained-again told h = record {
    nothing_left = h.nothing_left;
    outcomes = All-last (λ t. IsEnded r.1.tables t.id) us (next_ticket u) h.outcomes;
    posts = omega (arith, h.posts);
    events = omega (arith, h.events, length-append us (next_ticket u ∷ []));
    others = λ j (ne, l).
        h.others j (All-append (λ t. t.id ≢ j) us (next_ticket u ∷ []) l (ne, tt))
        ∙ same j (λ e. ne (sym e));
  }

module _ {Body : Type 0} (ts : List (Ticket Body)) (w : World Body)
    (r : List (Message Body) × World Body) where
  pub Drained-mono : {k l : ℕ} → k ≤ l → Drained ts k w r → Drained ts l w r
  Drained-mono le h = record {
    nothing_left = h.nothing_left;
    outcomes = h.outcomes;
    posts = omega (arith, h.posts);
    events = h.events;
    others = h.others;
  }

pub Drained-nil : {Body : Type 0} (w : World Body) → Drained [] 0 w ([], w)
Drained-nil w = record {
  nothing_left = refl;
  outcomes = tt;
  posts = omega arith;
  events = omega arith;
  others = λ j l. refl;
}

-- The order of the messages does not matter.
pub Drained-pick :
    {Body : Type 0} (i : ℕ) (t : Ticket Body) (ts : List (Ticket Body)) (w : World Body)
    (r : List (Message Body) × World Body)
    → Drained
        ((pick i t ts).0 ∷ (pick i t ts).1)
        (sum_of left_of ((pick i t ts).0 ∷ (pick i t ts).1))
        w
        r
    → Drained (t ∷ ts) (sum_of left_of (t ∷ ts)) w r
Drained-pick i t ts w r h = record {
  nothing_left = h.nothing_left;
  outcomes = All-pick (λ u. IsEnded r.1.tables u.id) i t ts h.outcomes.0 h.outcomes.1;
  posts = omega (arith, h.posts, pick-sum_of left_of i t ts);
  events = omega (arith, h.events, length-pick i t ts);
  others = λ j l. let (ne, l') = pick-All (λ u. u.id ≢ j) i t ts l in h.others j (ne, l');
}
