-- ===== src/Flow/Tickets.antt =====
-- The rows that a request made, and their messages as they wait for the workers.
use notify_stream.Prelude.{
  ℕ, ◌*◌, ◌≡◌, ◌≢◌, refl, ap, ◌∙◌, none, some, List, [], ◌∷◌, ◌++◌, Str, All, All-map, length, map,
  arith, ◌==◌, if◌then◌else◌,
}
use notify_stream.Prelude.Pick.{Lacks, IsDistinct, sum_of}
use notify_stream.Domain.Types.{Notification}
use notify_stream.Amqp.Headers.{header_retry}
use notify_stream.Amqp.Publish.{Wire, Envelope, Message, message_of, envelope_of}
use notify_stream.Amqp.Trace.Carried.{injected}
use notify_stream.Db.Tables.{Tables, find_row}
use notify_stream.Api.Create.Rows.{IsMade}
use notify_stream.Api.Create.Sent.{IsDue, IsQueued}
use notify_stream.Flow.Message.{new_count, marshalled}
use notify_stream.Worker.Queue.Drained.{Ticket, IsReady, left_of}

pub made-IsDue :
    (db : Tables) (ns : List Notification)
    → All IsMade ns
    → All (λ n. find_row n.id db.notifications ≡ some n) ns
    → All (IsDue db) ns
made-IsDue db [] m f = tt
made-IsDue db (n ∷ ns) (p, m) (e, f) =
    (record { row = e; status = p.status; at = p.at }, made-IsDue db ns m f)

module _ (wire : Wire) (mc : List (Str × Str))
    (total : (n : Notification) → (m : Message wire.Body) × (message_of wire mc n ≡ some m)) where
  -- The message of a notification, before its first delivery.
  abbrev pub ticket : Notification → Ticket wire.Body
  ticket n = record { message = (total n).0; id = n.id; retries = 0 }

  pub ticket-Lacks :
      (k : ℕ) (ns : List Notification)
      → Lacks (λ n. n.id) k ns
      → Lacks (λ t. t.id) k (map ticket ns)
  ticket-Lacks k ns l = All-map (λ (t : Ticket wire.Body). t.id ≢ k) ticket ns l

  pub ticket-IsDistinct :
      (ns : List Notification) → IsDistinct (λ n. n.id) ns → IsDistinct (λ t. t.id) (map ticket ns)
  ticket-IsDistinct [] d = tt
  ticket-IsDistinct (n ∷ ns) (absent, d) = (ticket-Lacks n.id ns absent, ticket-IsDistinct ns d)

  pub six_each : (ns : List Notification) → sum_of left_of (map ticket ns) ≡ 6 * length ns
  six_each [] = refl
  six_each (n ∷ ns) = omega (arith, six_each ns)

  module _
      (read_back : (e : Envelope) (b : wire.Body)
        → wire.marshal e ≡ some b
        → wire.unmarshal b ≡ some e)
      (uuid_back : (id : ℕ) → wire.parse_uuid (wire.uuid_string id) ≡ some id)
      (fresh_count : injected header_retry mc ≡ none) where
    pub tickets_ready :
        (db : Tables) (ns : List Notification)
        → All IsMade ns
        → All (IsQueued db) ns
        → All (IsReady wire db) (map ticket ns)
    unfolding envelope_of
    tickets_ready db [] m h = tt
    tickets_ready db (n ∷ ns) (p, ms) ((m, row, live, same), h) = (
      record {
        envelope = envelope_of wire n;
        row = m;
        text = p.text;
        few = omega arith;
        count = new_count wire mc n (total n).1 fresh_count;
        body = read_back (envelope_of wire n) (total n).0.body (marshalled wire mc n (total n).1);
        parsed = uuid_back n.id;
        here = row;
        live = live;
        content = same ∙ p.content;
        ink = p.ink;
      },
      tickets_ready db ns ms h,
    )

pub find_before :
    (j : ℕ) (ns rows : List Notification)
    → Lacks (λ n. n.id) j rows
    → find_row j (ns ++ rows) ≡ find_row j ns
unfolding find_row
find_before j [] [] l = refl
find_before j [] (r ∷ rows) (ne, l) = ground (arith, find_before j [] rows l)
find_before j (n ∷ ns) rows l = ap (λ o. if n.id == j then some n else o) (find_before j ns rows l)
