-- ===== src/Worker/Handle/Chain.antt =====
-- A delivery and the deliveries that are published again for it, one after the other.
use notify_stream.Prelude.{
  ℕ, zero, suc, ◌+◌, ◌-◌, none, Bool-cases, is_empty, trim_space, codes, ◌≤◌, ◌<◌, ◌≡◌, ◌⊎◌, refl,
  sym, ap, ◌∙◌, true, false, Option, some, List, [], ◌∷◌, ◌++◌, Str, arith, inl, inr, append-nil,
  length, length-append, is_blank,
}
use notify_stream.Prelude.Int.{pos}
use notify_stream.Domain.Types.{Notification, Status, sending, delivered, failed, status_eq}
use notify_stream.Domain.Template.{Json}
use notify_stream.Amqp.Headers.{lookup, Table, retry_count, clone_headers}
use notify_stream.Amqp.Headers.Retry.{retry_count-clone_headers, republish_headers_lem}
use notify_stream.Amqp.Publish.{Envelope, Wire, Message}
use notify_stream.Db.Tables.{find_row, status_in}
use notify_stream.Db.Change.{is_live}
use notify_stream.Db.Change.Constant.{core, run-HasCore}
use notify_stream.Delivery.Outbound.{Outbound}
use notify_stream.Worker.Handle.Quiet.{event_of}
use notify_stream.World.{Turn, World, Result}
use notify_stream.World.Quiet.{IsQuiet}
use notify_stream.Worker.Envelope.{enrich_envelope, set_correlation, header_text}
use notify_stream.Domain.Validate.{has_content}
use notify_stream.Worker.Handle.{handle_delivery}
use notify_stream.Worker.Handle.Evolves.{handle_delivery-Evolves}
use notify_stream.Worker.Handle.Fate.{
  Fate, delivers, fails, retries, fate, next_delivery, status_after,
}
use notify_stream.Worker.Handle.Outcome.{Ends}
use notify_stream.Worker.Handle.Contract.{find_row-status, content_request, handle_delivery-Ends}

-- What is behind the first `k` elements.
abbrev pub drop : {A : Type 0} → ℕ → List A → List A
drop zero xs = xs
drop (suc k) [] = []
drop (suc k) (x ∷ xs) = drop k xs

drop-length : {A : Type 0} (xs ys : List A) → drop (length xs) (xs ++ ys) ≡ ys
drop-length [] ys = refl
drop-length (x ∷ xs) ys = drop-length xs ys

abbrev pub again :
    {Body : Type 0}
    → List (Message Body)
    → (Message Body → World Body → World Body)
    → World Body
    → World Body
again [] more w = w
again (m ∷ ms) more w = more m w

module _ (wire : Wire) (json : Json) (env : ℕ → Turn) where
  -- The worker handles a delivery, and then the message that it published for it, if it did; `fuel`
  -- deliveries at most.
  unfoldable pub handle_all : ℕ → Message wire.Body → World wire.Body → World wire.Body
  unfolding handle_delivery
  handle_all zero d w = w
  handle_all (suc fuel) d w =
      let w' = (handle_delivery wire json env d w).1 in
      again (drop (length w.published) w'.published) (handle_all fuel) w'

set_correlation_id : (o : Option Str) (e : Envelope) → (set_correlation o e).id ≡ e.id
unfolding set_correlation
set_correlation_id none e = refl
set_correlation_id (some t) e = elim (Bool-cases (is_empty (trim_space t))) [
  | inl empty ↦ rw empty refl
  | inr full ↦ rw full refl
]

pub enrich_id : (e : Envelope) (h : Table) → (enrich_envelope e h).id ≡ e.id
unfolding enrich_envelope set_correlation
enrich_id e h = elim (Bool-cases (has_content e.correlation_id)) [
  | inl own ↦ rw own refl
  | inr other ↦ rw other (set_correlation_id (header_text (lookup (codes "correlation_id") h)) e)
]

pub fate_retries : (code n : ℕ) → fate code (pos n) ≡ retries → n < 5
unfolding fate
fate_retries code n h = ground arith

pub next_count :
    {Body : Type 0} (d : Message Body) (n : ℕ)
    → retry_count d.headers ≡ pos n
    → n < 5
    → retry_count (next_delivery d).headers ≡ pos (n + 1)
next_count d n e h =
    (republish_headers_lem (clone_headers d.headers) n (retry_count-clone_headers d.headers ∙ e)
      (omega arith)).0

-- The row is delivered or failed, at most `k` requests were made, and one status event was sent.
pub record IsOver {Body : Type 0} (id k : ℕ) (w w' : World Body) : Type 0 where
  pub outcome :
      (s : Status) × (status_in id w'.tables.notifications ≡ some s)
      × ((s ≡ delivered) ⊎ (s ≡ failed))
  pub posts : length w'.posts ≤ length w.posts + k
  pub events : length w'.events ≡ length w.events + 1

-- The messages behind those that were there.
pub new_messages : {A : Type 0} (old new xs : List A) → new ≡ old ++ xs → drop (length old) new ≡ xs
new_messages old new xs e = ap (drop (length old)) e ∙ drop-length old xs

pub longer :
    {A : Type 0} (old new : List A) (x : A) → new ≡ old ++ x ∷ [] → length new ≡ length old + 1
longer old new x e = omega (arith, ap length e, length-append old (x ∷ []))

pub status_live : (s : Status) → some s ≡ some sending → is_live s ≡ true
unfolding status_eq
status_live s e = ground arith

-- What the next delivery needs of the row.
pub content_kept :
    (m n : Notification) {c : Str} → core m ≡ core n → n.content ≡ some c → m.content ≡ some c
content_kept m n e f = ap (λ u. u.content) e ∙ f

module _ {Body : Type 0} {id : ℕ} where
  -- A delivery that ends without another one.
  last_one :
      (s : Status) (n : ℕ) (m : Notification) (d : Message Body)
      (more : Message Body → World Body → World Body) (w w' : World Body) (o : Outbound)
      → n ≤ 5
      → (s ≡ delivered) ⊎ (s ≡ failed)
      → status_in id w'.tables.notifications ≡ some s
      → w'.published ≡ w.published ++ []
      → w'.events ≡ w.events ++ event_of m s ∷ []
      → w'.posts ≡ w.posts ++ o ∷ []
      → IsOver id (6 - n) w (again (drop (length w.published) w'.published) more w')
  last_one s n m d more w w' o few end st sent ev po =
      rw (new_messages w.published w'.published [] sent) (record {
        outcome = (s, st, end);
        posts = omega (arith, longer w.posts w'.posts o po);
        events = longer w.events w'.events (event_of m s) ev;
      })

  settled_or_again :
      (f : Fate) (n : ℕ) (m : Notification) (d : Message Body)
      (more : Message Body → World Body → World Body) (w w' : World Body) (o : Outbound)
      (r : Result (Unit {0}))
      → n ≤ 5
      → Ends d w.tables.notifications id m f w.published w.events (w.posts ++ o ∷ []) r w'
      → (f ≡ retries → (n < 5) × IsOver id (6 - (n + 1)) w' (more (next_delivery d) w'))
      → IsOver id (6 - n) w (again (drop (length w.published) w'.published) more w')
  settled_or_again delivers n m d more w w' o r few h next =
      last_one delivered n m d more w w' o few (inl refl) h.status h.published h.events h.posts
  settled_or_again fails n m d more w w' o r few h next =
      last_one failed n m d more w w' o few (inr refl) h.status h.published h.events h.posts
  settled_or_again retries n m d more w w' o r few h next =
      let (room, over) = next refl in
      rw (new_messages w.published w'.published (next_delivery d ∷ []) h.published) (record {
        outcome = over.outcome;
        posts = omega (arith, over.posts, longer w.posts w'.posts o h.posts);
        events = over.events ∙ ap (λ es. length es + 1) (h.events ∙ append-nil w.events);
      })

module _ (wire : Wire) (json : Json) (env : ℕ → Turn) (q : IsQuiet env) {id : ℕ} {e : Envelope}
    {c : Str} (parsed : wire.parse_uuid e.id ≡ some id) (text : is_blank c ≡ false) where
  -- In a quiet environment, a delivery with `n` retries, five at most, of a pending, queued or sending
  -- row that has a content of its own, and the messages that are published again for it, come to an end
  -- within `6 - n` deliveries, whatever the provider answers: the row is delivered or failed, the
  -- provider was asked `6 - n` times at most, and one status event was sent.
  pub handle_all-IsOver :
      (fuel n : ℕ) (d : Message wire.Body) (w : World wire.Body) {m : Notification}
      → n ≤ 5
      → 6 ≤ n + fuel
      → retry_count d.headers ≡ pos n
      → wire.unmarshal d.body ≡ some e
      → find_row id w.tables.notifications ≡ some m
      → is_live m.status ≡ true
      → m.content ≡ some c
      → IsOver id (6 - n) w (handle_all wire json env fuel d w)
  unfolding handle_all
  handle_all-IsOver zero n d w few enough count body row live content = absurd (omega arith)
  handle_all-IsOver (suc fuel) n d w {m} few enough count body row live content =
      let w' : World wire.Body = (handle_delivery wire json env d w).1 in
      let code : ℕ = (env (suc (suc (suc w.tick)))).reply.code in
      let same : wire.parse_uuid (enrich_envelope e d.headers).id ≡ some id =
        ap wire.parse_uuid (enrich_id e d.headers) ∙ parsed in
      let ends = handle_delivery-Ends wire json env q d w body same row live content text in
      let ev = handle_delivery-Evolves wire json env d w in
      let (m', row', core') = run-HasCore ev.statements w.tables id row in
      let here : find_row id w'.tables.notifications ≡ some m' =
        ap (λ t. find_row id t.notifications) ev.tables_run ∙ row' in
      settled_or_again (fate code (retry_count d.headers)) n m d (handle_all wire json env fuel) w
        w' (content_request (enrich_envelope e d.headers) c) (handle_delivery wire json env d w).0
        few ends
        (λ f.
          let room : n < 5 = fate_retries code n (ap (fate code) (sym count) ∙ f) in
          (
            room,
            handle_all-IsOver fuel (n + 1) (next_delivery d) w' (omega arith) (omega arith)
                (next_count d n count room) body here
                (status_live m'.status (
                  sym (find_row-status id w'.tables.notifications here)
                  ∙ ends.status
                  ∙ ap (λ g. some (status_after g)) f))
                (content_kept m' m core' content),
          ))
