-- ===== src/Worker/Queue/Finite.antt =====
-- Whatever the order of the waiting messages, each comes to its end.
use mathlib.Core.List.{map-append}
use notify_stream.Prelude.{
  ℕ, zero, suc, ◌+◌, ◌≤◌, ◌<◌, ◌≡◌, refl, sym, ap, ◌∙◌, inl, inr, some, List, [], ◌∷◌, ◌++◌, map,
  append-nil, length, All, All-append, arith,
}
use notify_stream.Prelude.Pick.{
  pick, pick-All, sum_of, pick-sum_of, sum_of-append, pick-map, Lacks, IsDistinct, pick-IsDistinct,
  append-IsDistinct,
}
use notify_stream.Domain.Types.{Notification, delivered, failed}
use notify_stream.Domain.Template.{Json}
use notify_stream.Amqp.Client.Consume.{verdict, ack_lost}
use notify_stream.Amqp.Headers.{retry_count}
use notify_stream.Amqp.Publish.{Wire, Message}
use notify_stream.Db.Tables.{find_row}
use notify_stream.Db.Change.Constant.{run-HasCore}
use notify_stream.Delivery.Outbound.{Outbound}
use notify_stream.Worker.Envelope.{enrich_envelope}
use notify_stream.Worker.Handle.{handle_delivery}
use notify_stream.Worker.Handle.Chain.{
  drop, new_messages, longer, next_count, fate_retries, status_live, content_kept, enrich_id,
}
use notify_stream.Worker.Handle.Contract.{find_row-status, content_request, handle_delivery-Ends}
use notify_stream.Worker.Handle.Evolves.{handle_delivery-Evolves}
use notify_stream.Worker.Handle.Quiet.{event_of}
use notify_stream.Worker.Handle.Fate.{Fate, delivers, fails, retries, fate, status_after}
use notify_stream.Worker.Handle.Outcome.{Ends}
use notify_stream.Worker.Queue.{given_back, take_one, serve_one, work}
use notify_stream.Worker.Queue.Drained.{
  Ticket, IsReady, IsEnded, left_of, Drained, next_ticket, All-ready_kept, Drained-end,
  Drained-again, Drained-mono, Drained-nil, Drained-pick,
}
use notify_stream.World.{Turn, World, ok, ask_done}
use notify_stream.World.Quiet.{IsQuiet, arrive_quiet}

-- What becomes of one waiting message.
record Served (wire : Wire) (u : Ticket wire.Body) (f : Fate) (w w' : World wire.Body)
    : Type 0 where
  row : Notification
  request : Outbound
  ends :
      Ends u.message w.tables.notifications u.id row f w.published w.events
        (w.posts ++ request ∷ [])
        (ok tt)
        w'
  again : f ≡ retries → IsReady wire w'.tables (next_ticket u)

module _ (wire : Wire) (json : Json) (env : ℕ → Turn) (q : IsQuiet env) where
  -- The world in which the handler starts.
  abbrev started : World wire.Body → World wire.Body
  started w = record w { tick = suc w.tick }

  served : Message wire.Body → World wire.Body → World wire.Body
  served d w =
      let w1 = (handle_delivery wire json env d (started w)).1 in record w1 { tick = suc w1.tick }

  serve_one_quiet :
      (d : Message wire.Body) (w : World wire.Body)
      → (handle_delivery wire json env d (started w)).0 ≡ ok tt
      → serve_one wire json env d w ≡ ([], served d w)
  unfolding serve_one take_one ask_done verdict ack_lost given_back served
  serve_one_quiet d w h =
      let w1 : World wire.Body = (handle_delivery wire json env d (started w)).1 in
      rw (q.running w.tick, arrive_quiet env q w)
        (rw (h, q.works w1.tick, arrive_quiet env q w1) refl)

  serve_ready :
      (u : Ticket wire.Body) (w : World wire.Body)
      → IsReady wire w.tables u
      → (f : Fate) × ((handle_delivery wire json env u.message (started w)).0 ≡ ok tt)
        × Served wire u f w (served u.message w)
  unfolding served
  serve_ready u w h =
      let e' = enrich_envelope h.envelope u.message.headers in
      let w0 : World wire.Body = started w in
      let w1 : World wire.Body = (handle_delivery wire json env u.message w0).1 in
      let code : ℕ = (env (suc (suc (suc w0.tick)))).reply.code in
      let f : Fate = fate code (retry_count u.message.headers) in
      let ends =
        handle_delivery-Ends wire json env q u.message w0 h.body
          (ap wire.parse_uuid (enrich_id h.envelope u.message.headers) ∙ h.parsed) h.here h.live
          h.content h.ink in
      let ev = handle_delivery-Evolves wire json env u.message w0 in
      let (m', row', core') = run-HasCore ev.statements w.tables u.id h.here in
      let here : find_row u.id w1.tables.notifications ≡ some m' =
        ap (λ t. find_row u.id t.notifications) ev.tables_run ∙ row' in
      (
        f,
        ends.acknowledged,
        record {
          row = h.row;
          request = content_request e' h.text;
          ends = record {
            acknowledged = refl;
            status = ends.status;
            others = ends.others;
            published = ends.published;
            events = ends.events;
            posts = ends.posts;
          };
          again = λ r.
              let room : u.retries < 5 =
                fate_retries code u.retries (ap (fate code) (sym h.count) ∙ r) in
              record {
                envelope = h.envelope;
                row = m';
                text = h.text;
                few = omega arith;
                count = next_count u.message u.retries h.count room;
                body = h.body;
                parsed = h.parsed;
                here = here;
                live = status_live m'.status (
                    sym (find_row-status u.id w1.tables.notifications here)
                    ∙ ends.status
                    ∙ ap (λ g. some (status_after g)) r);
                content = content_kept m' h.row core' h.content;
                ink = h.ink;
              };
        },
      )

module _ (wire : Wire) (w w' : World wire.Body) (u : Ticket wire.Body)
    (us : List (Ticket wire.Body))
    (more : List (Message wire.Body) → List (Message wire.Body) × World wire.Body) (room : ℕ)
    (absent : Lacks (λ t. t.id) u.id us) (distinct : IsDistinct (λ t. t.id) us)
    (others : All (IsReady wire w.tables) us) (few : left_of u + sum_of left_of us ≤ suc room)
    (mine : u.retries ≤ 5)
    (rest : (ts : List (Ticket wire.Body))
      → All (IsReady wire w'.tables) ts
      → IsDistinct (λ t. t.id) ts
      → sum_of left_of ts ≤ room
      → Drained ts (sum_of left_of ts) w' (more (map (λ t. t.message) ts))) where
  abbrev after : List (Message wire.Body) × World wire.Body
  after = more (map (λ t. t.message) us ++ ([] ++ drop (length w.published) w'.published))

  -- The message ends, and the others are served.
  Served-last :
      (f : Fate)
      → Served wire u f w w'
      → drop (length w.published) w'.published ≡ []
      → IsEnded w'.tables u.id
      → length w'.events ≡ length w.events + 1
      → Drained (u ∷ us) (suc (sum_of left_of us)) w after
  Served-last f s none_new end told =
      rw (none_new, append-nil (map (λ t. t.message) us))
        (Drained-end u us s.ends.others (longer w.posts w'.posts s.request s.ends.posts) absent end
          told
          (rest us (All-ready_kept wire u.id w.tables w'.tables us s.ends.others absent others)
            distinct (omega arith)))

  -- The message waits again behind the others.
  Served-again :
      Served wire u retries w w'
      → Drained (u ∷ us) (suc (sum_of left_of (us ++ next_ticket u ∷ []))) w after
  Served-again s =
      let ts = us ++ next_ticket u ∷ [] in
      let again = s.again refl in
      rw (new_messages w.published w'.published _ s.ends.published) (
        rw (← map-append (λ t. t.message) us (next_ticket u ∷ [])) (
          Drained-again u us s.ends.others (longer w.posts w'.posts s.request s.ends.posts)
            (ap length (s.ends.events ∙ append-nil w.events))
            (rest ts
              (All-append (IsReady wire w'.tables) us (next_ticket u ∷ [])
                (All-ready_kept wire u.id w.tables w'.tables us s.ends.others absent others)
                (again, tt))
              (append-IsDistinct (λ t. t.id) us (next_ticket u) absent distinct)
              (omega (arith, again.few, sum_of-append left_of us (next_ticket u ∷ []))))))

  Served-on :
      (f : Fate) → Served wire u f w w' → Drained (u ∷ us) (left_of u + sum_of left_of us) w after
  Served-on delivers s = Drained-mono (u ∷ us) w after (omega arith) (
      Served-last delivers s (new_messages w.published w'.published [] s.ends.published)
        (delivered, s.ends.status, inl refl)
        (longer w.events w'.events (event_of s.row delivered) s.ends.events))
  Served-on fails s = Drained-mono (u ∷ us) w after (omega arith) (
      Served-last fails s (new_messages w.published w'.published [] s.ends.published)
        (failed, s.ends.status, inr refl)
        (longer w.events w'.events (event_of s.row failed) s.ends.events))
  Served-on retries s =
      Drained-mono (u ∷ us) w after
        (omega (arith, (s.again refl).few, sum_of-append left_of us (next_ticket u ∷ [])))
        (Served-again s)

module _ (wire : Wire) (json : Json) (env : ℕ → Turn) (q : IsQuiet env) (order : ℕ → ℕ) where
  -- In a quiet environment, let the waiting messages name different rows that are pending, queued
  -- or sending and have a text of their own, with five retries at most behind each. Then in
  -- whatever order the broker delivers them, and whatever the provider answers, as many deliveries
  -- as the messages have left, six less the retries for each, are enough: nothing waits any more,
  -- each row is delivered or failed, there were no more requests than that and as many status
  -- events as messages at first, and the other rows are as they were.
  pub work-Drained :
      (fuel : ℕ) (ts : List (Ticket wire.Body)) (w : World wire.Body)
      → All (IsReady wire w.tables) ts
      → IsDistinct (λ t. t.id) ts
      → sum_of left_of ts ≤ fuel
      → Drained ts (sum_of left_of ts) w (work wire json env order fuel (map (λ t. t.message) ts) w)
  unfolding work
  work-Drained zero [] w h d enough = Drained-nil w
  work-Drained (suc fuel) [] w h d enough = Drained-nil w
  work-Drained zero (t ∷ ts) w (r, h) d enough = absurd (omega (arith, r.few))
  work-Drained (suc fuel) (t ∷ ts) w h d enough =
      let i : ℕ = order w.tick in
      let u : Ticket wire.Body = (pick i t ts).0 in
      let us : List (Ticket wire.Body) = (pick i t ts).1 in
      let (ready, others) = pick-All (IsReady wire w.tables) i t ts h in
      let (absent, distinct) = pick-IsDistinct (λ t. t.id) i t ts d in
      let (f, good, s) = serve_ready wire json env q u w ready in
      let same = pick-sum_of left_of i t ts in
      Drained-pick i t ts w _ (
        rw (pick-map (λ t. t.message) i t ts) (
          rw (serve_one_quiet wire json env q u.message w good) (
            Served-on wire w (served wire json env q u.message w) u us
              (λ ds. work wire json env order fuel ds (served wire json env q u.message w)) fuel
              absent distinct others (omega arith) ready.few
              (λ vs h' d' e. work-Drained fuel vs (served wire json env q u.message w) h' d' e) f
              s)))
