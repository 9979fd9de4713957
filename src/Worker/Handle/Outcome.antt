-- ===== src/Worker/Handle/Outcome.antt =====
-- What becomes of a delivery when nothing fails and nobody interferes, told by the provider's answer.
use notify_stream.Prelude.{
  ℕ, ◌≡◌, ◌≢◌, refl, sym, ◌∙◌, true, Option, some, List, ◌++◌, Str, append-nil, inl, inr,
  Bool-cases, if◌then◌else◌,
}
use notify_stream.Prelude.Int.{pos, ltb_ℤ}
use notify_stream.Domain.Types.{Notification, sending, delivered, status_eq}
use notify_stream.Amqp.Headers.{retry_count}
use notify_stream.Amqp.Publish.{Message}
use notify_stream.Amqp.Client.{republish_delivery}
use notify_stream.Db.Tables.{find_row, status_in}
use notify_stream.Db.Change.{is_live}
use notify_stream.Delivery.Outbound.{Outbound, non_empty}
use notify_stream.Delivery.Webhook.{classify, is_permanent, is_transient}
use notify_stream.World.{Reply, Turn, Event, World, Result, ok, err, transient, permanent, ask_done}
use notify_stream.World.Quiet.{IsQuiet, Now, ask_done-Now}
use notify_stream.Worker.Handle.{
  give_up, completed, mark_delivered_with_retry, republished, backed_off, answered,
}
use notify_stream.Worker.Handle.Quiet.{
  publish-Now, emit_status-Now, give_up-Now, mark_delivered_with_retry-Now,
}
use notify_stream.Worker.Handle.Fate.{
  Fate, delivers, fails, retries, fate, status_after, events_after, next_delivery, messages_after,
  is_good, is_client, classify_good, fate_good, classify_client, fate_client, classify_other,
  fate_other,
}

module _ {Body : Type 0} where
  -- The handler acknowledges, and the row, the messages and the events are those of the fate;
  -- the other rows are those of `old`.
  pub record Ends (d : Message Body) (old : List Notification) (id : ℕ) (n : Notification)
      (f : Fate) (ms : List (Message Body)) (es : List Event) (os : List Outbound)
      (r : Result (Unit {0})) (w : World Body) : Type 0 where
    pub acknowledged : r ≡ ok tt
    pub status : status_in id w.tables.notifications ≡ some (status_after f)
    pub others : (j : ℕ) → j ≢ id → find_row j w.tables.notifications ≡ find_row j old
    pub published : w.published ≡ ms ++ messages_after d f
    pub events : w.events ≡ es ++ events_after n f
    pub posts : w.posts ≡ os

sending_live : is_live sending ≡ true
unfolding status_eq
sending_live = refl

module _ {Body : Type 0} (env : ℕ → Turn) (q : IsQuiet env) {old : List Notification} {id : ℕ}
    {ms : List (Message Body)} {es : List Event} {os : List Outbound} {tick : ℕ} where
  give_up-Ends :
      (d : Message Body) (n : Notification) (w : World Body)
      → Now old id sending ms es os tick w
      → Ends d old id n fails ms es os (give_up env id n w).0 (give_up env id n w).1
  give_up-Ends d n w h =
      let (r, now) = give_up-Now env q n w sending_live h in
      record {
        acknowledged = r;
        status = now.status;
        others = now.others;
        published = now.published ∙ sym (append-nil ms);
        events = now.events;
        posts = now.posts;
      }

  delivers-Ends :
      (d : Message Body) (n : Notification) (mid : Option Str) (w : World Body)
      → Now old id sending ms es os tick w
      → Ends d old id n delivers ms es os
          (answered env d id n (ok mid) w).0
          (answered env d id n (ok mid) w).1
  unfolding answered completed
  delivers-Ends d n mid w h =
      let (r, now) = mark_delivered_with_retry-Now env q mid w refl h in
      let w1 : World Body = (mark_delivered_with_retry env id mid w).1 in
      let now' = emit_status-Now env q n delivered w1 now in
      rw (r, completed)
        (record {
          acknowledged = refl;
          status = now'.status;
          others = now'.others;
          published = now'.published ∙ sym (append-nil ms);
          events = now'.events;
          posts = now'.posts;
        })

  retries-Ends :
      (d : Message Body) (n : Notification) (w : World Body)
      → Now old id sending ms es os tick w
      → let (over, w1) = ask_done env w in
        Ends d old id n retries ms es os
          (backed_off env d id over w1).0
          (backed_off env d id over w1).1
  unfolding backed_off republished republish_delivery
  retries-Ends d n w h =
      let (go, now) = ask_done-Now env q w h in
      let w1 : World Body = (ask_done env w).1 in
      let (r, now') = publish-Now env q (next_delivery d) w1 now in
      rw (go, backed_off)
        (rw (r, republished)
          (record {
            acknowledged = refl;
            status = now'.status;
            others = now'.others;
            published = now'.published;
            events = now'.events ∙ sym (append-nil es);
            posts = now'.posts;
          }))

  retry_or_fail-Ends :
      (d : Message Body) (n : Notification) (rep : Reply) (w : World Body)
      → classify rep ≡ err transient
      → fate rep.code (retry_count d.headers)
        ≡ (if ltb_ℤ (retry_count d.headers) (pos 5) then retries else fails)
      → Now old id sending ms es os tick w
      → Ends d old id n
          (fate rep.code (retry_count d.headers))
          ms
          es
          os
          (answered env d id n (classify rep) w).0
          (answered env d id n (classify rep) w).1
  unfolding answered is_permanent is_transient
  retry_or_fail-Ends d n rep w e f h = elim (Bool-cases (ltb_ℤ (retry_count d.headers) (pos 5))) [
    | inl more ↦ rw (e, f, more) (retries-Ends d n w h)
    | inr spent ↦ rw (e, f, spent) (give_up-Ends d n w h)
  ]

  fails-Ends :
      (d : Message Body) (n : Notification) (w : World Body)
      → Now old id sending ms es os tick w
      → Ends d old id n fails ms es os
          (answered env d id n (err permanent) w).0
          (answered env d id n (err permanent) w).1
  unfolding answered is_permanent
  fails-Ends d n w h = give_up-Ends d n w h

  pub answered-Ends :
      (d : Message Body) (n : Notification) (rep : Reply) (w : World Body)
      → Now old id sending ms es os tick w
      → Ends d old id n
          (fate rep.code (retry_count d.headers))
          ms
          es
          os
          (answered env d id n (classify rep) w).0
          (answered env d id n (classify rep) w).1
  answered-Ends d n rep w h = elim (Bool-cases (is_good rep.code)) [
    | inl good ↦
        rw (classify_good rep good, fate_good rep.code (retry_count d.headers) good)
          (delivers-Ends d n (non_empty rep.message_id) w h)
    | inr bad ↦ elim (Bool-cases (is_client rep.code)) [
      | inl client ↦
          rw
            (
              classify_client rep bad client,
              fate_client rep.code (retry_count d.headers) bad client,
            )
            (fails-Ends d n w h)
      | inr other ↦
          retry_or_fail-Ends d n rep w (classify_other rep bad other)
            (fate_other rep.code (retry_count d.headers) bad other) h
    ]
  ]
