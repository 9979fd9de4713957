-- ===== src/Worker/Handle/Quiet.antt =====
-- The stages of the handler in a quiet environment.
use notify_stream.Prelude.{ℕ, suc, ◌≡◌, refl, ap, ◌∙◌, true, Option, List, [], ◌∷◌, ◌++◌, Str}
use notify_stream.Domain.Types.{Notification, Status, sending, delivered, failed}
use notify_stream.Amqp.Publish.{Envelope, Message}
use notify_stream.Amqp.Client.{publish, publish_status, send, send_event}
use notify_stream.Db.Store.{mark_failed}
use notify_stream.Db.Change.{is_live}
use notify_stream.Db.Store.Quiet.{mark_delivered-Now, mark_failed-Now}
use notify_stream.Delivery.Outbound.{Outbound, non_empty, outbound_of}
use notify_stream.Delivery.Webhook.{classify, deliver, post}
use notify_stream.World.{Reply, Turn, Event, World, ok, ask_done, arrive, fine}
use notify_stream.World.Quiet.{IsQuiet, Now, arrive-Now, ask_done-Now}
use notify_stream.Worker.Handle.{
  waited, wait_limit, emit_status, deliver_attempts, attempt, after_attempt,
  mark_delivered_with_retry, give_up,
}

-- The event that `emitStatus` publishes.
unfoldable pub event_of : Notification → Status → Event
event_of n s = record {
  notification_id = n.id;
  status = s;
  batch_id = n.batch_id;
  correlation_id = non_empty n.correlation_id;
}

module _ {Body : Type 0} {old : List Notification} {id : ℕ} {s : Status} {ms : List (Message Body)}
    {es : List Event} {os : List Outbound} {tick : ℕ} where
  deliver_fine :
      (r : Reply) (o : Outbound) (w : World Body)
      → Now old id s ms es os tick w
      → ((deliver fine r o w).0 ≡ classify r)
        × Now old id s ms es (os ++ o ∷ []) tick (deliver fine r o w).1
  unfolding deliver
  deliver_fine r o w h = (
    refl,
    record {
      status = h.status;
      others = h.others;
      published = h.published;
      events = h.events;
      posts = ap (λ l. l ++ o ∷ []) h.posts;
      tick = h.tick;
    },
  )

  send_fine :
      (m : Message Body) (w : World Body)
      → Now old id s ms es os tick w
      → ((send fine m w).0 ≡ ok tt) × Now old id s (ms ++ m ∷ []) es os tick (send fine m w).1
  unfolding send
  send_fine m w h = (
    refl,
    record {
      status = h.status;
      others = h.others;
      published = ap (λ l. l ++ m ∷ []) h.published;
      events = h.events;
      posts = h.posts;
      tick = h.tick;
    },
  )

  send_event_fine :
      (e : Event) (w : World Body)
      → Now old id s ms es os tick w
      → Now old id s ms (es ++ e ∷ []) os tick (send_event fine e w).1
  unfolding send_event
  send_event_fine e w h = record {
    status = h.status;
    others = h.others;
    published = h.published;
    events = ap (λ l. l ++ e ∷ []) h.events;
    posts = h.posts;
    tick = h.tick;
  }

module _ {Body : Type 0} (env : ℕ → Turn) (q : IsQuiet env) {old : List Notification} {id : ℕ}
    {s : Status} {ms : List (Message Body)} {es : List Event} {os : List Outbound} {tick : ℕ} where
  pub post-Now :
      (e : Envelope) (w : World Body)
      → Now old id s ms es os tick w
      → ((post env e w).0 ≡ classify (env tick).reply)
        × Now old id s ms es (os ++ outbound_of e ∷ []) (suc tick) (post env e w).1
  unfolding post
  post-Now e w h = rw (q.works w.tick) (
      let (r, now) =
        deliver_fine (env w.tick).reply (outbound_of e) (arrive env w) (arrive-Now env q w h) in
      (r ∙ ap (λ t. classify (env t).reply) h.tick, now))

  pub publish-Now :
      (m : Message Body) (w : World Body)
      → Now old id s ms es os tick w
      → ((publish env m w).0 ≡ ok tt)
        × Now old id s (ms ++ m ∷ []) es os (suc tick) (publish env m w).1
  unfolding publish
  publish-Now m w h = rw (q.works w.tick) (send_fine m (arrive env w) (arrive-Now env q w h))

  pub emit_status-Now :
      (n : Notification) (t : Status) (w : World Body)
      → Now old id s ms es os tick w
      → Now old id s ms (es ++ event_of n t ∷ []) os (suc tick) (emit_status env n t w).1
  unfolding emit_status publish_status event_of
  emit_status-Now n t w h =
      rw (q.works w.tick) (send_event_fine (event_of n t) (arrive env w) (arrive-Now env q w h))

  pub wait_limit-Now :
      (w : World Body)
      → Now old id s ms es os tick w
      → ((wait_limit env w).0 ≡ ok tt) × Now old id s ms es os (suc tick) (wait_limit env w).1
  unfolding wait_limit waited
  wait_limit-Now w h = (rw (q.works w.tick, waited), arrive-Now env q w h)

module _ {Body : Type 0} (env : ℕ → Turn) (q : IsQuiet env) {old : List Notification} {id : ℕ}
    {s : Status} {ms : List (Message Body)} {es : List Event} {os : List Outbound} {tick : ℕ} where
  pub give_up-Now :
      (n : Notification) (w : World Body)
      → is_live s ≡ true
      → Now old id s ms es os tick w
      → ((give_up env id n w).0 ≡ ok tt)
        × Now old id failed ms
            (es ++ event_of n failed ∷ [])
            os
            (suc (suc tick))
            (give_up env id n w).1
  unfolding give_up
  give_up-Now n w live h = (
    refl,
    emit_status-Now env q n failed (mark_failed env id w).1 (mark_failed-Now env q w live h),
  )

  -- The first attempt succeeds.
  pub mark_delivered_with_retry-Now :
      (mid : Option Str) (w : World Body)
      → s ≡ sending
      → Now old id s ms es os tick w
      → ((mark_delivered_with_retry env id mid w).0 ≡ ok tt)
        × Now old id delivered ms es os (suc (suc tick)) (mark_delivered_with_retry env id mid w).1
  unfolding mark_delivered_with_retry deliver_attempts attempt after_attempt
  mark_delivered_with_retry-Now mid w e h =
      let (run, now) = ask_done-Now env q w h in
      let (r, now') = mark_delivered-Now env q mid (ask_done env w).1 e now in
      rw (run, attempt) (rw (r, after_attempt) (refl, now'))
