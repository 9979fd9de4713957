-- ===== src/Worker/Handle/Evolves.antt =====
-- A delivery sends one request to the provider at most, and writes the tables by statements alone.
use notify_stream.Prelude.{
  ℕ, zero, suc, ◌+◌, leb, Bool, true, false, Option, none, some, Str, arith, not, ◌||◌,
  if◌then◌else◌,
}
use notify_stream.Domain.Types.{
  Notification, Status, failed, delivered, pending, queued, sending, cancelled, status_eq,
}
use notify_stream.Domain.Template.{Json}
use notify_stream.Amqp.Headers.{clone_headers, retry_count}
use notify_stream.Prelude.Int.{pos, ltb_ℤ}
use notify_stream.Worker.Timing.{max_webhook_retries, delivered_deadline}
use notify_stream.Amqp.Publish.{Envelope, Wire, Message}
use notify_stream.Amqp.Client.{republish_delivery}
use notify_stream.Amqp.Client.Evolves.{publish_status-Evolves, republish_delivery-Evolves}
use notify_stream.Db.Store.{get_by_id, mark_sending, mark_delivered, mark_failed}
use notify_stream.Db.Store.Evolves.{
  get_by_id-Evolves, mark_sending-Evolves, mark_delivered-Evolves, mark_failed-Evolves,
  release-Evolves,
}
use notify_stream.Delivery.Webhook.{is_permanent, is_transient, post}
use notify_stream.Delivery.Webhook.Evolves.{post-Evolves}
use notify_stream.World.{Turn, World, Result, ok, err, M, pure, ◌>>=◌, ask_done}
use notify_stream.World.Evolves.{
  Evolves, Evolves-refl, Evolves-trans, Evolves-quiet, Evolves-mono, Evolves-if, arrive-Evolves,
  ask_done-Evolves,
}
use notify_stream.Worker.Envelope.{enrich_envelope, build_outbound_envelope}
use notify_stream.Worker.Envelope.Evolves.{build-Evolves}
use notify_stream.Worker.Handle.{
  wait_limit, emit_status, pause_before_requeue, revert_sending_and_requeue, after_attempt, attempt,
  deliver_attempts, mark_delivered_with_retry, give_up, completed, republished, backed_off,
  answered, claimed, admitted, prepared, looked_up, identified, decoded, handle_delivery,
}

module _ {Body : Type 0} (env : ℕ → Turn) where
  wait_limit-Evolves : (w : World Body) → Evolves 0 w (wait_limit env w).1
  unfolding wait_limit
  wait_limit-Evolves w = arrive-Evolves env w

  emit_status-Evolves :
      (n : Notification) (s : Status) (w : World Body) → Evolves 0 w (emit_status env n s w).1
  unfolding emit_status
  emit_status-Evolves n s w = publish_status-Evolves env _ w

  pause-Evolves : (w : World Body) → Evolves 0 w (pause_before_requeue env w).1
  unfolding pause_before_requeue
  pause-Evolves w = ask_done-Evolves env w

  revert-Evolves : (id : ℕ) (w : World Body) → Evolves 0 w (revert_sending_and_requeue env id w).1
  unfolding revert_sending_and_requeue
  revert-Evolves id w =
      Evolves-quiet (pause-Evolves w) (release-Evolves env id (pause_before_requeue env w).1)

  give_up-Evolves :
      (id : ℕ) (n : Notification) (w : World Body) → Evolves 0 w (give_up env id n w).1
  unfolding give_up
  give_up-Evolves id n w =
      Evolves-quiet (mark_failed-Evolves env id w)
        (emit_status-Evolves n failed (mark_failed env id w).1)

  after_attempt-Evolves :
      (left i : ℕ) (r : Result (Unit {0})) (rest : ℕ → M Body (Result (Unit {0})))
      → ((d : ℕ) (w : World Body) → Evolves 0 w (rest d w).1)
      → (w : World Body) → Evolves 0 w (after_attempt env left i r rest w).1
  unfolding after_attempt
  after_attempt-Evolves left i (ok _) rest h w = Evolves-refl w
  after_attempt-Evolves zero i (err e) rest h w = Evolves-refl w
  after_attempt-Evolves (suc left) i (err e) rest h w =
      Evolves-quiet (ask_done-Evolves env w) (h _ (ask_done env w).1)

  attempt-Evolves :
      (left i id : ℕ) (mid : Option Str) (rest : ℕ → M Body (Result (Unit {0}))) (over : Bool)
      → ((d : ℕ) (w : World Body) → Evolves 0 w (rest d w).1)
      → (w : World Body) → Evolves 0 w (attempt env left i id mid rest over w).1
  unfolding attempt
  attempt-Evolves left i id mid rest true h w = Evolves-refl w
  attempt-Evolves left i id mid rest false h w =
      let (r, w') = mark_delivered env id mid w in
      Evolves-quiet (mark_delivered-Evolves env id mid w) (after_attempt-Evolves left i r rest h w')

  deliver_attempts-Evolves :
      (left i elapsed id : ℕ) (mid : Option Str) (w : World Body)
      → Evolves 0 w (deliver_attempts env left i elapsed id mid w).1
  unfolding deliver_attempts
  deliver_attempts-Evolves zero i elapsed id mid w = Evolves-refl w
  deliver_attempts-Evolves (suc left) i elapsed id mid w =
      let (over, w') = ask_done env w in
      Evolves-quiet (ask_done-Evolves env w) (
        attempt-Evolves left i id mid (λ d. deliver_attempts env left (suc i) (elapsed + d) id mid)
          (over || leb delivered_deadline elapsed)
          (λ d. deliver_attempts-Evolves left (suc i) (elapsed + d) id mid) w')

  mark_delivered_with_retry-Evolves :
      (id : ℕ) (mid : Option Str) (w : World Body)
      → Evolves 0 w (mark_delivered_with_retry env id mid w).1
  unfolding mark_delivered_with_retry
  mark_delivered_with_retry-Evolves id mid w = deliver_attempts-Evolves 30 0 0 id mid w

  completed-Evolves :
      (n : Notification) (r : Result (Unit {0})) (w : World Body)
      → Evolves 0 w (completed env n r w).1
  unfolding completed
  completed-Evolves n (ok _) w = emit_status-Evolves n delivered w
  completed-Evolves n (err e) w = Evolves-refl w

  republished-Evolves :
      (id : ℕ) (r : Result (Unit {0})) (w : World Body) → Evolves 0 w (republished env id r w).1
  unfolding republished
  republished-Evolves id (ok _) w = Evolves-refl w
  republished-Evolves id (err e) w = revert-Evolves id w

  backed_off-Evolves :
      (d : Message Body) (id : ℕ) (over : Bool) (w : World Body)
      → Evolves 0 w (backed_off env d id over w).1
  unfolding backed_off
  backed_off-Evolves d id true w = revert-Evolves id w
  backed_off-Evolves d id false w =
      let d' : Message Body = record d { headers = clone_headers d.headers } in
      Evolves-quiet (republish_delivery-Evolves env d' w)
        (republished-Evolves id (republish_delivery env d' w).0 (republish_delivery env d' w).1)

  back_off-Evolves :
      (d : Message Body) (id : ℕ) (w : World Body)
      → Evolves 0 w (backed_off env d id (ask_done env w).0 (ask_done env w).1).1
  back_off-Evolves d id w =
      Evolves-quiet (ask_done-Evolves env w)
        (backed_off-Evolves d id (ask_done env w).0 (ask_done env w).1)

  answered-Evolves :
      (d : Message Body) (id : ℕ) (n : Notification) (r : Result (Option Str)) (w : World Body)
      → Evolves 0 w (answered env d id n r w).1
  unfolding answered
  answered-Evolves d id n (ok mid) w = Evolves-quiet (mark_delivered_with_retry-Evolves id mid w) (
      completed-Evolves n (mark_delivered_with_retry env id mid w).0
        (mark_delivered_with_retry env id mid w).1)
  answered-Evolves d id n (err e) w =
      let stop = give_up-Evolves id n w in
      let retry : M Body (Result (Unit {0})) =
        (ask_done env >>= λ over. backed_off env d id over) in
      let tail : M Body (Result (Unit {0})) =
        if not (ltb_ℤ (retry_count d.headers) (pos max_webhook_retries))
        then give_up env id n
        else retry in
      Evolves-if (is_permanent e) (give_up env id n)
        (if not (is_transient e) then give_up env id n else tail) w stop
        (Evolves-if (not (is_transient e)) (give_up env id n) tail w stop (
          Evolves-if (not (ltb_ℤ (retry_count d.headers) (pos max_webhook_retries)))
            (give_up env id n) retry w stop (back_off-Evolves d id w)))

  claimed-Evolves :
      (d : Message Body) (id : ℕ) (n : Notification) (out : Envelope) (r : Result (Unit {0}))
      (w : World Body)
      → Evolves 1 w (claimed env d id n out r w).1
  unfolding claimed
  claimed-Evolves d id n out (ok _) w =
      Evolves-quiet (post-Evolves env out w)
        (answered-Evolves d id n (post env out w).0 (post env out w).1)
  claimed-Evolves d id n out (err e) w = Evolves-mono (omega arith) (get_by_id-Evolves env id w)

  admitted-Evolves :
      (d : Message Body) (id : ℕ) (n : Notification) (out : Envelope) (r : Result (Unit {0}))
      (w : World Body)
      → Evolves 1 w (admitted env d id n out r w).1
  unfolding admitted
  admitted-Evolves d id n out (ok _) w =
      Evolves-trans (mark_sending-Evolves env id w)
        (claimed-Evolves d id n out (mark_sending env id w).0 (mark_sending env id w).1)
  admitted-Evolves d id n out (err e) w = Evolves-mono (omega arith) (pause-Evolves w)

  prepared-Evolves :
      (d : Message Body) (id : ℕ) (n : Notification) (r : Result Envelope) (w : World Body)
      → Evolves 1 w (prepared env d id n r w).1
  unfolding prepared
  prepared-Evolves d id n (ok out) w =
      Evolves-trans (wait_limit-Evolves w)
        (admitted-Evolves d id n out (wait_limit env w).0 (wait_limit env w).1)
  prepared-Evolves d id n (err e) w =
      Evolves-if (is_permanent e) (give_up env id n) (pure (err e)) w
        (Evolves-mono (omega arith) (give_up-Evolves id n w))
        (Evolves-mono (omega arith) (Evolves-refl w))

module _ (wire : Wire) (json : Json) (env : ℕ → Turn) where
  looked_up-Evolves :
      (d : Message wire.Body) (e : Envelope) (id : ℕ) (r : Result Notification)
      (w : World wire.Body)
      → Evolves 1 w (looked_up wire json env d e id r w).1
  unfolding looked_up
  looked_up-Evolves d e id (err x) w = Evolves-mono (omega arith) (Evolves-refl w)
  looked_up-Evolves d e id (ok n) w =
      let rest : M wire.Body (Result (Unit {0})) =
        (build_outbound_envelope json env n e >>= λ out. prepared env d id n out) in
      let skip = Evolves-mono {k = 0} {l = 1} (omega arith) (Evolves-refl w) in
      Evolves-if (status_eq n.status cancelled || status_eq n.status delivered) (pure (ok tt)) _ w
        skip
        (Evolves-if
          (not
            (status_eq n.status pending || status_eq n.status queued || status_eq n.status sending))
          (pure (ok tt)) rest w skip
          (Evolves-trans (build-Evolves json env n e w) (
            prepared-Evolves env d id n (build_outbound_envelope json env n e w).0
              (build_outbound_envelope json env n e w).1)))

  identified-Evolves :
      (d : Message wire.Body) (e : Envelope) (i : Option ℕ) (w : World wire.Body)
      → Evolves 1 w (identified wire json env d e i w).1
  unfolding identified
  identified-Evolves d e none w = Evolves-mono (omega arith) (Evolves-refl w)
  identified-Evolves d e (some id) w =
      let (r, w') = get_by_id env id w in
      Evolves-trans (get_by_id-Evolves env id w) (looked_up-Evolves d e id r w')

  decoded-Evolves :
      (d : Message wire.Body) (o : Option Envelope) (w : World wire.Body)
      → Evolves 1 w (decoded wire json env d o w).1
  unfolding decoded
  decoded-Evolves d none w = Evolves-mono (omega arith) (Evolves-refl w)
  decoded-Evolves d (some e) w =
      let e' = enrich_envelope e d.headers in identified-Evolves d e' (wire.parse_uuid e'.id) w

  -- Whatever the other processes do and whatever fails, a delivery changes the tables only by the
  -- statements of the store, takes nothing back that was sent, and makes one request at most.
  pub handle_delivery-Evolves :
      (d : Message wire.Body) (w : World wire.Body)
      → Evolves 1 w (handle_delivery wire json env d w).1
  unfolding handle_delivery
  handle_delivery-Evolves d w = decoded-Evolves d (wire.unmarshal d.body) w
