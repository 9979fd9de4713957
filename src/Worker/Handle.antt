-- ===== src/Worker/Handle.antt =====
-- `handleDelivery` of cmd/worker/main.go, with `markDeliveredWithRetry`, `revertSendingAndRequeue`,
-- `pauseBeforeRequeue` and `emitStatus`. Each function is a stretch of the handler up to the next call
-- that can go wrong. Logging and metrics are left out. The rate limiter is asked through an interface:
-- here a turn, whose fault says whether `Wait` returned an error.
pub mod Evolves
pub mod Quiet
pub mod Fate
pub mod Outcome
pub mod Contract
pub mod Finished
pub mod Chain
pub mod Lost
use notify_stream.Prelude.{
  ℕ, zero, suc, ◌+◌, leb, not, Bool, true, false, ◌||◌, Option, none, some, List, if◌then◌else◌,
}
use notify_stream.Prelude.Int.{pos, ltb_ℤ}
use notify_stream.Domain.Types.{
  Notification, Status, pending, queued, sending, delivered, failed, cancelled, status_eq,
}
use notify_stream.Domain.Template.{Json}
use notify_stream.Amqp.Headers.{retry_count, clone_headers}
use notify_stream.Amqp.Publish.{Envelope, Wire, Message}
use notify_stream.Amqp.Client.{publish_status, republish_delivery}
use notify_stream.Db.Store.{
  get_by_id, mark_sending, mark_delivered, mark_failed, release_sending_to_queued,
}
use notify_stream.Delivery.Outbound.{non_empty}
use notify_stream.Delivery.Webhook.{is_permanent, is_transient, post}
use notify_stream.World.{
  Fault, fine, lost_before, lost_after, refused, Turn, Event, World, Error, requeue, bad_message,
  context_done, Result, ok, err, M, pure, ◌>>=◌, ◌>>◌, arrive, ask_done,
}
use notify_stream.Worker.Timing.{
  max_webhook_retries, delivered_attempts, delivered_wait, delivered_deadline,
}
use notify_stream.Worker.Envelope.{enrich_envelope, build_outbound_envelope}

unfoldable pub waited : Fault → Result (Unit {0})
waited fine = ok tt
waited lost_before = err context_done
waited lost_after = err context_done
waited refused = err context_done

module _ {Body : Type 0} (env : ℕ → Turn) where
  -- `lim.Wait`
  unfoldable pub wait_limit : M Body (Result (Unit {0}))
  unfolding waited arrive
  wait_limit w = (waited (env w.tick).fault, arrive env w)

  -- A failed publication is only logged.
  unfoldable pub emit_status : Notification → Status → M Body (Unit {0})
  unfolding publish_status non_empty
  emit_status n s = do
    publish_status env (record {
      notification_id = n.id;
      status = s;
      batch_id = n.batch_id;
      correlation_id = non_empty n.correlation_id;
    })
    pure tt

  -- The wait is cut short when the context is done.
  unfoldable pub pause_before_requeue : M Body (Unit {0})
  unfolding ask_done
  pause_before_requeue = do ask_done env; pure tt

  -- A failed release is only logged.
  unfoldable pub revert_sending_and_requeue : ℕ → M Body (Result (Unit {0}))
  unfolding pause_before_requeue release_sending_to_queued
  revert_sending_and_requeue id = do
    pause_before_requeue
    release_sending_to_queued env id
    pure (err requeue)

  -- After attempt `i`; `left` are the attempts behind it, and `rest` makes them, told for how long the
  -- loop has waited. The wait is cut short when the context is done; it is counted as none then.
  unfoldable pub after_attempt :
      ℕ → ℕ → Result (Unit {0}) → (ℕ → M Body (Result (Unit {0}))) → M Body (Result (Unit {0}))
  unfolding ask_done delivered_wait
  after_attempt left i (ok _) rest = pure (ok tt)
  after_attempt zero i (err e) rest = pure (err e)
  after_attempt (suc left) i (err e) rest = do
    over ← ask_done env
    rest (if over then 0 else delivered_wait i)

  -- One round of the loop, with the answer of `mdCtx.Err()`.
  unfoldable pub attempt :
      ℕ
      → ℕ
      → ℕ
      → Option (List ℕ)
      → (ℕ → M Body (Result (Unit {0})))
      → Bool
      → M Body (Result (Unit {0}))
  unfolding after_attempt mark_delivered
  attempt left i id mid rest true = pure (err context_done)
  attempt left i id mid rest false = do r ← mark_delivered env id mid; after_attempt left i r rest

  -- The rounds from attempt `i` on, after waits of `elapsed` in all. `mdCtx` is done when the waits alone
  -- reach its timeout; what the statements take besides is told by the turn.
  unfoldable pub deliver_attempts : ℕ → ℕ → ℕ → ℕ → Option (List ℕ) → M Body (Result (Unit {0}))
  unfolding attempt ask_done
  deliver_attempts zero i elapsed id mid = pure (err context_done)
  deliver_attempts (suc left) i elapsed id mid = do
    over ← ask_done env
    attempt left i id mid (λ d. deliver_attempts left (suc i) (elapsed + d) id mid)
        (over || leb delivered_deadline elapsed)

  unfoldable pub mark_delivered_with_retry : ℕ → Option (List ℕ) → M Body (Result (Unit {0}))
  unfolding deliver_attempts
  mark_delivered_with_retry id mid = deliver_attempts delivered_attempts 0 0 id mid

  -- `_ = store.MarkFailed(ctx, id); emitStatus(ctx, bus, n, "failed"); return nil`
  unfoldable pub give_up : ℕ → Notification → M Body (Result (Unit {0}))
  unfolding mark_failed emit_status
  give_up id n = do mark_failed env id; emit_status n failed; pure (ok tt)

  -- After `markDeliveredWithRetry`.
  unfoldable pub completed : Notification → Result (Unit {0}) → M Body (Result (Unit {0}))
  unfolding emit_status
  completed n (ok _) = do emit_status n delivered; pure (ok tt)
  completed n (err e) = pure (err e)

  -- After `RepublishDelivery`.
  unfoldable pub republished : ℕ → Result (Unit {0}) → M Body (Result (Unit {0}))
  unfolding revert_sending_and_requeue
  republished id (ok _) = pure (ok tt)
  republished id (err e) = revert_sending_and_requeue id

  -- After the `select` that waits for the backoff.
  unfoldable pub backed_off : Message Body → ℕ → Bool → M Body (Result (Unit {0}))
  unfolding revert_sending_and_requeue republish_delivery republished
  backed_off d id true = revert_sending_and_requeue id
  backed_off d id false = do
    r ← republish_delivery env (record d { headers = clone_headers d.headers })
    republished id r

  -- After the request to the provider.
  unfoldable pub answered :
      Message Body → ℕ → Notification → Result (Option (List ℕ)) → M Body (Result (Unit {0}))
  unfolding mark_delivered_with_retry completed give_up ask_done backed_off
  answered d id n (ok mid) = do r ← mark_delivered_with_retry id mid; completed n r
  answered d id n (err e) =
      if is_permanent e
      then give_up id n
      else if not (is_transient e)
      then give_up id n
      else if not (ltb_ℤ (retry_count d.headers) (pos max_webhook_retries))
      then give_up id n
      else (do over ← ask_done env; backed_off d id over)

  -- After `MarkSending`; a conflict is only logged, with the status read back.
  unfoldable pub claimed :
      Message Body → ℕ → Notification → Envelope → Result (Unit {0}) → M Body (Result (Unit {0}))
  unfolding get_by_id post answered
  claimed d id n out (ok _) = do r ← post env out; answered d id n r
  claimed d id n out (err e) = do get_by_id env id; pure (ok tt)

  -- After `lim.Wait`.
  unfoldable pub admitted :
      Message Body → ℕ → Notification → Envelope → Result (Unit {0}) → M Body (Result (Unit {0}))
  unfolding pause_before_requeue mark_sending claimed
  admitted d id n out (ok _) = do r ← mark_sending env id; claimed d id n out r
  admitted d id n out (err e) = do pause_before_requeue; pure (err requeue)

  -- After `buildOutboundEnvelope`.
  unfoldable pub prepared :
      Message Body → ℕ → Notification → Result Envelope → M Body (Result (Unit {0}))
  unfolding give_up wait_limit admitted
  prepared d id n (ok out) = do r ← wait_limit; admitted d id n out r
  prepared d id n (err e) = if is_permanent e then give_up id n else pure (err e)

module _ (wire : Wire) (json : Json) (env : ℕ → Turn) where
  -- After `GetByID`.
  unfoldable pub looked_up :
      Message wire.Body → Envelope → ℕ → Result Notification → M wire.Body (Result (Unit {0}))
  unfolding build_outbound_envelope prepared
  looked_up d e id (err x) = pure (err x)
  looked_up d e id (ok n) =
      if status_eq n.status cancelled || status_eq n.status delivered
      then pure (ok tt)
      else if not
          (status_eq n.status pending || status_eq n.status queued || status_eq n.status sending)
      then pure (ok tt)
      else (do out ← build_outbound_envelope json env n e; prepared env d id n out)

  -- After `uuid.Parse`.
  unfoldable pub identified :
      Message wire.Body → Envelope → Option ℕ → M wire.Body (Result (Unit {0}))
  unfolding get_by_id looked_up
  identified d e none = pure (err bad_message)
  identified d e (some id) = do r ← get_by_id env id; looked_up d e id r

  -- After `json.Unmarshal`.
  unfoldable pub decoded : Message wire.Body → Option Envelope → M wire.Body (Result (Unit {0}))
  unfolding identified
  decoded d none = pure (err bad_message)
  decoded d (some e) =
      let e' = enrich_envelope e d.headers in identified d e' (wire.parse_uuid e'.id)

  unfoldable pub handle_delivery : Message wire.Body → M wire.Body (Result (Unit {0}))
  unfolding decoded
  handle_delivery d = decoded d (wire.unmarshal d.body)
