-- ===== src/Amqp/Client/Consume.antt =====
-- The loops of `Consume` and `ConsumeStatus`, internal/amqp/amqp.go: what becomes of each delivery. The
-- deliveries come in the order of the list, which ends when the broker closes the channel.
pub mod Settled
use notify_stream.Prelude.{ℕ, Bool, true, false, List, [], ◌∷◌}
use notify_stream.Amqp.Publish.{Message}
use notify_stream.World.{
  Fault, fine, Turn, Error, requeue, amqp_error, context_done, Result, ok, err, M, pure, ◌>>=◌,
  ask_done, arrive,
}

pub data Verdict : Type 0 where
  acked requeued dropped : Verdict

-- `errors.Is(err, ErrRequeueDelivery)` decides whether the broker gets the message back.
unfoldable pub verdict : Result (Unit {0}) → Verdict
verdict (ok tt) = acked
verdict (err requeue) = requeued
verdict (err _) = dropped

-- `ConsumeStatus` gives every failed delivery back.
unfoldable pub status_verdict : Result (Unit {0}) → Verdict
status_verdict (ok tt) = acked
status_verdict (err e) = requeued

-- `d.Ack`: a failed one ends the loop.
unfoldable pub ack_lost : Verdict → Fault → Bool
ack_lost acked fine = false
ack_lost acked _ = true
ack_lost _ _ = false

module _ {Body : Type 0} (env : ℕ → Turn) (judge : Result (Unit {0}) → Verdict)
    (handler : Message Body → M Body (Result (Unit {0}))) where
  -- After `Ack` or `Nack`; `rest` takes the deliveries behind it.
  unfoldable pub settle :
      Verdict → M Body (List Verdict × Error) → Bool → M Body (List Verdict × Error)
  settle v rest true = pure (v ∷ [], amqp_error)
  settle v rest false = do r ← rest; pure (v ∷ r.0, r.1)

  unfoldable pub handled :
      M Body (List Verdict × Error) → Result (Unit {0}) → M Body (List Verdict × Error)
  unfolding settle ack_lost arrive
  handled rest r w = settle (judge r) rest (ack_lost (judge r) (env w.tick).fault) (arrive env w)

  unfoldable pub taken :
      Message Body → M Body (List Verdict × Error) → Bool → M Body (List Verdict × Error)
  unfolding handled
  taken d rest true = pure ([], context_done)
  taken d rest false = do r ← handler d; handled rest r

  -- The verdicts on the deliveries taken, and the error that the loop ends with.
  unfoldable pub consume : List (Message Body) → M Body (List Verdict × Error)
  unfolding ask_done taken
  consume [] = pure ([], amqp_error)
  consume (d ∷ ds) = do over ← ask_done env; taken d (consume ds) over
