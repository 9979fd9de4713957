-- ===== src/Worker/Queue.antt =====
-- The messages that wait for the workers, and the loop of `Consume` of internal/amqp/amqp.go, which calls
-- `handleDelivery` of cmd/worker/main.go for one after the other. The broker chooses the next message.
-- What the handler publishes again waits behind the others, and so does what the broker gets back.
pub mod Drained
pub mod Finite
use notify_stream.Prelude.{ℕ, zero, suc, Bool, true, false, List, [], ◌∷◌, ◌++◌, length}
use notify_stream.Prelude.Pick.{pick}
use notify_stream.Domain.Template.{Json}
use notify_stream.Amqp.Client.Consume.{Verdict, acked, requeued, dropped, verdict, ack_lost}
use notify_stream.Amqp.Publish.{Wire, Message}
use notify_stream.Worker.Handle.{handle_delivery}
use notify_stream.Worker.Handle.Chain.{drop}
use notify_stream.World.{Turn, World, M, arrive, ask_done}

-- What the broker has back: a delivery that is requeued, or whose acknowledgement is lost.
unfoldable pub given_back : {Body : Type 0} → Message Body → Verdict → Bool → List (Message Body)
given_back d requeued lost = d ∷ []
given_back d acked true = d ∷ []
given_back d acked false = []
given_back d dropped lost = []

module _ (wire : Wire) (json : Json) (env : ℕ → Turn) where
  -- A delivery, unless the context is done, and its `Ack` or `Nack`.
  unfoldable pub take_one : Message wire.Body → Bool → M wire.Body (List (Message wire.Body))
  unfolding handle_delivery verdict ack_lost given_back arrive
  take_one d true w = (d ∷ [], w)
  take_one d false w =
      let (r, w') = handle_delivery wire json env d w in
      (given_back d (verdict r) (ack_lost (verdict r) (env w'.tick).fault), arrive env w')

  unfoldable pub serve_one : Message wire.Body → M wire.Body (List (Message wire.Body))
  unfolding take_one ask_done
  serve_one d w = let (over, w') = ask_done env w in take_one d over w'

module _ (wire : Wire) (json : Json) (env : ℕ → Turn) (order : ℕ → ℕ) where
  -- At most `fuel` deliveries; what still waits, and the world. `order` gives for a turn the place of
  -- the message that is delivered then.
  unfoldable pub work :
      ℕ → List (Message wire.Body) → World wire.Body → List (Message wire.Body) × World wire.Body
  unfolding pick serve_one
  work zero ds w = (ds, w)
  work (suc fuel) [] w = ([], w)
  work (suc fuel) (d ∷ ds) w =
      let (next, rest) = pick (order w.tick) d ds in
      let (back, w') = serve_one wire json env next w in
      work fuel (rest ++ (back ++ drop (length w.published) w'.published)) w'
