-- ===== src/Amqp/Client.antt =====
-- The publishing methods of `Client` and its consumer loop, internal/amqp/amqp.go. A client without a
-- channel fails like a broker that refuses the message.
pub mod Consume
pub mod Evolves
use notify_stream.Prelude.{ℕ, Option, none, some, List, [], ◌∷◌, ◌++◌, Str}
use notify_stream.Domain.Types.{Notification}
use notify_stream.Amqp.Headers.{Table, republish_headers}
use notify_stream.Amqp.Publish.{Wire, Message, message_of}
use notify_stream.World.{
  Fault, fine, lost_before, lost_after, refused, Turn, Event, World, Error, amqp_error, bad_message,
  Result, ok, err, M, pure, arrive,
}

module _ {Body : Type 0} where
  unfoldable pub send : Fault → Message Body → M Body (Result (Unit {0}))
  send fine m w = (ok tt, record w { published = w.published ++ m ∷ [] })
  send lost_before m w = (err amqp_error, w)
  send lost_after m w = (err amqp_error, record w { published = w.published ++ m ∷ [] })
  send refused m w = (err amqp_error, w)

  unfoldable pub send_event : Fault → Event → M Body (Result (Unit {0}))
  send_event fine e w = (ok tt, record w { events = w.events ++ e ∷ [] })
  send_event lost_before e w = (err amqp_error, w)
  send_event lost_after e w = (err amqp_error, record w { events = w.events ++ e ∷ [] })
  send_event refused e w = (err amqp_error, w)

module _ {Body : Type 0} (env : ℕ → Turn) where
  -- `ch.PublishWithContext` on the topic exchange.
  unfoldable pub publish : Message Body → M Body (Result (Unit {0}))
  unfolding send arrive
  publish m w = send (env w.tick).fault m (arrive env w)

  unfoldable pub publish_status : Event → M Body (Result (Unit {0}))
  unfolding send_event arrive
  publish_status e w = send_event (env w.tick).fault e (arrive env w)

  -- The priority and the body are those of the delivery; the retry count is the next one.
  unfoldable pub republish_delivery : Message Body → M Body (Result (Unit {0}))
  unfolding publish
  republish_delivery d = publish (record d { headers = republish_headers d.headers })

  -- A failed `json.Marshal` sends nothing.
  unfoldable pub publish_marshalled : Option (Message Body) → M Body (Result (Unit {0}))
  unfolding publish
  publish_marshalled none = pure (err bad_message)
  publish_marshalled (some m) = publish m

unfoldable pub publish_notification :
    (wire : Wire) → (ℕ → Turn) → List (Str × Str) → Notification → M wire.Body (Result (Unit {0}))
unfolding publish_marshalled
publish_notification wire env mc n = publish_marshalled env (message_of wire mc n)
