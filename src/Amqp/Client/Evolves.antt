-- ===== src/Amqp/Client/Evolves.antt =====
-- The publishing methods on a world.
use notify_stream.Prelude.{ℕ, Option, none, some, List, Str}
use notify_stream.Domain.Types.{Notification}
use notify_stream.Amqp.Headers.{republish_headers}
use notify_stream.Amqp.Publish.{Wire, Message, message_of}
use notify_stream.World.{Fault, fine, lost_before, lost_after, refused, Turn, Event, World, arrive}
use notify_stream.World.Evolves.{
  Evolves, Evolves-refl, Evolves-message, Evolves-event, Evolves-quiet, arrive-Evolves,
}
use notify_stream.Amqp.Client.{
  send, send_event, publish, publish_status, republish_delivery, publish_marshalled,
  publish_notification,
}

module _ {Body : Type 0} where
  send-Evolves : (f : Fault) (m : Message Body) (w : World Body) → Evolves 0 w (send f m w).1
  unfolding send
  send-Evolves fine m w = Evolves-message w m
  send-Evolves lost_before m w = Evolves-refl w
  send-Evolves lost_after m w = Evolves-message w m
  send-Evolves refused m w = Evolves-refl w

  send_event-Evolves : (f : Fault) (e : Event) (w : World Body) → Evolves 0 w (send_event f e w).1
  unfolding send_event
  send_event-Evolves fine e w = Evolves-event w e
  send_event-Evolves lost_before e w = Evolves-refl w
  send_event-Evolves lost_after e w = Evolves-event w e
  send_event-Evolves refused e w = Evolves-refl w

module _ {Body : Type 0} (env : ℕ → Turn) where
  pub publish-Evolves : (m : Message Body) (w : World Body) → Evolves 0 w (publish env m w).1
  unfolding publish
  publish-Evolves m w =
      Evolves-quiet (arrive-Evolves env w) (send-Evolves (env w.tick).fault m (arrive env w))

  pub publish_status-Evolves : (e : Event) (w : World Body) → Evolves 0 w (publish_status env e w).1
  unfolding publish_status
  publish_status-Evolves e w =
      Evolves-quiet (arrive-Evolves env w) (send_event-Evolves (env w.tick).fault e (arrive env w))

  pub republish_delivery-Evolves :
      (d : Message Body) (w : World Body) → Evolves 0 w (republish_delivery env d w).1
  unfolding republish_delivery
  republish_delivery-Evolves d w =
      publish-Evolves (record d { headers = republish_headers d.headers }) w

  publish_marshalled-Evolves :
      (m : Option (Message Body)) (w : World Body) → Evolves 0 w (publish_marshalled env m w).1
  unfolding publish_marshalled
  publish_marshalled-Evolves none w = Evolves-refl w
  publish_marshalled-Evolves (some m) w = publish-Evolves m w

pub publish_notification-Evolves :
    (wire : Wire) (env : ℕ → Turn) (mc : List (Str × Str)) (n : Notification) (w : World wire.Body)
    → Evolves 0 w (publish_notification wire env mc n w).1
unfolding publish_notification
publish_notification-Evolves wire env mc n w =
    publish_marshalled-Evolves env (message_of wire mc n) w
