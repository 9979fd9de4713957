-- ===== src/Delivery/Webhook/Evolves.antt =====
-- The request to the provider on a world.
use notify_stream.Prelude.{ℕ}
use notify_stream.Amqp.Publish.{Envelope}
use notify_stream.Delivery.Outbound.{Outbound, outbound_of}
use notify_stream.World.{Fault, fine, lost_before, lost_after, refused, Reply, Turn, World, arrive}
use notify_stream.World.Evolves.{
  Evolves, Evolves-refl, Evolves-mono, Evolves-trans, Evolves-post, arrive-Evolves,
}
use notify_stream.Delivery.Webhook.{deliver, post}
use notify_stream.Prelude.{arith}

module _ {Body : Type 0} where
  deliver-Evolves :
      (f : Fault) (r : Reply) (o : Outbound) (w : World Body) → Evolves 1 w (deliver f r o w).1
  unfolding deliver
  deliver-Evolves fine r o w = Evolves-post w o
  deliver-Evolves lost_before r o w = Evolves-mono (omega arith) (Evolves-refl w)
  deliver-Evolves lost_after r o w = Evolves-post w o
  deliver-Evolves refused r o w = Evolves-mono (omega arith) (Evolves-refl w)

module _ {Body : Type 0} (env : ℕ → Turn) where
  pub post-Evolves : (e : Envelope) (w : World Body) → Evolves 1 w (post env e w).1
  unfolding post
  post-Evolves e w =
      let t = env w.tick in
      Evolves-mono (omega arith) (
        Evolves-trans (arrive-Evolves env w)
          (deliver-Evolves t.fault t.reply (outbound_of e) (arrive env w)))
