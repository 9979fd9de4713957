-- ===== src/Worker/Envelope/Evolves.antt =====
-- The envelope of a request on a world: it reads a template at most.
use notify_stream.Prelude.{ℕ, Option, none, some, Str, is_blank}
use notify_stream.Domain.Types.{Notification}
use notify_stream.Domain.Template.{Json}
use notify_stream.Amqp.Publish.{Envelope}
use notify_stream.Db.Store.Evolves.{get_template-Evolves}
use notify_stream.World.{Turn, World, pure}
use notify_stream.World.Evolves.{Evolves, Evolves-refl, Evolves-if}
use notify_stream.Worker.Envelope.{from_template, from_content, build_outbound_envelope}

module _ {Body : Type 0} (json : Json) (env : ℕ → Turn) where
  from_template-Evolves :
      (n : Notification) (e : Envelope) (t : Option ℕ) (w : World Body)
      → Evolves 0 w (from_template json env n e t w).1
  unfolding from_template
  from_template-Evolves n e none w = Evolves-refl w
  from_template-Evolves n e (some tid) w = get_template-Evolves env tid w

  from_content-Evolves :
      (n : Notification) (e : Envelope) (c : Option Str) (w : World Body)
      → Evolves 0 w (from_content json env n e c w).1
  unfolding from_content
  from_content-Evolves n e none w = from_template-Evolves n e n.template_id w
  from_content-Evolves n e (some c) w =
      Evolves-if (is_blank c) (from_template json env n e n.template_id) (pure _) w
        (from_template-Evolves n e n.template_id w) (Evolves-refl w)

  pub build-Evolves :
      (n : Notification) (e : Envelope) (w : World Body)
      → Evolves 0 w (build_outbound_envelope json env n e w).1
  unfolding build_outbound_envelope
  build-Evolves n e w = from_content-Evolves n e n.content w
