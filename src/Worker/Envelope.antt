-- ===== src/Worker/Envelope.antt =====
-- `enrichEnvelopeFromDelivery` and `buildOutboundEnvelope` of cmd/worker/main.go.
pub mod Evolves
use notify_stream.Prelude.{
  ℕ, not, Option, none, some, [], Str, codes, trim_space, is_blank, is_empty, str_eq, if◌then◌else◌,
}
use notify_stream.Domain.Types.{Notification, Template}
use notify_stream.Domain.Validate.{has_content}
use notify_stream.Domain.Template
use notify_stream.Domain.Template.{Json, Rendered, render}
use notify_stream.Amqp.Headers.{
  Field, Table, field_int32, field_int64, field_int, field_byte, field_string, field_bytes,
  field_other, lookup,
}
use notify_stream.Amqp.Publish.{Envelope}
use notify_stream.Db.Store.{get_template}
use notify_stream.World.{Turn, permanent, Result, ok, err, M, pure, ◌>>=◌}

-- The text of a header; a value of another type has none.
unfoldable pub header_text : Option Field → Option Str
header_text none = none
header_text (some (field_int32 n)) = none
header_text (some (field_int64 n)) = none
header_text (some (field_int n)) = none
header_text (some (field_byte n)) = none
header_text (some (field_string s)) = some s
header_text (some (field_bytes s)) = some s
header_text (some field_other) = none

unfoldable pub set_correlation : Option Str → Envelope → Envelope
set_correlation none env = env
set_correlation (some t) env =
    let s = trim_space t in if is_empty s then env else record env { correlation_id = some s }

-- A correlation identifier that the envelope lacks is taken from the headers.
unfoldable pub enrich_envelope : Envelope → Table → Envelope
unfolding has_content header_text set_correlation
enrich_envelope env h =
    if has_content env.correlation_id
    then env
    else set_correlation (header_text (lookup (codes "correlation_id") h)) env

-- `out`, before its content is set.
abbrev pub stripped : Envelope → Envelope
stripped env = record env { template_id = none; payload = [] }

unfoldable pub rendered_envelope : Envelope → Rendered → Result Envelope
rendered_envelope env (Template.ok text) = ok (record (stripped env) { content = some text })
rendered_envelope env (Template.err e) = err permanent

module _ (json : Json) where
  -- The envelope from a template that was read.
  unfoldable pub templated : Notification → Envelope → Result Template → Result Envelope
  unfolding rendered_envelope
  templated n env (err e) = err e
  templated n env (ok tpl) =
      if not (str_eq tpl.channel n.channel)
      then err permanent
      else rendered_envelope env (render json tpl.body n.payload)

module _ {Body : Type 0} (json : Json) (env : ℕ → Turn) where
  unfoldable pub from_template : Notification → Envelope → Option ℕ → M Body (Result Envelope)
  unfolding templated
  from_template n e none = pure (err permanent)
  from_template n e (some tid) = do tpl ← get_template env tid; pure (templated json n e tpl)

  unfoldable pub from_content : Notification → Envelope → Option Str → M Body (Result Envelope)
  unfolding from_template
  from_content n e none = from_template n e n.template_id
  from_content n e (some c) =
      if is_blank c
      then from_template n e n.template_id
      else pure (ok (record (stripped e) { content = some (trim_space c) }))

  unfoldable pub build_outbound_envelope : Notification → Envelope → M Body (Result Envelope)
  unfolding from_content
  build_outbound_envelope n e = from_content n e n.content
