-- ===== src/Delivery/Outbound.antt =====
-- `OutboundBody` of internal/delivery/delivery.go, and the request that carries it.
use notify_stream.Prelude.{Option, none, some, Str, is_empty, if◌then◌else◌}
use notify_stream.Amqp.Publish.{Envelope}

-- The JSON body, and the header `X-Request-ID`.
pub record Outbound : Type 0 where
  pub to : Str
  pub channel : Str
  pub content : Option Str
  pub payload : Str
  pub priority : Str
  pub request_id : Option Str

unfoldable pub non_empty : Option Str → Option Str
non_empty none = none
non_empty (some s) = if is_empty s then none else some s

unfoldable pub outbound_of : Envelope → Outbound
unfolding non_empty
outbound_of env = record {
  to = env.recipient;
  channel = env.channel;
  content = env.content;
  payload = env.payload;
  priority = env.priority;
  request_id = non_empty env.correlation_id;
}
