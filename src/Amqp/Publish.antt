-- ===== src/Amqp/Publish.antt =====
-- The envelope, and the message that `PublishNotification` of internal/amqp/amqp.go sends. JSON, the
-- text form of a UUID and the trace headers are parameters.
use notify_stream.Prelude.{
  ℕ, Option, none, some, List, [], ◌∷◌, Str, codes, is_empty, if◌then◌else◌, ◌>>=◌,
}
use notify_stream.Domain.Types.{Priority, Notification, normal, queue_priority}
use notify_stream.Amqp.Headers.{Table, field_string, insert}
use notify_stream.Amqp.Topology.{routing_key}

pub record Envelope : Type 0 where
  pub id : Str
  pub recipient : Str
  pub channel : Str
  pub content : Option Str
  pub template_id : Option Str
  pub payload : Str
  pub priority : Str
  pub correlation_id : Option Str

-- What the code calls of encoding/json on envelopes and of github.com/google/uuid. `Body` is the
-- bytes of a message.
pub record Wire : Type 1 where
  pub Body : Type 0
  pub marshal : Envelope → Option Body
  pub unmarshal : Body → Option Envelope
  pub uuid_string : ℕ → Str
  pub parse_uuid : Str → Option ℕ

pub record Message (Body : Type 0) : Type 0 where
  pub routing_key : Str
  pub body : Body
  pub priority : ℕ
  pub headers : Table

unfoldable pub or_normal : Priority → Priority
or_normal p = if is_empty p then normal else p

-- `if n.CorrelationID != nil && *n.CorrelationID != ""`
unfoldable pub correlation_headers : Option Str → Table → Table
correlation_headers none h = h
correlation_headers (some c) h =
    if is_empty c then h else insert (codes "correlation_id") (field_string c) h

-- `for k, v := range mc`
unfoldable pub add_trace : List (Str × Str) → Table → Table
add_trace [] h = h
add_trace ((k, v) ∷ mc) h = add_trace mc (insert k (field_string v) h)

module _ (wire : Wire) where
  unfoldable pub envelope_of : Notification → Envelope
  unfolding or_normal
  envelope_of n = record {
    id = wire.uuid_string n.id;
    recipient = n.recipient;
    channel = n.channel;
    content = n.content;
    template_id = elim n.template_id [ none ↦ none | some t ↦ some (wire.uuid_string t) ];
    payload = n.payload;
    priority = or_normal n.priority;
    correlation_id = n.correlation_id;
  }

  -- `mc` is what the propagator injects; `none` is a failed `json.Marshal`.
  unfoldable pub message_of : List (Str × Str) → Notification → Option (Message wire.Body)
  unfolding envelope_of correlation_headers add_trace or_normal
  message_of mc n = do
    body ← wire.marshal (envelope_of n)
    some (record {
      routing_key = routing_key n.channel (or_normal n.priority);
      body = body;
      priority = queue_priority (or_normal n.priority);
      headers = add_trace mc (correlation_headers n.correlation_id []);
    })
