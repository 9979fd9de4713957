-- ===== src/Api/Response.antt =====
-- `NotificationResponse` and `toNotificationJSON` of internal/api/handlers.go.
use notify_stream.Prelude.{ℕ, Bool, Option, [], Str, is_empty, if◌then◌else◌}
use notify_stream.Db.Listing.{status_text}
use notify_stream.Domain.Types.{Notification, Channel, Priority}

-- A payload that is left out is `[]`.
pub record NotificationResponse : Type 0 where
  pub id : ℕ
  pub batch_id : Option ℕ
  pub recipient : Str
  pub channel : Channel
  pub content : Option Str
  pub template_id : Option ℕ
  pub payload : Str
  pub priority : Priority
  pub status : Str
  pub idempotency_key : Option Str
  pub provider_message_id : Option Str
  pub scheduled_at : Option ℕ
  pub correlation_id : Option Str
  pub created_at : ℕ
  pub updated_at : ℕ
  pub inserted : Bool

unfoldable pub to_notification_json : Notification × Bool → NotificationResponse
unfolding status_text
to_notification_json (n, inserted) = record {
  id = n.id;
  batch_id = n.batch_id;
  recipient = n.recipient;
  channel = n.channel;
  content = n.content;
  template_id = n.template_id;
  payload = if is_empty n.payload then [] else n.payload;
  priority = n.priority;
  status = status_text n.status;
  idempotency_key = n.idempotency_key;
  provider_message_id = n.provider_message_id;
  scheduled_at = n.scheduled_at;
  correlation_id = n.correlation_id;
  created_at = n.created_at;
  updated_at = n.updated_at;
  inserted = inserted;
}
