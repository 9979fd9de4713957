-- ===== src/Domain/Types.antt =====
-- internal/domain/channel.go, template.go and the types of notification.go. `Channel` and `Priority`
-- are Go strings with named constants, so a value read from JSON may be any text. `Status` is only
-- ever one of its constants: the column has an enumeration type. Identifiers and times are numbers;
-- a nil `[]byte` and an empty one are not told apart by the program, and both are `[]`.
use notify_stream.Prelude.{ℕ, Bool, true, false, ◌||◌, Option, Str, codes, str_eq, if◌then◌else◌}

abbrev pub Channel : Type 0
Channel = Str

abbrev pub sms : Channel
sms = codes "sms"

abbrev pub email : Channel
email = codes "email"

abbrev pub push : Channel
push = codes "push"

abbrev pub Priority : Type 0
Priority = Str

abbrev pub high : Priority
high = codes "high"

abbrev pub normal : Priority
normal = codes "normal"

abbrev pub low : Priority
low = codes "low"

pub data Status : Type 0 where
  pending queued sending delivered failed cancelled : Status

-- `==` on statuses.
unfoldable pub status_eq : Status → Status → Bool
status_eq Status.pending Status.pending = true
status_eq Status.queued Status.queued = true
status_eq Status.sending Status.sending = true
status_eq Status.delivered Status.delivered = true
status_eq Status.failed Status.failed = true
status_eq Status.cancelled Status.cancelled = true
status_eq _ _ = false

pub record Notification : Type 0 where
  pub id : ℕ
  pub batch_id : Option ℕ
  pub recipient : Str
  pub channel : Channel
  pub content : Option Str
  pub template_id : Option ℕ
  pub payload : Str
  pub priority : Priority
  pub status : Status
  pub idempotency_key : Option Str
  pub provider_message_id : Option Str
  pub scheduled_at : Option ℕ
  pub correlation_id : Option Str
  pub created_at : ℕ
  pub updated_at : ℕ

pub record CreateItem : Type 0 where
  pub recipient : Str
  pub channel : Channel
  pub content : Option Str
  pub template_id : Option ℕ
  pub payload : Str
  pub priority : Priority
  pub idempotency_key : Option Str
  pub scheduled_at : Option ℕ

pub record Template : Type 0 where
  pub id : ℕ
  pub name : Str
  pub body : Str
  pub channel : Channel
  pub variables_schema : Str
  pub created_at : ℕ
  pub updated_at : ℕ

-- The three constants of each `switch`.
unfoldable pub is_channel : Channel → Bool
is_channel c = str_eq c sms || str_eq c email || str_eq c push

unfoldable pub is_priority : Priority → Bool
is_priority p = str_eq p high || str_eq p normal || str_eq p low

-- `QueuePriority`.
unfoldable pub queue_priority : Priority → ℕ
queue_priority p = if str_eq p high then 10 else if str_eq p low then 1 else 5
