-- ===== src/Tests/Fixtures.antt =====
-- A wire format whose bodies are the envelopes themselves, JSON objects read from a fixed text, a quiet
-- environment, and a database with one queued notification.
use notify_stream.Prelude.{ℕ, ◌+◌, refl, false, Option, none, some, List, [], ◌∷◌, Str, codes}
use notify_stream.Domain.Types.{Notification, Status, queued, delivered, sms, high}
use notify_stream.Domain.Template.{Json, Value}
use notify_stream.Amqp.Headers.{Table, field_int32, header_retry}
use notify_stream.Amqp.Publish.{Envelope, Wire, Message}
use notify_stream.Prelude.Int.{pos}
use notify_stream.Db.Tables.{Tables}
use notify_stream.World.{fine, Turn, World}
use notify_stream.World.Quiet.{IsQuiet}

abbrev pub parse_one : Str → Option ℕ
parse_one (n ∷ []) = some n
parse_one _ = none

abbrev pub plain_wire : Wire
plain_wire = record {
  Body = Envelope;
  marshal = λ e. some e;
  unmarshal = λ e. some e;
  uuid_string = λ n. n ∷ [];
  parse_uuid = parse_one;
}

abbrev pub name_object : List (Str × Value (Unit {0}) (Unit {0}))
name_object = (codes "name", Value.text (codes "Ada")) ∷ []

abbrev pub plain_json : Json
plain_json = record {
  Float = Unit;
  Compound = Unit;
  unmarshal_object = λ s. some name_object;
  sprint_float = λ f. [];
  marshal = λ c. none;
}

-- Every turn works, nobody else acts, and the provider answers 202.
abbrev pub quiet : ℕ → Turn
quiet t = record {
  fault = fine;
  others = [];
  now = 1000 + t;
  uuid = 100 + t;
  done = false;
  reply = record { code = 202; message_id = some (codes "m-1") };
}

pub quiet-IsQuiet : IsQuiet quiet
quiet-IsQuiet = record { works = λ t. refl; alone = λ t. refl; running = λ t. refl }

abbrev pub row : ℕ → Status → Notification
row id s = record {
  id = id;
  batch_id = some 9;
  recipient = codes "+90555";
  channel = sms;
  content = some (codes " hello ");
  template_id = none;
  payload = [];
  priority = high;
  status = s;
  idempotency_key = some (codes "k-7");
  provider_message_id = none;
  scheduled_at = none;
  correlation_id = some (codes "c-1");
  created_at = 1;
  updated_at = 1;
}

abbrev pub tables_of : List Notification → Tables
tables_of ns = record { notifications = ns; templates = []; batches = []; outbox = [] }

abbrev pub start : World Envelope
start = record {
  tables = tables_of (row 7 queued ∷ row 8 delivered ∷ []);
  published = [];
  events = [];
  posts = [];
  tick = 0;
}

abbrev pub envelope : Envelope
envelope = record {
  id = 7 ∷ [];
  recipient = codes "+90555";
  channel = sms;
  content = some (codes " hello ");
  template_id = none;
  payload = [];
  priority = high;
  correlation_id = none;
}

-- The delivery of row 7, retried twice before.
abbrev pub headers : Table
headers = (header_retry, field_int32 (pos 2)) ∷ []

abbrev pub delivery : Message Envelope
delivery = record {
  routing_key = codes "notify.sms.high";
  body = envelope;
  priority = 10;
  headers = headers;
}
