-- ===== src/Tests/Values.antt =====
-- The validation, the templates, the message of a notification, the headers and the waiting times.
use notify_stream.Prelude.{
  ◌≡◌, ◌↔◌, refl, none, some, [], ◌∷◌, Str, codes, All, arith, List, if◌then◌else◌, str_eq,
  is_blank, is_space, trim_space,
}
use notify_stream.Domain.Types.{CreateItem, queued, sms, high, is_channel, is_priority}
use notify_stream.Db.Create.{row_of, is_storable, is_clean}
use notify_stream.Db.Create.Accepted.{validate_storable}
use notify_stream.Domain.Validate.{validate, content_problem}
use notify_stream.Domain.Validate.Sound.{IsAcceptable, validate_iff}
use notify_stream.Domain.Template.{
  render, ok, err, unresolved, has_var, substitute, is_pad, is_word,
}
use notify_stream.Domain.Template.Render.{
  Segment, literal, var, IsWritten, body_of, result_of, render-body_of,
}
use notify_stream.Amqp.Headers.{republish_headers, clone_headers}
use notify_stream.Amqp.Publish.{message_of, add_trace, correlation_headers}
use notify_stream.Amqp.Trace.{carrier}
use notify_stream.Amqp.Trace.Carried.{message_of-carrier}
use notify_stream.Amqp.Topology.Routing.{RoutedTo, message_of-RoutedTo}
use notify_stream.Tests.Fixtures.{plain_wire, plain_json, name_object, row}

abbrev item : CreateItem
item = record {
  recipient = codes "+90555";
  channel = sms;
  content = some (codes "hello");
  template_id = none;
  payload = [];
  priority = high;
  idempotency_key = none;
  scheduled_at = none;
}

validate_iff_example : (validate item ≡ none) ↔ IsAcceptable item
validate_iff_example = validate_iff item

-- The item with a template.
abbrev templated_item : CreateItem
templated_item = record item { content = none; template_id = some 4; payload = codes "{}" }

validate_storable_example :
    is_storable (row_of 1 2 none templated_item none)
    ≡ is_clean (row_of 1 2 none templated_item none)
unfolding validate is_blank is_space trim_space is_channel is_priority str_eq content_problem
validate_storable_example = validate_storable 1 2 none templated_item none refl

-- `Hi {{ name }}`
abbrev segments : List Segment
segments = literal (codes "Hi ") ∷ var (codes " ") (codes "name") (codes " ") ∷ []

segments-IsWritten : All IsWritten segments
unfolding is_pad is_word
segments-IsWritten = (
  (grind arith, (grind arith, (grind arith, tt))),
  (((refl, tt), (refl, (refl, (refl, (refl, tt)))), grind arith, (refl, tt)), tt),
)

render-body_of_example : render plain_json (body_of segments) (codes "{}") ≡ (
    let out = result_of (substitute plain_json name_object) segments in
    if has_var out then err unresolved else ok out)
render-body_of_example =
    render-body_of plain_json segments (codes "{}") segments-IsWritten tt (grind arith) refl

message_of-RoutedTo_example : RoutedTo sms (codes "notify.sms.high")
unfolding is_channel str_eq is_priority message_of
message_of-RoutedTo_example = message_of-RoutedTo plain_wire [] (row 7 queued) refl refl refl

abbrev trace : List (Str × Str)
trace = (codes "traceparent", codes "00-1-2-01") ∷ []

message_of-carrier_example :
    let h = add_trace trace (correlation_headers (row 7 queued).correlation_id []) in
    (carrier h (codes "traceparent") ≡ some (codes "00-1-2-01"))
    × (carrier (republish_headers (clone_headers h)) (codes "traceparent")
        ≡ some (codes "00-1-2-01"))
unfolding message_of str_eq
message_of-carrier_example =
    message_of-carrier plain_wire trace (row 7 queued) (codes "traceparent") (codes "00-1-2-01")
      (refl, tt) refl (λ e. cc) refl
