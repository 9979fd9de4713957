-- ===== src/Domain/Validate.antt =====
-- `ValidateCreateItem` of internal/domain/notification.go. The error is the first check that fails;
-- a message is a constructor. The proofs are in the module below.
pub mod Sound
use notify_stream.Prelude.{
  ℕ, ◌*◌, Bool, true, false, not, ◌&&◌, ◌||◌, Option, none, some, [], Str, is_empty, byte_len,
  trim_space, is_blank, str_eq, line_cut, ltb, is_some, if◌then◌else◌,
}
use notify_stream.Domain.Types.{Channel, CreateItem, sms, email, push, is_channel, is_priority}

pub data Problem : Type 0 where
  recipient_required : Problem
  invalid_channel : Problem
  invalid_priority : Problem
  body_required : Problem
  payload_required : Problem
  sms_too_long : Problem
  subject_too_long : Problem
  email_too_long : Problem
  title_too_long : Problem
  push_too_long : Problem

abbrev pub max_sms_len : ℕ
max_sms_len = 1600

abbrev pub max_email_subject : ℕ
max_email_subject = 998

abbrev pub max_email_body : ℕ
max_email_body = 256 * 1024

abbrev pub max_push_title : ℕ
max_push_title = 50

abbrev pub max_push_body : ℕ
max_push_body = 200

-- `hasContent`.
unfoldable pub has_content : Option Str → Bool
has_content none = false
has_content (some c) = not (is_blank c)

-- The part behind the first line break, "" if there is none.
unfoldable pub rest_or_empty : Option Str → Str
rest_or_empty none = []
rest_or_empty (some r) = r

-- The `switch` on the channel; `c` is trimmed.
unfoldable pub content_problem : Channel → Str → Option Problem
unfolding rest_or_empty
content_problem ch c =
    let (line, rest) = line_cut c in
    if str_eq ch sms
    then (if ltb max_sms_len (byte_len c) then some sms_too_long else none)
    else if str_eq ch email
    then (if ltb max_email_subject (byte_len (trim_space line))
        then some subject_too_long
        else if ltb max_email_body (byte_len (rest_or_empty rest))
        then some email_too_long
        else none)
    else if str_eq ch push
    then (if ltb max_push_title (byte_len (trim_space line))
        then some title_too_long
        else if ltb max_push_body (byte_len (trim_space (rest_or_empty rest)))
        then some push_too_long
        else none)
    else none

-- `if hasContent { … }`.
unfoldable pub body_problem : Channel → Option Str → Option Problem
unfolding has_content
body_problem ch none = none
body_problem ch (some c) = if is_blank c then none else content_problem ch (trim_space c)

unfoldable pub validate : CreateItem → Option Problem
unfolding has_content body_problem
validate i =
    if is_blank i.recipient
    then some recipient_required
    else if not (is_channel i.channel)
    then some invalid_channel
    else if not (is_priority i.priority || is_empty i.priority)
    then some invalid_priority
    else if not (has_content i.content) && not (is_some i.template_id)
    then some body_required
    else if is_some i.template_id && is_empty i.payload
    then some payload_required
    else body_problem i.channel i.content
