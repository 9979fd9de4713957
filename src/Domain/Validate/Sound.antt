-- ===== src/Domain/Validate/Sound.antt =====
-- What `validate` accepts, said without the order of its checks.
use notify_stream.Prelude.{
  ◌≤◌, ◌≡◌, ◌≢◌, ◌↔◌, ◌⊎◌, refl, true, ◌||◌, Option, none, some, Str, [], ◌∷◌, arith, IsBlank,
  is_blank_iff, byte_len, trim_space, str_eq_iff, line_cut, is_empty,
}
use notify_stream.Domain.Types.{
  Channel, Priority, CreateItem, sms, email, push, high, normal, low, is_channel, is_priority,
}
use notify_stream.Domain.Validate.{
  max_sms_len, max_email_subject, max_email_body, max_push_title, max_push_body, has_content,
  rest_or_empty, content_problem, body_problem, validate,
}

-- The size limits of each channel on a trimmed content.
pub record Fits (ch : Channel) (c : Str) : Type 0 where
  pub sms_size : ch ≡ sms → byte_len c ≤ max_sms_len
  pub subject_size : ch ≡ email → byte_len (trim_space (line_cut c).0) ≤ max_email_subject
  pub email_size : ch ≡ email → byte_len (rest_or_empty (line_cut c).1) ≤ max_email_body
  pub title_size : ch ≡ push → byte_len (trim_space (line_cut c).0) ≤ max_push_title
  pub push_size : ch ≡ push → byte_len (trim_space (rest_or_empty (line_cut c).1)) ≤ max_push_body

-- A content that is there and not blank.
abbrev pub HasText : Option Str → Type 0
HasText none = ⊥
HasText (some c) = ¬ IsBlank c

-- A text, if there is one, fits its channel.
abbrev pub TextFits : Channel → Option Str → Type 0
TextFits ch none = Unit
TextFits ch (some c) = ¬ IsBlank c → Fits ch (trim_space c)

-- A known priority, or none.
abbrev pub IsPriority : Priority → Type 0
IsPriority p = (p ≡ high) ⊎ ((p ≡ normal) ⊎ ((p ≡ low) ⊎ (p ≡ [])))

-- What the API asks of an item.
pub record IsAcceptable (i : CreateItem) : Type 0 where
  pub recipient : ¬ IsBlank i.recipient
  pub channel : (i.channel ≡ sms) ⊎ ((i.channel ≡ email) ⊎ (i.channel ≡ push))
  pub priority : IsPriority i.priority
  pub body : HasText i.content ⊎ (i.template_id ≢ none)
  pub payload : i.template_id ≢ none → i.payload ≢ []
  pub content : TextFits i.channel i.content

pub is_channel_iff :
    (c : Channel) → (is_channel c ≡ true) ↔ ((c ≡ sms) ⊎ ((c ≡ email) ⊎ (c ≡ push)))
unfolding is_channel
is_channel_iff c = ground (arith, str_eq_iff c sms, str_eq_iff c email, str_eq_iff c push)

content_problem_sound : (ch : Channel) (c : Str) → content_problem ch c ≡ none → Fits ch c
unfolding content_problem
content_problem_sound ch c h =
    ground (arith, str_eq_iff ch sms, str_eq_iff ch email, str_eq_iff ch push)

content_problem_complete : (ch : Channel) (c : Str) → Fits ch c → content_problem ch c ≡ none
unfolding content_problem
content_problem_complete ch c f =
    ground (arith, str_eq_iff ch sms, str_eq_iff ch email, str_eq_iff ch push)

has_content_iff : (c : Option Str) → (has_content c ≡ true) ↔ HasText c
unfolding has_content
has_content_iff none = ground arith
has_content_iff (some c) = ground (arith, is_blank_iff c)

body_problem_iff : (ch : Channel) (o : Option Str) → (body_problem ch o ≡ none) ↔ TextFits ch o
unfolding body_problem
body_problem_iff ch none = (λ _. tt, λ _. refl)
body_problem_iff ch (some c) = (
  λ h blank. content_problem_sound ch (trim_space c) (ground (arith, is_blank_iff c)),
  λ h. ground (arith, is_blank_iff c, content_problem_complete ch (trim_space c)),
)

pub is_empty_iff : (s : Str) → (is_empty s ≡ true) ↔ (s ≡ [])
is_empty_iff [] = ground arith
is_empty_iff (c ∷ s) = ground arith

pub is_priority_iff : (p : Priority) → (is_priority p || is_empty p ≡ true) ↔ IsPriority p
unfolding is_priority
is_priority_iff p =
    ground (arith, str_eq_iff p high, str_eq_iff p normal, str_eq_iff p low, is_empty_iff p)

validate_sound : (i : CreateItem) → validate i ≡ none → IsAcceptable i
unfolding validate
validate_sound i h = ground (
  arith,
  is_blank_iff i.recipient,
  is_channel_iff i.channel,
  is_priority_iff i.priority,
  has_content_iff i.content,
  is_empty_iff i.payload,
  body_problem_iff i.channel i.content,
)

validate_complete : (i : CreateItem) → IsAcceptable i → validate i ≡ none
unfolding validate
validate_complete i h = ground (
  arith,
  is_blank_iff i.recipient,
  is_channel_iff i.channel,
  is_priority_iff i.priority,
  has_content_iff i.content,
  is_empty_iff i.payload,
  body_problem_iff i.channel i.content,
)

-- An item is accepted exactly if it names a recipient, a known channel and priority (or none), has a
-- text or a template, has a payload for a template, and its trimmed text fits its channel's limits.
pub validate_iff : (i : CreateItem) → (validate i ≡ none) ↔ IsAcceptable i
validate_iff i = (validate_sound i, validate_complete i)
