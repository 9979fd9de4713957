-- ===== src/Db/Create/Accepted.antt =====
-- What the API accepts fits the columns of the table `notifications`.
use notify_stream.Prelude.{
  ℕ, ◌≡◌, ◌≢◌, ◌⊎◌, refl, true, false, ◌&&◌, ◌||◌, inl, inr, Option, none, some, [], ◌∷◌, Str,
  is_empty, is_some, not, str_eq, arith,
}
use notify_stream.Domain.Types.{CreateItem, Priority, is_priority}
use notify_stream.Domain.Validate.{validate}
use notify_stream.Domain.Validate.Sound.{HasText, validate_iff, is_channel_iff, is_priority_iff}
use notify_stream.Amqp.Publish.{or_normal}
use notify_stream.Db.Create.{row_of, is_storable, is_clean, is_text, has_nul, trimmed}

priority_known :
    (p : Priority) → is_priority p || is_empty p ≡ true → is_priority (or_normal p) ≡ true
unfolding or_normal is_priority str_eq
priority_known [] h = refl
priority_known (c ∷ p) h = ground arith

full : (s : Str) → s ≢ [] → not (is_empty s) ≡ true
full [] h = absurd (h refl)
full (c ∷ s) h = refl

there : (o : Option ℕ) → o ≢ none → is_some o ≡ true
there none h = absurd (h refl)
there (some t) h = refl

-- `notifications_body_check`
has_body :
    (item : CreateItem) (o : Option Str)
    → HasText o ⊎ (item.template_id ≢ none)
    → (item.template_id ≢ none → item.payload ≢ [])
    → is_some (trimmed o) || is_some item.template_id && not (is_empty item.payload) ≡ true
unfolding trimmed
has_body item (some c) h p = refl
has_body item none (inl text) p = absurd text
has_body item none (inr t) p = rw (there item.template_id t, full item.payload (p t)) refl

-- The row of an item that the API accepts passes the casts to the enumeration types and the `CHECK` on
-- the body: of what `is_storable` asks of the row, nothing is left but that no column is given a NUL.
pub validate_storable :
    (id now : ℕ) (batch : Option ℕ) (item : CreateItem) (corr : Option Str)
    → validate item ≡ none
    → is_storable (row_of id now batch item corr) ≡ is_clean (row_of id now batch item corr)
unfolding is_storable row_of
validate_storable id now batch item corr h =
    let acc = (validate_iff item).0 h in
    rw
      (
        (is_channel_iff item.channel).1 acc.channel,
        priority_known item.priority ((is_priority_iff item.priority).1 acc.priority),
        has_body item item.content acc.body acc.payload,
      )
      refl

-- No text of the item has a NUL.
abbrev pub IsClean : CreateItem → Type 0
IsClean item = is_clean (row_of 0 0 none item none) ≡ true

pub clean-row_of :
    (id now : ℕ) (batch : Option ℕ) (item : CreateItem) (corr : Str)
    → IsClean item
    → has_nul corr ≡ false
    → is_clean (row_of id now batch item (some corr)) ≡ true
unfolding is_clean row_of is_text
clean-row_of id now batch item corr h text = rw text h
