-- ===== src/Api/Create/Stored.antt =====
-- The transaction of a request with any number of items, when nothing fails and nobody interferes.
use notify_stream.Prelude.{
  ℕ, suc, ◌≡◌, refl, ap, ◌∙◌, ap, ◌∙◌, sym, Bool-cases, inl, inr, true, false, Option, none, some,
  List, [], ◌∷◌, ◌++◌, Str, All, IsBlank, is_blank, is_blank_iff, is_blank-trim_space, trim_space,
  is_empty, append-nil, append_assoc, length, ltb, map, str_eq, arith, ◌||◌,
}
use notify_stream.Domain.Types.{Notification, CreateItem, Template}
use notify_stream.Domain.Validate.Sound.{IsAcceptable, HasText, validate_iff}
use notify_stream.Db.Tables.{find_key, has_key}
use notify_stream.Db.Change.{key_taken}
use notify_stream.Db.Create.Accepted.{IsClean, validate_storable, clean-row_of}
use notify_stream.Db.Create.{has_nul, has_template, key_of, row_of, is_storable}

pub text_of_item : (o : Option Str) → HasText o → (c : Str) × (o ≡ some c) × ¬ IsBlank c
text_of_item none h = elim h [ ]
text_of_item (some c) h = (c, refl, h)

pub text_there :
    (item : CreateItem) → IsAcceptable item → item.template_id ≡ none → HasText item.content
text_there item acc template = elim acc.body [
  | inl text ↦ text
  | inr other ↦ absurd (other template)
]

pub not_blank : (c : Str) → ¬ IsBlank c → is_blank (trim_space c) ≡ false
not_blank c ink = ground (arith, is_blank_iff c, is_blank-trim_space c)

-- An acceptable item in which no text has a NUL can be stored.
pub storable :
    (id now : ℕ) (batch : Option ℕ) (item : CreateItem) (corr : Str)
    → IsAcceptable item
    → IsClean item
    → has_nul corr ≡ false
    → is_storable (row_of id now batch item (some corr)) ≡ true
storable id now batch item corr acc clean readable =
    validate_storable id now batch item (some corr) ((validate_iff item).1 acc)
    ∙ clean-row_of id now batch item corr clean readable

-- A row without a template needs none.
pub needs_none : (o : Option ℕ) (ts : List Template) → o ≡ none → has_template o ts ≡ true
needs_none o ts h = rw h refl

-- An acceptable item with a text, no template, no time and no NUL in its texts.
pub record IsPlain (item : CreateItem) : Type 0 where
  pub acceptable : IsAcceptable item
  pub template : item.template_id ≡ none
  pub at : item.scheduled_at ≡ none
  pub clean : IsClean item

-- Two keys are not the same.
abbrev pub Differs : Option Str → Option Str → Type 0
Differs (some j) (some k) = str_eq j k ≡ false
Differs _ _ = Unit

abbrev pub item_key : CreateItem → Option Str
item_key item = key_of item.idempotency_key

-- The items have different keys, or none, and no row has one of them.
abbrev pub AreFree : List CreateItem → List Notification → Type 0
AreFree [] ns = Unit
AreFree (it ∷ its) ns =
    (key_taken (item_key it) ns ≡ false)
    × All (λ u. Differs (item_key it) (item_key u)) its
    × AreFree its ns

find_key_last :
    (k : Str) (ns : List Notification) (n : Notification)
    → find_key k ns ≡ none
    → has_key k n.idempotency_key ≡ false
    → find_key k (ns ++ n ∷ []) ≡ none
unfolding find_key
find_key_last k [] n e h = rw h refl
find_key_last k (m ∷ ns) n e h = ground (arith, find_key_last k ns n)

lacks_key : (k : Str) (o : Option Str) → Differs o (some k) → has_key k o ≡ false
unfolding has_key
lacks_key k none d = refl
lacks_key k (some j) d = d

not_taken : {A : Type 0} (o : Option A) → notify_stream.Prelude.is_some o ≡ false → o ≡ none
not_taken none h = refl
not_taken (some a) h = absurd (cc)

key_free_last :
    (o : Option Str) (ns : List Notification) (n : Notification)
    → key_taken o ns ≡ false
    → Differs n.idempotency_key o
    → key_taken o (ns ++ n ∷ []) ≡ false
unfolding key_taken
key_free_last none ns n h d = refl
key_free_last (some k) ns n h d =
    rw (find_key_last k ns n (not_taken (find_key k ns) h) (lacks_key k n.idempotency_key d)) refl

pub free_last :
    (its : List CreateItem) (ns : List Notification) (n : Notification)
    → All (λ u. Differs n.idempotency_key (item_key u)) its
    → AreFree its ns
    → AreFree its (ns ++ n ∷ [])
free_last [] ns n d h = tt
free_last (it ∷ its) ns n (d, ds) (f, other, h) =
    (key_free_last (item_key it) ns n f d, other, free_last its ns n ds h)
