-- ===== src/Api/Create/Rows.antt =====
-- The rows of the items of a request, and that they are found in the table.
use mathlib.Core.Path.{subst}
use notify_stream.Prelude.{
  ℕ, suc, ◌≡◌, ◌≢◌, ◌≤◌, ◌<◌, refl, ap, ◌∙◌, sym, Bool-cases, inl, inr, true, false, Option, none,
  some, List, [], ◌∷◌, ◌++◌, Str, All, append-nil, append_assoc, length, ltb, map, is_blank,
  is_some, arith,
}
use notify_stream.Prelude.Pick.{Lacks, IsDistinct}
use notify_stream.Domain.Types.{Notification, CreateItem, pending}
use notify_stream.Db.Tables.{Tables, IsNew, find_row}
use notify_stream.Db.Create.{row_of, trimmed}
use notify_stream.Api.Create.{Item}
use notify_stream.Api.Create.Stored.{IsPlain, text_of_item, text_there, not_blank}
use notify_stream.World.{Turn}

abbrev pub fresh : Notification → Item
fresh n = (n, true)

abbrev pub with_rows : List Notification → Tables → Tables
with_rows rows db = record db { notifications = db.notifications ++ rows }

abbrev pub ticks_after : List CreateItem → ℕ → ℕ
ticks_after [] t = t
ticks_after (it ∷ its) t = ticks_after its (suc t)

-- A new row with a text, and no time.
pub record IsMade (n : Notification) : Type 0 where
  pub text : Str
  pub content : n.content ≡ some text
  pub ink : is_blank text ≡ false
  pub status : n.status ≡ pending
  pub at : n.scheduled_at ≡ none

module _ (env : ℕ → Turn) (now : ℕ) (batch : Option ℕ) (corr : Str) where
  -- The rows of the items, the first one made in turn `t`.
  abbrev pub made_rows : List CreateItem → ℕ → List Notification
  made_rows [] t = []
  made_rows (it ∷ its) t = row_of (env t).uuid now batch it (some corr) ∷ made_rows its (suc t)

  pub made_rows-IsMade :
      (its : List CreateItem) (t : ℕ) → All IsPlain its → All IsMade (made_rows its t)
  unfolding row_of trimmed
  made_rows-IsMade [] t h = tt
  made_rows-IsMade (it ∷ its) t (p, h) =
      let (c, text, ink) = text_of_item it.content (text_there it p.acceptable p.template) in
      (
        record {
          text = notify_stream.Prelude.trim_space c;
          content = ap trimmed text;
          ink = not_blank c ink;
          status = refl;
          at = p.at;
        },
        made_rows-IsMade its (suc t) h,
      )

  pub length-made_rows : (its : List CreateItem) (t : ℕ) → length (made_rows its t) ≡ length its
  length-made_rows [] t = refl
  length-made_rows (it ∷ its) t = ap suc (length-made_rows its (suc t))

  module _ (differ : (s t : ℕ) → (env s).uuid ≡ (env t).uuid → s ≡ t) where
    made_rows-Lacks :
        (its : List CreateItem) (s t : ℕ) → s < t → Lacks (λ n. n.id) (env s).uuid (made_rows its t)
    unfolding row_of
    made_rows-Lacks [] s t h = tt
    made_rows-Lacks (it ∷ its) s t h = (
      λ e. let same = differ t s e in absurd (omega arith),
      made_rows-Lacks its s (suc t) (omega arith),
    )

    pub made_rows-IsDistinct :
        (its : List CreateItem) (t : ℕ) → IsDistinct (λ n. n.id) (made_rows its t)
    unfolding row_of
    made_rows-IsDistinct [] t = tt
    made_rows-IsDistinct (it ∷ its) t =
        (made_rows-Lacks its t (suc t) (omega arith), made_rows-IsDistinct its (suc t))

  pub made_rows-IsNew :
      (ns : List Notification)
      → ((t : ℕ) → IsNew (env t).uuid ns)
      → (its : List CreateItem) (t : ℕ) → All (λ n. IsNew n.id ns) (made_rows its t)
  unfolding row_of
  made_rows-IsNew ns new [] t = tt
  made_rows-IsNew ns new (it ∷ its) t = (new t, made_rows-IsNew ns new its (suc t))

find_behind :
    (id : ℕ) (ns ms : List Notification) → IsNew id ns → find_row id (ns ++ ms) ≡ find_row id ms
unfolding find_row
find_behind id [] ms h = refl
find_behind id (n ∷ ns) ms (ne, h) = ground (arith, find_behind id ns ms h)

found_behind :
    (pre : List Notification) (n : Notification) (rows : List Notification)
    → IsNew n.id pre
    → find_row n.id (pre ++ n ∷ rows) ≡ some n
unfolding find_row
found_behind pre n rows h = find_behind n.id pre (n ∷ rows) h ∙ ground arith

IsNew-last :
    (pre rows : List Notification) (n : Notification)
    → All (λ m. IsNew m.id pre) rows
    → Lacks (λ m. m.id) n.id rows
    → All (λ m. IsNew m.id (pre ++ n ∷ [])) rows
IsNew-last pre [] n h l = tt
IsNew-last pre (m ∷ rows) n (new, h) (ne, l) = (
  notify_stream.Prelude.All-append (λ k. k.id ≢ m.id) pre (n ∷ []) new (λ e. ne (sym e), tt),
  IsNew-last pre rows n h l,
)

-- Different new rows are all found behind the others.
pub All-found :
    (pre rows : List Notification)
    → All (λ n. IsNew n.id pre) rows
    → IsDistinct (λ n. n.id) rows
    → All (λ n. find_row n.id (pre ++ rows) ≡ some n) rows
All-found pre [] new d = tt
All-found pre (n ∷ rows) (new, news) (absent, d) = (
  found_behind pre n rows new,
  subst (λ l. All (λ m. find_row m.id l ≡ some m) rows) (append_assoc pre (n ∷ []) rows)
      (All-found (pre ++ n ∷ []) rows (IsNew-last pre rows n news absent) d),
)
