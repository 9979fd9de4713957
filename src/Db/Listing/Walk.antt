-- ===== src/Db/Listing/Walk.antt =====
-- A client that follows the cursors of the pages reads every row.
use mathlib.Core.Path.{subst}
use notify_stream.Prelude.{
  ℕ, zero, suc, ◌≤◌, ◌<◌, ◌≡◌, refl, sym, ap, ◌∙◌, Bool-cases, false, inl, inr, Option, none, some,
  List, [], ◌∷◌, ◌++◌, take, length, length-append, append_assoc, arith, ◌==◌, ltb, ltb→lt,
  length-take,
}
use notify_stream.Prelude.Int.{pos}
use notify_stream.Domain.Types.{Notification}
use notify_stream.Db.Tables.{HasUniqueIds}
use notify_stream.Db.Claims.{clamp}
use notify_stream.Db.Listing.{Cursor, ListParams, rows_of, list, last_of, page, cursor_of}
use notify_stream.Db.Listing.Pages.{rows_behind}
use notify_stream.Db.Listing.Unique.{rows_of-HasUniqueIds, HasUniqueIds-behind}

-- Rows that were read, and what is read behind them, if that ends.
abbrev pub then_rows : List Notification → Option (List Notification) → Option (List Notification)
then_rows out none = none
then_rows out (some rest) = some (out ++ rest)

-- The rows of a page, and with a cursor what is read behind it.
abbrev pub follow :
    List Notification × Option Cursor
    → (Cursor → Option (List Notification))
    → Option (List Notification)
follow (out, none) more = some out
follow (out, some c) more = then_rows out (more c)

-- What such a client reads with `fuel` requests at most, and the limit that each of them asks for;
-- `none` if it is not done by then.
unfoldable pub walk : ℕ → ListParams → ℕ → List Notification → Option (List Notification)
walk zero p limit ns = none
walk (suc fuel) p limit ns =
    follow (page p limit ns) (λ c. walk fuel (record p { cursor = some c }) limit ns)

-- A list that is longer than `k` is cut behind its element `k`.
pub cut_at :
    (k : ℕ) (ns : List Notification)
    → k < length ns
    → (pre : List Notification) × (m : Notification) × (post : List Notification) × (ns
        ≡ pre ++ m ∷ post)
      × (take (suc k) ns ≡ pre ++ m ∷ [])
cut_at k [] h = absurd (omega arith)
cut_at zero (n ∷ ns) h = ([], n, ns, refl, refl)
cut_at (suc k) (n ∷ ns) h =
    let (pre, m, post, e, t) = cut_at k ns (omega arith) in
    (n ∷ pre, m, post, ap (λ u. n ∷ u) e, ap (λ u. n ∷ u) t)

last_of-append :
    (pre : List Notification) (m : Notification) → last_of (pre ++ m ∷ []) ≡ some (cursor_of m)
unfolding last_of
last_of-append [] m = refl
last_of-append (n ∷ []) m = refl
last_of-append (n ∷ o ∷ pre) m = last_of-append (o ∷ pre) m

take_all : (k : ℕ) (ns : List Notification) → length ns ≤ k → take k ns ≡ ns
take_all zero [] h = refl
take_all zero (n ∷ ns) h = absurd (omega arith)
take_all (suc k) [] h = refl
take_all (suc k) (n ∷ ns) h = ap (λ u. n ∷ u) (take_all k ns (omega arith))

clamp_beyond : (limit : ℕ) → 100 < limit → clamp 20 100 (pos limit) ≡ 100
unfolding clamp
clamp_beyond zero h = absurd (omega arith)
clamp_beyond (suc k) h = ground arith

clamp_within : (k : ℕ) → suc k ≤ 100 → clamp 20 100 (pos (suc k)) ≡ suc k
unfolding clamp
clamp_within k h = ground arith

module _ (p : ListParams) (k : ℕ) (ns : List Notification) (small : suc k ≤ 100) where
  page_rows : (page p (suc k) ns).0 ≡ take (suc k) (rows_of p ns)
  unfolding page list rows_of
  page_rows = ap (λ j. take j (rows_of p ns)) (clamp_within k small)

  page_full :
      (pre post : List Notification) (m : Notification)
      → rows_of p ns ≡ pre ++ m ∷ post
      → take (suc k) (rows_of p ns) ≡ pre ++ m ∷ []
      → length (take (suc k) (rows_of p ns)) ≡ suc k
      → page p (suc k) ns ≡ (pre ++ m ∷ [], some (cursor_of m))
  unfolding page
  page_full pre post m e t n =
      let out : list (record p { limit = pos (suc k) }) ns ≡ pre ++ m ∷ [] = page_rows ∙ t in
      let full : length (pre ++ m ∷ []) ≡ suc k = sym (ap length t) ∙ n in
      rw (out, full, last_of-append pre m) (ground arith)

  page_short : length (rows_of p ns) < suc k → page p (suc k) ns ≡ (rows_of p ns, none)
  unfolding page
  page_short h =
      let out : list (record p { limit = pos (suc k) }) ns ≡ rows_of p ns =
        page_rows ∙ take_all (suc k) (rows_of p ns) (omega arith) in
      rw out (ground arith)

walk-page :
    (fuel : ℕ) (p : ListParams) (limit : ℕ) (ns : List Notification)
    {out : List Notification × Option Cursor}
    → page p limit ns ≡ out
    → walk (suc fuel) p limit ns
      ≡ follow out (λ c. walk fuel (record p { cursor = some c }) limit ns)
unfolding walk
walk-page fuel p limit ns e =
    ap (λ o. follow o (λ c. walk fuel (record p { cursor = some c }) limit ns)) e

length_taken :
    (k : ℕ) (ns pre post : List Notification) (m : Notification)
    → k < length ns
    → take (suc k) ns ≡ pre ++ m ∷ []
    → length (pre ++ m ∷ []) ≡ suc k
length_taken k ns pre post m h t = omega (arith, length-take (suc k) ns, ap length t)

-- With a limit between 1 and 100 and unique identifiers, a client that asks again with the cursor of
-- each page, until a page has none, is done within one request more than there are rows, and is given
-- exactly the rows of the query, in order, each once.
pub walk-rows_of :
    (fuel k : ℕ) (p : ListParams) (ns : List Notification)
    → suc k ≤ 100
    → HasUniqueIds ns
    → length (rows_of p ns) < fuel
    → walk fuel p (suc k) ns ≡ some (rows_of p ns)
walk-rows_of zero k p ns small ids h = absurd (omega arith)
walk-rows_of (suc fuel) k p ns small ids h = elim (Bool-cases (ltb k (length (rows_of p ns)))) [
  | inl full ↦
      let (pre, m, post, e, t) = cut_at k (rows_of p ns) (ltb→lt _ _ full) in
      let n : length (pre ++ m ∷ []) ≡ suc k =
        length_taken k (rows_of p ns) pre post m (ltb→lt _ _ full) t in
      let new =
        HasUniqueIds-behind pre post m (subst HasUniqueIds e (rows_of-HasUniqueIds p ns ids)) in
      let next : rows_of (record p { cursor = some (cursor_of m) }) ns ≡ post =
        rows_behind p ns pre post m e new in
      walk-page fuel p (suc k) ns (page_full p k ns small pre post m e t (ap length t ∙ n))
      ∙ ap (then_rows (pre ++ m ∷ [])) (
          walk-rows_of fuel k (record p { cursor = some (cursor_of m) }) ns small ids
            (omega (arith, ap length next, ap length e, length-append pre (m ∷ post)))
          ∙ ap some next)
      ∙ ap some (append_assoc pre (m ∷ []) post ∙ sym e)
  | inr short ↦ walk-page fuel p (suc k) ns (page_short p k ns small (ground arith))
]

other_length : (n limit : ℕ) → n ≤ 100 → 100 < limit → (n == limit) ≡ false
other_length n limit h k = ground arith

-- A limit above 100 is not honoured and ends the listing: the page has the first 100 rows at most and
-- no cursor, however many rows there are.
pub page_beyond :
    (p : ListParams) (limit : ℕ) (ns : List Notification)
    → 100 < limit
    → page p limit ns ≡ (take 100 (rows_of p ns), none)
unfolding page list rows_of
page_beyond p limit ns h =
    let out : List Notification = take 100 (rows_of p ns) in
    let partial : (length out == limit) ≡ false =
      other_length (length out) limit (omega (arith, length-take 100 (rows_of p ns))) h in
    rw (clamp_beyond limit h, partial) refl
