-- ===== src/Db/Listing/Pages.antt =====
-- A cursor leads to the rows behind it.
use mathlib.Core.Path.{subst}
use notify_stream.Prelude.{
  Bool, ◌≡◌, ◌≢◌, refl, sym, ap, ◌∙◌, true, false, Option, none, some, List, [], ◌∷◌, ◌++◌, All,
  arith, Bool-cases, inl, inr, take,
}
use notify_stream.Prelude.Sort.{sort_by, filter}
use notify_stream.Prelude.Sort.Filter.{IsOrder, IsSorted, sort_by-IsSorted, sort_by-filter}
use notify_stream.Domain.Types.{Notification}
use notify_stream.Db.Claims.{clamp}
use notify_stream.Db.Listing.{
  Cursor, ListParams, or_null, is_behind, cursor_of, is_newer, matches, rows_of, list,
}

is_newer-IsOrder : IsOrder is_newer
unfolding is_newer is_behind
is_newer-IsOrder = record { total = λ x y h. ground arith; trans = λ x y z h k. ground arith }

filter-filter :
    (p q : Notification → Bool) (xs : List Notification)
    → ((x : Notification) → q x ≡ true → p x ≡ true)
    → filter q (filter p xs) ≡ filter q xs
unfolding filter
filter-filter p q [] h = refl
filter-filter p q (x ∷ xs) h = elim (Bool-cases (p x)) [
  | inl e ↦ elim (Bool-cases (q x)) [
    | inl f ↦ rw (e, f) (ap (λ t. x ∷ t) (filter-filter p q xs h))
    | inr f ↦ rw (e, f) (filter-filter p q xs h)
  ]
  | inr e ↦ elim (Bool-cases (q x)) [
    | inl f ↦ absurd (differ (h x f) e)
    | inr f ↦ rw (e, f) (filter-filter p q xs h)
  ]
]
  where
    differ : {b : Bool} → b ≡ true → b ≡ false → ⊥
    differ f e = ground arith

All-filtered :
    (p : Notification → Bool) (xs : List Notification) → All (λ x. p x ≡ true) (filter p xs)
unfolding filter
All-filtered p [] = tt
All-filtered p (x ∷ xs) = elim (Bool-cases (p x)) [
  | inl e ↦ rw e (e, All-filtered p xs)
  | inr e ↦ rw e (All-filtered p xs)
]

All_at :
    (P : Notification → Type 0) (pre post : List Notification) (m : Notification)
    → All P (pre ++ m ∷ post)
    → P m
All_at P [] post m (h, a) = h
All_at P (x ∷ pre) post m (h, a) = All_at P pre post m a

newer_behind :
    (x y : Notification) → is_newer x y ≡ true → y.id ≢ x.id → is_behind (cursor_of x) y ≡ true
unfolding is_newer is_behind
newer_behind x y h n = ground arith

-- Behind the row `m` of a sorted list come the rows that its cursor admits.
filter_behind :
    (m : Notification) (post : List Notification)
    → All (λ z. is_newer m z ≡ true) post
    → All (λ z. z.id ≢ m.id) post
    → filter (is_behind (cursor_of m)) post ≡ post
unfolding filter
filter_behind m [] a d = refl
filter_behind m (z ∷ post) (b, a) (ne, d) =
    rw (newer_behind m z b ne) (ap (λ t. z ∷ t) (filter_behind m post a d))

newer_not_behind : (x m : Notification) → is_newer x m ≡ true → is_behind (cursor_of m) x ≡ false
unfolding is_newer
newer_not_behind x m h = ground arith

not_behind_self : (m : Notification) → is_behind (cursor_of m) m ≡ false
unfolding is_behind
not_behind_self m = ground arith

behind_of_sorted :
    (pre post : List Notification) (m : Notification)
    → IsSorted is_newer (pre ++ m ∷ post)
    → All (λ z. z.id ≢ m.id) post
    → filter (is_behind (cursor_of m)) (pre ++ m ∷ post) ≡ post
unfolding filter
behind_of_sorted [] post m (a, s) d = rw (not_behind_self m) (filter_behind m post a d)
behind_of_sorted (x ∷ pre) post m (a, s) d =
    rw (newer_not_behind x m (All_at (λ z. is_newer x z ≡ true) pre post m a))
      (behind_of_sorted pre post m s d)

-- The conditions of the cursor, applied to all rows in order.
rows_of-filter :
    (p : ListParams) (ns : List Notification)
    → rows_of p ns
      ≡ filter
          (λ n. or_null (λ c. is_behind c n) p.cursor)
          (sort_by is_newer (filter (matches p) ns))
unfolding rows_of
rows_of-filter p ns =
    sort_by-filter is_newer is_newer-IsOrder (λ n. or_null (λ c. is_behind c n) p.cursor)
      (filter (matches p) ns)

narrower :
    (o : Option Cursor) (m x : Notification)
    → or_null (λ c. is_behind c m) o ≡ true
    → is_behind (cursor_of m) x ≡ true
    → or_null (λ c. is_behind c x) o ≡ true
unfolding or_null is_behind
narrower none m x h b = refl
narrower (some (at, id)) m x h b = ground arith

module _ (p : ListParams) (ns pre post : List Notification) (m : Notification)
    (e : rows_of p ns ≡ pre ++ m ∷ post) where
  rows-IsSorted : IsSorted is_newer (pre ++ m ∷ post)
  unfolding rows_of
  rows-IsSorted =
      subst (λ xs. IsSorted is_newer xs) e
        (sort_by-IsSorted is_newer is_newer-IsOrder
          (filter (λ n. or_null (λ c. is_behind c n) p.cursor) (filter (matches p) ns)))

  cursor_admits : or_null (λ c. is_behind c m) p.cursor ≡ true
  cursor_admits =
      All_at (λ x. or_null (λ c. is_behind c x) p.cursor ≡ true) pre post m
        (subst (λ xs. All (λ x. or_null (λ c. is_behind c x) p.cursor ≡ true) xs)
          (sym (rows_of-filter p ns) ∙ e)
          (All-filtered (λ x. or_null (λ c. is_behind c x) p.cursor)
            (sort_by is_newer (filter (matches p) ns))))

  pub rows_behind :
      All (λ z. z.id ≢ m.id) post → rows_of (record p { cursor = some (cursor_of m) }) ns ≡ post
  unfolding or_null matches
  rows_behind d =
      let all : List Notification = sort_by is_newer (filter (matches p) ns) in
      let f : Notification → Bool = λ n. or_null (λ c. is_behind c n) p.cursor in
      rows_of-filter (record p { cursor = some (cursor_of m) }) ns
      ∙ sym
          (filter-filter f (is_behind (cursor_of m)) all (λ x. narrower p.cursor m x cursor_admits))
      ∙ ap (filter (is_behind (cursor_of m))) (sym (rows_of-filter p ns) ∙ e)
      ∙ behind_of_sorted pre post m rows-IsSorted d

  -- If the rows of a query are `pre`, `m` and `post`, and the identifier of `m` is that of no later
  -- row, then the query that is given the cursor of `m` lists the first rows of `post`, up to its
  -- limit: no row is skipped and none comes twice.
  pub list_behind :
      All (λ z. z.id ≢ m.id) post
      → list (record p { cursor = some (cursor_of m) }) ns ≡ take (clamp 20 100 p.limit) post
  unfolding list
  list_behind d = ap (take (clamp 20 100 p.limit)) (rows_behind d)
