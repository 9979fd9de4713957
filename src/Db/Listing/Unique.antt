-- ===== src/Db/Listing/Unique.antt =====
-- Identifiers stay unique under the conditions and the order of a query.
use notify_stream.Prelude.{ℕ, ◌≢◌, sym, Bool, Bool-cases, inl, inr, List, [], ◌∷◌, ◌++◌}
use notify_stream.Prelude.Sort.{insert_by, sort_by, filter}
use notify_stream.Domain.Types.{Notification}
use notify_stream.Db.Tables.{IsNew, HasUniqueIds}
use notify_stream.Db.Listing.{ListParams, or_null, is_behind, is_newer, matches, rows_of}

filter-IsNew :
    (p : Notification → Bool) (id : ℕ) (ns : List Notification)
    → IsNew id ns
    → IsNew id (filter p ns)
unfolding filter
filter-IsNew p id [] h = tt
filter-IsNew p id (n ∷ ns) (ne, h) = elim (Bool-cases (p n)) [
  | inl e ↦ rw e (ne, filter-IsNew p id ns h)
  | inr e ↦ rw e (filter-IsNew p id ns h)
]

filter-HasUniqueIds :
    (p : Notification → Bool) (ns : List Notification)
    → HasUniqueIds ns
    → HasUniqueIds (filter p ns)
unfolding filter
filter-HasUniqueIds p [] h = tt
filter-HasUniqueIds p (n ∷ ns) (new, h) = elim (Bool-cases (p n)) [
  | inl e ↦ rw e (filter-IsNew p n.id ns new, filter-HasUniqueIds p ns h)
  | inr e ↦ rw e (filter-HasUniqueIds p ns h)
]

module _ (le : Notification → Notification → Bool) where
  insert_by-IsNew :
      (id : ℕ) (n : Notification) (ns : List Notification)
      → n.id ≢ id
      → IsNew id ns
      → IsNew id (insert_by le n ns)
  unfolding insert_by
  insert_by-IsNew id n [] ne h = (ne, tt)
  insert_by-IsNew id n (m ∷ ns) ne (new, h) = elim (Bool-cases (le n m)) [
    | inl e ↦ rw e (ne, (new, h))
    | inr e ↦ rw e (new, insert_by-IsNew id n ns ne h)
  ]

  insert_by-HasUniqueIds :
      (n : Notification) (ns : List Notification)
      → IsNew n.id ns
      → HasUniqueIds ns
      → HasUniqueIds (insert_by le n ns)
  unfolding insert_by
  insert_by-HasUniqueIds n [] new h = (tt, tt)
  insert_by-HasUniqueIds n (m ∷ ns) (ne, new) (new', h) = elim (Bool-cases (le n m)) [
    | inl e ↦ rw e ((ne, new), (new', h))
    | inr e ↦
        rw e (insert_by-IsNew m.id n ns (λ s. ne (sym s)) new', insert_by-HasUniqueIds n ns new h)
  ]

  sort_by-IsNew : (id : ℕ) (ns : List Notification) → IsNew id ns → IsNew id (sort_by le ns)
  unfolding sort_by
  sort_by-IsNew id [] h = tt
  sort_by-IsNew id (n ∷ ns) (ne, h) =
      insert_by-IsNew id n (sort_by le ns) ne (sort_by-IsNew id ns h)

  sort_by-HasUniqueIds : (ns : List Notification) → HasUniqueIds ns → HasUniqueIds (sort_by le ns)
  unfolding sort_by
  sort_by-HasUniqueIds [] h = tt
  sort_by-HasUniqueIds (n ∷ ns) (new, h) =
      insert_by-HasUniqueIds n (sort_by le ns) (sort_by-IsNew n.id ns new)
        (sort_by-HasUniqueIds ns h)

pub rows_of-HasUniqueIds :
    (p : ListParams) (ns : List Notification) → HasUniqueIds ns → HasUniqueIds (rows_of p ns)
unfolding rows_of
rows_of-HasUniqueIds p ns h = sort_by-HasUniqueIds is_newer _ (
    filter-HasUniqueIds (λ n. or_null (λ c. is_behind c n) p.cursor) (filter (matches p) ns)
      (filter-HasUniqueIds (matches p) ns h))

pub HasUniqueIds-behind :
    (pre post : List Notification) (m : Notification)
    → HasUniqueIds (pre ++ m ∷ post)
    → IsNew m.id post
HasUniqueIds-behind [] post m (new, h) = new
HasUniqueIds-behind (n ∷ pre) post m (new, h) = HasUniqueIds-behind pre post m h
