-- ===== src/Prelude/Sort/Members.antt =====
-- The members of a list that is sorted, filtered and cut.
use mathlib.Core.Path.{subst}
use notify_stream.Prelude.{
  ℕ, zero, suc, Bool, true, false, ◌≡◌, ◌⊎◌, ◌↔◌, inl, inr, Bool-cases, List, [], ◌∷◌, All, IsIn,
  take, arith, sym,
}
use notify_stream.Prelude.Sort.{insert_by, sort_by, filter}
use notify_stream.Prelude.Sort.Filter.{IsOrder, IsSorted, sort_by-IsSorted, sort_by-filter}

module _ {A : Type 0} where
  pub IsIn-All : (P : A → Type 0) (y : A) (xs : List A) → All P xs → IsIn y xs → P y
  IsIn-All P y [] h i = absurd i
  IsIn-All P y (x ∷ xs) (p, h) (inl e) = subst P (sym e) p
  IsIn-All P y (x ∷ xs) (p, h) (inr i) = IsIn-All P y xs h i

  IsIn-insert_by :
      (le : A → A → Bool) (y x : A) (xs : List A)
      → IsIn y (insert_by le x xs) ↔ ((y ≡ x) ⊎ IsIn y xs)
  unfolding insert_by
  IsIn-insert_by le y x [] = (λ i. i, λ i. i)
  IsIn-insert_by le y x (z ∷ xs) = elim (Bool-cases (le x z)) [
    | inl e ↦ rw e (λ i. i, λ i. i)
    | inr e ↦ rw e (ground (arith, IsIn-insert_by le y x xs))
  ]

  pub IsIn-sort_by : (le : A → A → Bool) (y : A) (xs : List A) → IsIn y (sort_by le xs) ↔ IsIn y xs
  unfolding sort_by
  IsIn-sort_by le y [] = (λ i. i, λ i. i)
  IsIn-sort_by le y (x ∷ xs) =
      ground (arith, IsIn-insert_by le y x (sort_by le xs), IsIn-sort_by le y xs)

  pub IsIn-filter :
      (p : A → Bool) (y : A) (xs : List A) → IsIn y (filter p xs) ↔ (IsIn y xs × (p y ≡ true))
  unfolding filter
  IsIn-filter p y [] = (λ i. absurd i, λ (i, e). i)
  IsIn-filter p y (x ∷ xs) = elim (Bool-cases (p x)) [
    | inl e ↦ rw e (
      λ i. elim i [
        | inl s ↦ (inl s, subst (λ z. p z ≡ true) (sym s) e)
        | inr j ↦ let (k, h) = (IsIn-filter p y xs).0 j in (inr k, h)
      ],
      λ (i, h). elim i [ inl s ↦ inl s | inr j ↦ inr ((IsIn-filter p y xs).1 (j, h)) ],
    )
    | inr e ↦ rw e (
      λ i. let (k, h) = (IsIn-filter p y xs).0 i in (inr k, h),
      λ (i, h). elim i [
        | inl s ↦ absurd (let f : p y ≡ false = subst (λ z. p z ≡ false) (sym s) e in cc)
        | inr j ↦ (IsIn-filter p y xs).1 (j, h)
      ],
    )
  ]

  pub IsIn-take : (k : ℕ) (y : A) (xs : List A) → IsIn y (take k xs) → IsIn y xs
  IsIn-take zero y xs i = absurd i
  IsIn-take (suc k) y [] i = absurd i
  IsIn-take (suc k) y (x ∷ xs) (inl e) = inl e
  IsIn-take (suc k) y (x ∷ xs) (inr i) = inr (IsIn-take k y xs i)

  -- What is cut off comes after all that is taken.
  pub taken_first :
      (le : A → A → Bool) (k : ℕ) (y : A) (xs : List A)
      → IsSorted le xs
      → IsIn y xs
      → IsIn y (take k xs) ⊎ ((x : A) → IsIn x (take k xs) → le x y ≡ true)
  taken_first le zero y xs s i = inr (λ x j. absurd j)
  taken_first le (suc k) y [] s i = absurd i
  taken_first le (suc k) y (x ∷ xs) (a, s) (inl e) = inl (inl e)
  taken_first le (suc k) y (x ∷ xs) (a, s) (inr i) = elim (taken_first le k y xs s i) [
    | inl j ↦ inl (inr j)
    | inr f ↦ inr (λ z j. elim j [
      | inl e ↦ subst (λ u. le u y ≡ true) (sym e) (IsIn-All (λ u. le x u ≡ true) y xs a i)
      | inr l ↦ f z l
    ])
  ]

  -- `got` are elements of `xs` with the properties `p` and `q`, and every other one comes after them.
  abbrev pub TakesFirst : (A → A → Bool) → (A → Bool) → (A → Bool) → List A → List A → Type 0
  TakesFirst le p q xs got =
      ((x : A) → IsIn x got → IsIn x xs × (p x ≡ true) × (q x ≡ true))
      × ((y : A)
          → IsIn y xs
          → p y ≡ true
          → q y ≡ true
          → IsIn y got ⊎ ((x : A) → IsIn x got → le x y ≡ true))

  -- `SELECT … WHERE … ORDER BY … LIMIT … FOR UPDATE SKIP LOCKED`
  pub take-TakesFirst :
      (le : A → A → Bool) (o : IsOrder le) (p q : A → Bool) (k : ℕ) (xs : List A)
      → TakesFirst le p q xs (take k (filter q (sort_by le (filter p xs))))
  take-TakesFirst le o p q k xs =
      let rows : List A = filter q (sort_by le (filter p xs)) in
      let sorted : IsSorted le rows =
        subst (IsSorted le) (sort_by-filter le o q (filter p xs))
          (sort_by-IsSorted le o (filter q (filter p xs))) in
      (
        λ x i.
            let (j, hq) = (IsIn-filter q x (sort_by le (filter p xs))).0 (IsIn-take k x rows i) in
            let (l, hp) = (IsIn-filter p x xs).0 ((IsIn-sort_by le x (filter p xs)).0 j) in
            (l, hp, hq),
        λ y i hp hq. taken_first le k y rows sorted (
            (IsIn-filter q y (sort_by le (filter p xs))).1
              ((IsIn-sort_by le y (filter p xs)).1 ((IsIn-filter p y xs).1 (i, hp)), hq)),
      )
