-- ===== src/Prelude/Sort/Filter.antt =====
-- Sorting and filtering commute, for a comparison that is total and transitive.
use notify_stream.Prelude.Tests.{Bool-cases}
use notify_stream.Prelude.Lists.{All}
use notify_stream.Prelude.Sort.{insert_by, sort_by, filter}
use mathlib.Core.Bool.{Bool, true, false}
use mathlib.Core.List.{List, [], ◌∷◌}
use mathlib.Core.Path.{◌≡◌, refl, ap}
use mathlib.Core.Logic.{inl, inr}

module _ {ℓ} {A : Type ℓ} (le : A → A → Bool) where
  -- Each element comes before all that follow it.
  abbrev pub IsSorted : List A → Type 0
  IsSorted [] = Unit
  IsSorted (x ∷ xs) = All (λ y. le x y ≡ true) xs × IsSorted xs

  -- The comparison is total and transitive.
  pub record IsOrder : Type ℓ where
    pub total : (x y : A) → le x y ≡ false → le y x ≡ true
    pub trans : (x y z : A) → le x y ≡ true → le y z ≡ true → le x z ≡ true

module _ {ℓ} {A : Type ℓ} (le : A → A → Bool) (o : IsOrder le) where
  All-trans :
      (x y : A) (zs : List A)
      → le x y ≡ true
      → All (λ z. le y z ≡ true) zs
      → All (λ z. le x z ≡ true) zs
  All-trans x y [] h a = tt
  All-trans x y (z ∷ zs) h (b, a) = (o.trans x y z h b, All-trans x y zs h a)

  All-insert_by :
      (w x : A) (ys : List A)
      → le w x ≡ true
      → All (λ z. le w z ≡ true) ys
      → All (λ z. le w z ≡ true) (insert_by le x ys)
  unfolding insert_by
  All-insert_by w x [] h a = (h, tt)
  All-insert_by w x (y ∷ ys) h (b, a) = elim (Bool-cases (le x y)) [
    | inl e ↦ rw e (h, (b, a))
    | inr e ↦ rw e (b, All-insert_by w x ys h a)
  ]

  insert_by-IsSorted : (x : A) (ys : List A) → IsSorted le ys → IsSorted le (insert_by le x ys)
  unfolding insert_by
  insert_by-IsSorted x [] s = (tt, tt)
  insert_by-IsSorted x (y ∷ ys) (a, s) = elim (Bool-cases (le x y)) [
    | inl e ↦ rw e ((e, All-trans x y ys e a), (a, s))
    | inr e ↦ rw e (All-insert_by y x ys (o.total x y e) a, insert_by-IsSorted x ys s)
  ]

  pub sort_by-IsSorted : (xs : List A) → IsSorted le (sort_by le xs)
  unfolding sort_by
  sort_by-IsSorted [] = tt
  sort_by-IsSorted (x ∷ xs) = insert_by-IsSorted x (sort_by le xs) (sort_by-IsSorted xs)

  module _ (p : A → Bool) where
    All-filter :
        (x : A) (ys : List A) → All (λ z. le x z ≡ true) ys → All (λ z. le x z ≡ true) (filter p ys)
    unfolding filter
    All-filter x [] a = tt
    All-filter x (y ∷ ys) (b, a) = elim (Bool-cases (p y)) [
      | inl e ↦ rw e (b, All-filter x ys a)
      | inr e ↦ rw e (All-filter x ys a)
    ]

    insert_by-first :
        (x : A) (ys : List A) → All (λ z. le x z ≡ true) ys → insert_by le x ys ≡ x ∷ ys
    unfolding insert_by
    insert_by-first x [] a = refl
    insert_by-first x (y ∷ ys) (b, a) = rw b refl

    filter-insert_by :
        (x : A) (ys : List A)
        → p x ≡ true
        → IsSorted le ys
        → filter p (insert_by le x ys) ≡ insert_by le x (filter p ys)
    unfolding filter insert_by
    filter-insert_by x [] h s = rw h refl
    filter-insert_by x (y ∷ ys) h (a, s) = elim (Bool-cases (le x y)) [
      | inl e ↦ elim (Bool-cases (p y)) [
        | inl k ↦ rw (e, h, k, e) refl
        | inr k ↦
            let first : insert_by le x (filter p ys) ≡ x ∷ filter p ys =
              insert_by-first x (filter p ys) (All-filter x ys (All-trans x y ys e a)) in
            rw (e, h, k, first) refl
      ]
      | inr e ↦ elim (Bool-cases (p y)) [
        | inl k ↦ rw (e, k, e) (ap (λ t. y ∷ t) (filter-insert_by x ys h s))
        | inr k ↦ rw (e, k) (filter-insert_by x ys h s)
      ]
    ]

    filter_dropped :
        (x : A) (ys : List A) → p x ≡ false → filter p (insert_by le x ys) ≡ filter p ys
    unfolding filter insert_by
    filter_dropped x [] h = rw h refl
    filter_dropped x (y ∷ ys) h = elim (Bool-cases (le x y)) [
      | inl e ↦ rw (e, h) refl
      | inr e ↦ elim (Bool-cases (p y)) [
        | inl k ↦ rw (e, k) (ap (λ t. y ∷ t) (filter_dropped x ys h))
        | inr k ↦ rw (e, k) (filter_dropped x ys h)
      ]
    ]

    -- To keep rows and then to sort them is to sort them and then to keep them.
    pub sort_by-filter : (xs : List A) → sort_by le (filter p xs) ≡ filter p (sort_by le xs)
    unfolding sort_by filter
    sort_by-filter [] = refl
    sort_by-filter (x ∷ xs) = elim (Bool-cases (p x)) [
      | inl h ↦
          let kept : filter p (insert_by le x (sort_by le xs))
              ≡ insert_by le x (filter p (sort_by le xs)) =
            filter-insert_by x (sort_by le xs) h (sort_by-IsSorted xs) in
          rw (h, kept) (ap (insert_by le x) (sort_by-filter xs))
      | inr h ↦ rw (h, filter_dropped x (sort_by le xs) h) (sort_by-filter xs)
    ]
