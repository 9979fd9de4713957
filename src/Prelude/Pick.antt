-- ===== src/Prelude/Pick.antt =====
-- Taking one element out of a list that is not empty, and lists of different numbers.
use Prim.Native.Nat.{ℕ, zero, suc, ◌+◌}
use mathlib.Core.Path.{◌≡◌, refl, sym, ap}
use mathlib.Core.Logic.{◌≢◌}
use mathlib.Core.List.{List, [], ◌∷◌, ◌++◌, map}
use native.Mathlib.Omega.{arith}
use notify_stream.Prelude.Lists.{length, All, All-append}

module _ {A : Type 0} where
  -- The element at the index, or else the last one, and the others.
  unfoldable pub pick : ℕ → A → List A → A × List A
  pick zero x xs = (x, xs)
  pick (suc i) x [] = (x, [])
  pick (suc i) x (y ∷ ys) = let (z, rest) = pick i y ys in (z, x ∷ rest)

  pub pick-All :
      (P : A → Type 0) (i : ℕ) (x : A) (xs : List A)
      → All P (x ∷ xs)
      → P (pick i x xs).0 × All P (pick i x xs).1
  unfolding pick
  pick-All P zero x xs h = h
  pick-All P (suc i) x [] h = h
  pick-All P (suc i) x (y ∷ ys) (p, h) = let (q, rest) = pick-All P i y ys h in (q, (p, rest))

  pub All-pick :
      (P : A → Type 0) (i : ℕ) (x : A) (xs : List A)
      → P (pick i x xs).0
      → All P (pick i x xs).1
      → All P (x ∷ xs)
  unfolding pick
  All-pick P zero x xs p h = (p, h)
  All-pick P (suc i) x [] p h = (p, h)
  All-pick P (suc i) x (y ∷ ys) p (q, h) = (q, All-pick P i y ys p h)

  pub length-pick : (i : ℕ) (x : A) (xs : List A) → length (pick i x xs).1 ≡ length xs
  unfolding pick
  length-pick zero x xs = refl
  length-pick (suc i) x [] = refl
  length-pick (suc i) x (y ∷ ys) = ap suc (length-pick i y ys)

  -- The last element, and those before it.
  pub All-last : (P : A → Type 0) (xs : List A) (y : A) → All P (xs ++ y ∷ []) → P y × All P xs
  All-last P [] y (p, h) = (p, tt)
  All-last P (x ∷ xs) y (q, h) = let (p, rest) = All-last P xs y h in (p, (q, rest))

  abbrev pub sum_of : (A → ℕ) → List A → ℕ
  sum_of f [] = 0
  sum_of f (x ∷ xs) = f x + sum_of f xs

  pub pick-sum_of :
      (f : A → ℕ) (i : ℕ) (x : A) (xs : List A)
      → f (pick i x xs).0 + sum_of f (pick i x xs).1 ≡ sum_of f (x ∷ xs)
  unfolding pick
  pick-sum_of f zero x xs = refl
  pick-sum_of f (suc i) x [] = refl
  pick-sum_of f (suc i) x (y ∷ ys) = omega (arith, pick-sum_of f i y ys)

  pub sum_of-append : (f : A → ℕ) (xs ys : List A) → sum_of f (xs ++ ys) ≡ sum_of f xs + sum_of f ys
  sum_of-append f [] ys = omega arith
  sum_of-append f (x ∷ xs) ys = omega (arith, sum_of-append f xs ys)

pub pick-map :
    {A B : Type 0} (f : A → B) (i : ℕ) (x : A) (xs : List A)
    → pick i (f x) (map f xs) ≡ (f (pick i x xs).0, map f (pick i x xs).1)
unfolding pick
pick-map f zero x xs = refl
pick-map f (suc i) x [] = refl
pick-map f (suc i) x (y ∷ ys) = rw (pick-map f i y ys) refl

-- None of the elements has the number.
abbrev pub Lacks : {A : Type 0} → (A → ℕ) → ℕ → List A → Type 0
Lacks f k = All (λ x. f x ≢ k)

-- The elements have different numbers.
abbrev pub IsDistinct : {A : Type 0} → (A → ℕ) → List A → Type 0
IsDistinct f [] = Unit
IsDistinct f (x ∷ xs) = Lacks f (f x) xs × IsDistinct f xs

module _ {A : Type 0} (f : A → ℕ) where
  pub pick-IsDistinct :
      (i : ℕ) (x : A) (xs : List A)
      → IsDistinct f (x ∷ xs)
      → Lacks f (f (pick i x xs).0) (pick i x xs).1 × IsDistinct f (pick i x xs).1
  unfolding pick
  pick-IsDistinct zero x xs h = h
  pick-IsDistinct (suc i) x [] h = h
  pick-IsDistinct (suc i) x (y ∷ ys) (new, h) =
      let (q, rest) = pick-All (λ z. f z ≢ f x) i y ys new in
      let (absent, d) = pick-IsDistinct i y ys h in ((λ e. q (sym e), absent), (rest, d))

  -- An element at the end with a number that none has.
  pub append-IsDistinct :
      (xs : List A) (y : A) → Lacks f (f y) xs → IsDistinct f xs → IsDistinct f (xs ++ y ∷ [])
  append-IsDistinct [] y l d = (tt, tt)
  append-IsDistinct (x ∷ xs) y (ne, l) (new, d) = (
    All-append (λ z. f z ≢ f x) xs (y ∷ []) new (λ e. ne (sym e), tt),
    append-IsDistinct xs y l d,
  )
