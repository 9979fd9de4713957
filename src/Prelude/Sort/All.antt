-- ===== src/Prelude/Sort/All.antt =====
-- A predicate on all elements of a list that is filtered.
use notify_stream.Prelude.{Bool, ◌≡◌, true, Bool-cases, inl, inr, List, [], ◌∷◌, All}
use notify_stream.Prelude.Sort.{filter}

pub All-filter :
    {A : Type 0} (P : A → Type 0) (p : A → Bool) (xs : List A) → All P xs → All P (filter p xs)
unfolding filter
All-filter P p [] h = tt
All-filter P p (x ∷ xs) (px, h) = elim (Bool-cases (p x)) [
  | inl kept ↦ rw kept (px, All-filter P p xs h)
  | inr gone ↦ rw gone (All-filter P p xs h)
]

-- The elements that are kept have what they had, and pass the test.
pub All-filter_both :
    {A : Type 0} (P Q : A → Type 0) (p : A → Bool) (xs : List A)
    → ((x : A) → P x → p x ≡ true → Q x)
    → All P xs
    → All Q (filter p xs)
unfolding filter
All-filter_both P Q p [] f h = tt
All-filter_both P Q p (x ∷ xs) f (px, h) = elim (Bool-cases (p x)) [
  | inl kept ↦ rw kept (f x px kept, All-filter_both P Q p xs f h)
  | inr gone ↦ rw gone (All-filter_both P Q p xs f h)
]

-- A weaker predicate.
pub All-map :
    {A : Type 0} (P Q : A → Type 0) (xs : List A) → ((x : A) → P x → Q x) → All P xs → All Q xs
All-map P Q [] f h = tt
All-map P Q (x ∷ xs) f (px, h) = (f x px, All-map P Q xs f h)
