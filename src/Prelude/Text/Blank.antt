-- ===== src/Prelude/Text/Blank.antt =====
-- Blank strings, said without trimming.
use mathlib.Core.Path.{◌≡◌, refl}
use mathlib.Core.Logic.{◌↔◌}
use mathlib.Core.Bool.{Bool, true, false, not, ◌||◌}
use Prim.Native.Nat.{ℕ}
use mathlib.Core.List.{[], ◌∷◌, reverse, reverse_aux}
use native.Mathlib.Omega.{arith}
use notify_stream.Prelude.Lists.{All}
use notify_stream.Prelude.Text.{Str, is_space, drop_blanks, is_empty, trim_space, is_blank}

-- Every rune is a space.
abbrev pub IsBlank : Str → Type 0
IsBlank = All (λ c. is_space c ≡ true)

-- Some rune is not a space.
has_ink : Str → Bool
has_ink [] = false
has_ink (c ∷ s) = not (is_space c) || has_ink s

has_ink-drop_blanks : (s : Str) → has_ink (drop_blanks s) ≡ has_ink s
unfolding has_ink
has_ink-drop_blanks [] = refl
has_ink-drop_blanks (c ∷ s) = ground (arith, has_ink-drop_blanks s)

is_empty-drop_blanks : (s : Str) → is_empty (drop_blanks s) ≡ not (has_ink s)
unfolding has_ink
is_empty-drop_blanks [] = refl
is_empty-drop_blanks (c ∷ s) = ground (arith, is_empty-drop_blanks s)

has_ink-reverse_aux : (s r : Str) → has_ink (reverse_aux s r) ≡ has_ink s || has_ink r
unfolding has_ink
has_ink-reverse_aux [] r = refl
has_ink-reverse_aux (c ∷ s) r = ground (arith, has_ink-reverse_aux s (c ∷ r))

is_empty-reverse_aux : (s : Str) (c : ℕ) (r : Str) → is_empty (reverse_aux s (c ∷ r)) ≡ false
is_empty-reverse_aux [] c r = refl
is_empty-reverse_aux (d ∷ s) c r = is_empty-reverse_aux s d (c ∷ r)

is_empty-reverse : (s : Str) → is_empty (reverse s) ≡ is_empty s
is_empty-reverse [] = refl
is_empty-reverse (c ∷ s) = is_empty-reverse_aux s c []

is_blank-eq : (s : Str) → is_blank s ≡ not (has_ink s)
unfolding is_blank trim_space has_ink
is_blank-eq s = ground (
  arith,
  is_empty-reverse (drop_blanks (reverse (drop_blanks s))),
  is_empty-drop_blanks (reverse (drop_blanks s)),
  has_ink-reverse_aux (drop_blanks s) [],
  has_ink-drop_blanks s,
)

IsBlank-has_ink : (s : Str) → (has_ink s ≡ false) ↔ IsBlank s
unfolding has_ink
IsBlank-has_ink [] = (λ _. tt, λ _. refl)
IsBlank-has_ink (c ∷ s) =
    (λ h. ground (arith, IsBlank-has_ink s), λ h. ground (arith, IsBlank-has_ink s))

-- A string is trimmed to "" exactly if it holds nothing but white space.
pub is_blank_iff : (s : Str) → (is_blank s ≡ true) ↔ IsBlank s
is_blank_iff s = ground (arith, is_blank-eq s, IsBlank-has_ink s)

has_ink-reverse : (s : Str) → has_ink (reverse s) ≡ has_ink s
unfolding has_ink
has_ink-reverse s = ground (arith, has_ink-reverse_aux s [])

-- Trimming leaves what is not a space.
pub is_blank-trim_space : (s : Str) → is_blank (trim_space s) ≡ is_blank s
unfolding trim_space
is_blank-trim_space s = ground (
  arith,
  is_blank-eq (reverse (drop_blanks (reverse (drop_blanks s)))),
  is_blank-eq s,
  has_ink-reverse (drop_blanks (reverse (drop_blanks s))),
  has_ink-drop_blanks (reverse (drop_blanks s)),
  has_ink-reverse (drop_blanks s),
  has_ink-drop_blanks s,
)
