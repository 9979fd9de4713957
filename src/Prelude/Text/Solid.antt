-- ===== src/Prelude/Text/Solid.antt =====
-- A text with no white space is not changed by trimming.
use mathlib.Core.Path.{◌≡◌, refl}
use mathlib.Core.Bool.{false}
use mathlib.Core.List.{[], ◌∷◌, reverse, reverse_aux}
use native.Mathlib.Omega.{arith}
use notify_stream.Prelude.Lists.{All}
use notify_stream.Prelude.Text.{Str, is_space, drop_blanks, trim_space}

-- No rune is a space.
abbrev pub IsSolid : Str → Type 0
IsSolid = All (λ c. is_space c ≡ false)

drop_blanks-IsSolid : (s : Str) → IsSolid s → drop_blanks s ≡ s
drop_blanks-IsSolid [] h = refl
drop_blanks-IsSolid (c ∷ s) (h, hs) = ground arith

reverse_aux-IsSolid : (s r : Str) → IsSolid s → IsSolid r → IsSolid (reverse_aux s r)
reverse_aux-IsSolid [] r hs hr = hr
reverse_aux-IsSolid (c ∷ s) r (h, hs) hr = reverse_aux-IsSolid s (c ∷ r) hs (h, hr)

reverse-reverse_aux : (s r : Str) → reverse (reverse_aux s r) ≡ reverse_aux r s
reverse-reverse_aux [] r = refl
reverse-reverse_aux (c ∷ s) r = reverse-reverse_aux s (c ∷ r)

pub trim_space-IsSolid : (s : Str) → IsSolid s → trim_space s ≡ s
unfolding trim_space
trim_space-IsSolid s h =
    rw (drop_blanks-IsSolid s h, drop_blanks-IsSolid (reverse s) (reverse_aux-IsSolid s [] h tt))
      (reverse-reverse_aux s [])
