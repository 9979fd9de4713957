-- ===== src/Prelude/Text.antt =====
-- Go strings and what the program calls of the package `strings`. A string is the list of its code
-- points: every string of the program comes from JSON, PostgreSQL or a UTF-8 header. `len` counts
-- the bytes of the UTF-8 encoding, as in Go.
pub mod Blank
pub mod Split
pub mod Solid
pub mod Decimal
use Prim.Native.Nat.{ℕ, ◌+◌}
use Prim.Native.Char.{code}
use Prim.Native.String.{String}
use mathlib.Core.Path.{◌≡◌, refl}
use mathlib.Core.Logic.{◌↔◌}
use mathlib.Core.Bool.{Bool, true, false, ◌&&◌, ◌||◌}
use mathlib.Core.Option.{Option, none, some}
use mathlib.Core.List.{List, [], ◌∷◌, reverse}
use native.Mathlib.Omega.{arith}
use notify_stream.Prelude.Tests.{ltb, leb, ◌==◌, if◌then◌else◌}

abbrev pub Str : Type 0
Str = List ℕ

-- The code points of a literal.
abbrev pub codes : String → Str
codes String.[] = []
codes (String.◌∷◌ c s) = code c ∷ codes s

abbrev pub rune_len : ℕ → ℕ
rune_len c = if ltb c 0x80 then 1 else if ltb c 0x800 then 2 else if ltb c 0x10000 then 3 else 4

abbrev pub byte_len : Str → ℕ
byte_len [] = 0
byte_len (c ∷ s) = rune_len c + byte_len s

-- `unicode.IsSpace`.
unfoldable pub is_space : ℕ → Bool
is_space c =
    leb 0x09 c && leb c 0x0d
    || c == 0x20
    || c == 0x85
    || c == 0xa0
    || c == 0x1680
    || leb 0x2000 c && leb c 0x200a
    || c == 0x2028
    || c == 0x2029
    || c == 0x202f
    || c == 0x205f
    || c == 0x3000

abbrev pub drop_blanks : Str → Str
drop_blanks [] = []
drop_blanks (c ∷ s) = let rest = drop_blanks s in elim (is_space c) [ true ↦ rest | false ↦ c ∷ s ]

-- `strings.TrimSpace`.
unfoldable pub trim_space : Str → Str
trim_space s = reverse (drop_blanks (reverse (drop_blanks s)))

abbrev pub is_empty : Str → Bool
is_empty [] = true
is_empty (c ∷ s) = false

-- `strings.TrimSpace(s) == ""`.
unfoldable pub is_blank : Str → Bool
is_blank s = is_empty (trim_space s)

-- `strings.SplitN(s, "\n", 2)`: the first line, and the rest if there is a line break.
abbrev pub line_cut : Str → Str × Option Str
line_cut [] = ([], none)
line_cut (c ∷ s) =
    let (line, rest) = line_cut s in
    elim (c == 0x0a) [ true ↦ ([], some s) | false ↦ (c ∷ line, rest) ]

-- `==` on strings.
unfoldable pub str_eq : Str → Str → Bool
str_eq [] [] = true
str_eq [] (d ∷ t) = false
str_eq (c ∷ s) [] = false
str_eq (c ∷ s) (d ∷ t) = (c == d) && str_eq s t

pub str_eq_refl : (s : Str) → str_eq s s ≡ true
unfolding str_eq
str_eq_refl [] = refl
str_eq_refl (c ∷ s) = ground (arith, str_eq_refl s)

str_eq_sound : (s t : Str) → str_eq s t ≡ true → s ≡ t
unfolding str_eq
str_eq_sound [] [] h = refl
str_eq_sound [] (d ∷ t) h = cc
str_eq_sound (c ∷ s) [] h = cc
str_eq_sound (c ∷ s) (d ∷ t) h = ground (arith, str_eq_sound s t)

pub str_eq_iff : (s t : Str) → (str_eq s t ≡ true) ↔ (s ≡ t)
str_eq_iff s t = (str_eq_sound s t, λ e. ground (arith, str_eq_refl s))
