-- ===== src/Prelude/Text/Split.antt =====
-- `strings.SplitN(s, sep, 2)`, `strings.Split` and `strings.TrimPrefix`, for a separator of one
-- character.
use Prim.Native.Nat.{ℕ}
use mathlib.Core.Path.{◌≡◌, refl}
use mathlib.Core.Logic.{◌≢◌}
use mathlib.Core.Bool.{true, false}
use mathlib.Core.Option.{Option, none, some}
use mathlib.Core.List.{List, [], ◌∷◌, ◌++◌}
use native.Mathlib.Omega.{arith}
use notify_stream.Prelude.Tests.{◌==◌, if◌then◌else◌}
use notify_stream.Prelude.Lists.{All}
use notify_stream.Prelude.Text.{Str}

-- What stands before the first separator, and what stands behind it, if there is one.
unfoldable pub cut : ℕ → Str → Str × Option Str
cut sep [] = ([], none)
cut sep (c ∷ s) =
    let (front, rest) = cut sep s in
    elim (c == sep) [ true ↦ ([], some s) | false ↦ (c ∷ front, rest) ]

-- A text of one part more than it has separators.
abbrev pub onto : ℕ → List Str → List Str
onto c [] = (c ∷ []) ∷ []
onto c (p ∷ ps) = (c ∷ p) ∷ ps

unfoldable pub split : ℕ → Str → List Str
split sep [] = [] ∷ []
split sep (c ∷ s) = let rest = split sep s in if c == sep then [] ∷ rest else onto c rest

-- The text behind a prefix, if it has that.
unfoldable pub behind_prefix : Str → Str → Option Str
behind_prefix [] s = some s
behind_prefix (c ∷ p) [] = none
behind_prefix (c ∷ p) (d ∷ s) = if c == d then behind_prefix p s else none

abbrev pub or_self : Str → Option Str → Str
or_self s none = s
or_self s (some t) = t

-- `strings.TrimPrefix`
unfoldable pub trim_prefix : Str → Str → Str
unfolding behind_prefix
trim_prefix p s = or_self s (behind_prefix p s)

pub cut-append : (sep : ℕ) (s t : Str) → All (λ c. c ≢ sep) s → cut sep (s ++ sep ∷ t) ≡ (s, some t)
unfolding cut
cut-append sep [] t h = ground arith
cut-append sep (c ∷ s) t (ne, h) = ground (arith, cut-append sep s t h)

pub behind_prefix-append : (p s : Str) → behind_prefix p (p ++ s) ≡ some s
unfolding behind_prefix
behind_prefix-append [] s = refl
behind_prefix-append (c ∷ p) s = ground (arith, behind_prefix-append p s)

pub trim_prefix-append : (p s : Str) → trim_prefix p (p ++ s) ≡ s
unfolding trim_prefix
trim_prefix-append p s = rw (behind_prefix-append p s) refl
