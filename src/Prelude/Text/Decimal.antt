-- ===== src/Prelude/Text/Decimal.antt =====
-- `strconv.Atoi`: a decimal number with an optional sign, in the range of 64 bits.
use Prim.Native.Nat.{ℕ, zero, suc, ◌+◌, ◌-◌, ◌*◌, ◌^◌}
use mathlib.Core.Bool.{◌&&◌}
use mathlib.Core.Option.{Option, none, some}
use mathlib.Core.List.{[], ◌∷◌}
use notify_stream.Prelude.Int.{ℤ, pos, negsuc}
use notify_stream.Prelude.Tests.{◌==◌, ltb, leb, if◌then◌else◌, ◌>>=◌}
use notify_stream.Prelude.Text.{Str}

unfoldable pub digit_of : ℕ → Option ℕ
digit_of c = if leb b'0' c && leb c b'9' then some (c - b'0') else none

-- The digits that follow `acc`.
unfoldable pub digits : ℕ → Str → Option ℕ
unfolding digit_of
digits acc [] = some acc
digits acc (c ∷ s) = do d ← digit_of c; digits (acc * 10 + d) s

unfoldable pub magnitude : Str → Option ℕ
unfolding digits
magnitude [] = none
magnitude (c ∷ s) = digits 0 (c ∷ s)

unfoldable pub positive : ℕ → Option ℤ
positive n = if ltb n (2 ^ 63) then some (pos n) else none

unfoldable pub negative : ℕ → Option ℤ
negative zero = some (pos 0)
negative (suc n) = if ltb n (2 ^ 63) then some (negsuc n) else none

unfoldable pub atoi : Str → Option ℤ
unfolding magnitude positive negative
atoi [] = none
atoi (c ∷ s) =
    if c == b'-'
    then (do n ← magnitude s; negative n)
    else if c == b'+'
    then (do n ← magnitude s; positive n)
    else (do n ← magnitude (c ∷ s); positive n)
