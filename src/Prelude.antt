-- ===== src/Prelude.antt =====
-- The names that the other modules share: the libraries', passed on, and those of the children.
mod Tests
mod Lists
mod Text
pub mod Int
pub mod Sort
pub mod Pick
pub use Tests.*
pub use Lists.*
pub use Text.{
  Str, codes, rune_len, byte_len, drop_blanks, is_empty, line_cut, str_eq_iff, str_eq_refl,
}
pub use Text.Blank.{IsBlank, is_blank_iff, is_blank-trim_space}
pub use Text.Split.{onto, or_self, cut-append, behind_prefix-append, trim_prefix-append}
unfoldable pub use Text.Split.{cut, split, behind_prefix, trim_prefix}
unfoldable pub use Text.Decimal.{digit_of, digits, magnitude, positive, negative, atoi}
pub use Text.Solid.{IsSolid, trim_space-IsSolid}
unfoldable pub use Text.{is_space, trim_space, is_blank, str_eq}
pub use Prim.Native.Nat.{ℕ, zero, suc, ◌+◌, ◌-◌, ◌*◌, ◌/◌, ◌%◌, ◌^◌, ◌≤◌, ◌<◌, min}
pub use mathlib.Core.Path.{◌≡◌, refl, sym, ap, ◌∙◌}
pub use mathlib.Core.Logic.{◌≢◌, ◌↔◌, ◌⊎◌, inl, inr}
pub use mathlib.Core.Bool.{Bool, true, false, not, ◌&&◌, ◌||◌}
pub use mathlib.Core.Option.{Option, none, some}
pub use mathlib.Core.List.{List, [], ◌∷◌, ◌++◌, map, reverse, append-nil, append_assoc}
pub use native.Mathlib.Omega.{arith}
