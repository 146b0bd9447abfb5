-- ===== src/Base.antt =====
-- The names that every module shares: the libraries' names passed on, tests on numbers, lists
-- measured by native numbers, and Go strings as lists of bytes.
mod Tests
mod Lists
mod Text
mod Panic
mod Integer
pub use Tests.*
pub use Lists.*
pub use Panic.*
pub use Integer.{ℤ, half32, half64}
unfoldable pub use Integer.{parse_int, decimal_int, negate, read_number, read_digits}
pub use Text.{Bytes, codes, lift_codes}
unfoldable pub use Text.{
  same, has_prefix, to_upper, upper_byte, split, split_head, join, decimal, decimal_onto, hex_byte,
  hex_digit, hex, count_byte,
}
pub use Text.{
  same_iff, same_refl, join-split, split-ne-nil, split_free, split-append, length-split,
  count_byte-append,
}
pub use Prim.Native.Nat.{ℕ, zero, suc, ◌+◌, ◌-◌, ◌*◌, ◌/◌, ◌%◌, ◌≤◌, ◌<◌, min}
pub use Prim.Native.String.{String}
pub use mathlib.Core.Path.{◌≡◌, refl, sym, ap, ap₂, ◌∙◌, subst}
pub use mathlib.Core.Logic.{◌≢◌, ◌↔◌, ◌⊎◌, inl, inr}
pub use mathlib.Core.Bool.{Bool, true, false, not, ◌&&◌, ◌||◌}
pub use mathlib.Core.Option.{Option, none, some}
pub use mathlib.Core.List.{List, [], ◌∷◌, ◌++◌, map, append-nil, append_assoc}
pub use native.Mathlib.Omega.{arith}
