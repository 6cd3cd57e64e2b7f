-- ===== src/Common.antt =====
-- The names that every module shares: the libraries', passed on, and those of the children.
mod Tests
mod Lists
mod Bits
mod Bytes
mod Int
pub mod Text
pub use Tests.*
pub use Lists.*
pub use Int.*
pub use Text.{codes}
unfoldable pub use Text.{
  has_prefix, trim_prefix, has_suffix, trim_suffix, is_space, is_space_2, is_space_3, space_bytes,
  last_space_bytes, trim_runes, trim_space, push, split, cut, contains, join_text, scan_uint,
  parse_uint32, digits, decimal, bool_text,
}
pub use Bytes.{set_top_bit, clear_top_bit, IsBytes, IsBytes-append}
pub use Bits.{bit_or-low_high, bit_or-high_low, bit_and-low_mask, bit_xor-ones, bit_xor-zero}
unfoldable pub use Bits.{lt_wf}
pub use Prim.Native.Nat.{ℕ, zero, suc, ◌+◌, ◌-◌, ◌*◌, ◌/◌, ◌%◌, ◌^◌, ◌≤◌, ◌<◌, min, max}
pub use Prim.Native.Nat.{bit_and, bit_or, bit_xor}
pub use mathlib.Core.Path.{◌≡◌, refl, sym, ap, ◌∙◌, ◌≡⟨◌⟩◌, ◌∎}
pub use mathlib.Core.Logic.{◌≢◌, ◌↔◌, ◌⊎◌, inl, inr}
pub use mathlib.Core.Bool.{Bool, true, false, not, ◌&&◌, ◌||◌}
pub use mathlib.Core.Option.{Option, none, some}
pub use mathlib.Core.List.{List, [], ◌∷◌, ◌++◌, map, append-nil, append_assoc}
pub use native.Mathlib.Omega.{arith}
