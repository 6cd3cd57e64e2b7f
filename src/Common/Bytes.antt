-- ===== src/Common/Bytes.antt =====
-- Facts on one byte, each a table that evaluation checks.
use Prim.Native.Nat.{ℕ, zero, suc, ◌+◌, ◌%◌, ◌<◌, bit_and, bit_or}
use mathlib.Core.Path.{◌≡◌, refl}
use mathlib.Core.Bool.{Bool, true, ◌&&◌}
use mathlib.Core.List.{List, [], ◌∷◌, ◌++◌}
use native.Mathlib.Omega.{arith}
use gsbm.Common.Tests.{◌==◌}

same_below : (ℕ → ℕ) → (ℕ → ℕ) → ℕ → Bool
same_below f g zero = true
same_below f g (suc n) = f n == g n && same_below f g n

same_below_lem : (f g : ℕ → ℕ) (n : ℕ) → same_below f g n ≡ true → (x : ℕ) → x < n → f x ≡ g x
unfolding same_below
same_below_lem f g zero e x h = absurd (omega arith)
same_below_lem f g (suc n) e x h = ground (arith, same_below_lem f g n (ground arith) x)

pub set_top_bit : (b : ℕ) → b < 256 → bit_or b 0x80 ≡ b % 128 + 128
unfolding same_below
set_top_bit = same_below_lem _ _ 256 refl

pub clear_top_bit : (b : ℕ) → b < 256 → bit_and b 0x7f ≡ b % 128
unfolding same_below
clear_top_bit = same_below_lem _ _ 256 refl

-- A byte slice whose elements are bytes.
abbrev pub IsBytes : List ℕ → Type 0
IsBytes [] = Unit
IsBytes (b ∷ bs) = (b < 256) × IsBytes bs

pub IsBytes-append : (xs ys : List ℕ) → IsBytes xs → IsBytes ys → IsBytes (xs ++ ys)
IsBytes-append [] ys h k = k
IsBytes-append (x ∷ xs) ys h k = (h.0, IsBytes-append xs ys h.1 k)
