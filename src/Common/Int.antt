-- ===== src/Common/Int.antt =====
-- Signed integers, where the source tests the sign of an int.
use Prim.Native.Nat.{ℕ}

-- `negsuc n` is -(n + 1).
pub data ℤ : Type 0 where
  pos : ℕ → ℤ
  negsuc : ℕ → ℤ
