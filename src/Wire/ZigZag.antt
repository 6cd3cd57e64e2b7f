-- ===== src/Wire/ZigZag.antt =====
-- The zigzag maps of wire.go against the integers that the patterns stand for.
use gsbm.Common.{ℕ, ◌-◌, ◌*◌, ◌/◌, ◌%◌, ◌^◌, ◌<◌, ◌≡◌, arith, ltb, if◌then◌else◌}
use gsbm.Common.{bit_xor-ones, bit_xor-zero, bit_and-low_mask}
use gsbm.Wire.{zigzag_encode64, zigzag_decode64}

-- The magnitude order: 0, -1, 1, -2, 2, ... as 0, 1, 2, 3, 4, ...
pub zigzag_encode64-value :
    (v : ℕ)
    → v < 2 ^ 64
    → zigzag_encode64 v ≡ (if ltb v (2 ^ 63) then 2 * v else 2 * (2 ^ 64 - v) - 1)
unfolding zigzag_encode64
zigzag_encode64-value v h =
    ground (arith, bit_xor-zero (v * 2 % 2 ^ 64), bit_xor-ones 64 (v * 2 % 2 ^ 64))

pub zigzag_decode64-value :
    (u : ℕ) → u < 2 ^ 64 → zigzag_decode64 u ≡ (if ltb 0 (u % 2) then 2 ^ 64 - 1 - u / 2 else u / 2)
unfolding zigzag_decode64
zigzag_decode64-value u h =
    ground (arith, bit_and-low_mask 1 u, bit_xor-zero (u / 2), bit_xor-ones 64 (u / 2))

pub zigzag_encode64-lt : (v : ℕ) → v < 2 ^ 64 → zigzag_encode64 v < 2 ^ 64
zigzag_encode64-lt v h = ground (arith, zigzag_encode64-value v h)

-- The two maps are inverse on 64-bit words, in both orders: every int64 survives, and every uint64
-- is the code of one int64.
pub zigzag_inverse :
    (w : ℕ)
    → w < 2 ^ 64
    → (zigzag_decode64 (zigzag_encode64 w) ≡ w) × (zigzag_encode64 (zigzag_decode64 w) ≡ w)
zigzag_inverse w h = (
  ground (arith, zigzag_encode64-value w h, zigzag_decode64-value (zigzag_encode64 w)),
  ground (arith, zigzag_decode64-value w h, zigzag_encode64-value (zigzag_decode64 w)),
)
