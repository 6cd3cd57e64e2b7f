-- ===== src/Wire/Fixed.antt =====
-- Little-endian words come back from their bytes.
use gsbm.Common.{ℕ, ◌^◌, ◌<◌, ◌≡◌, arith}
use gsbm.Wire.{le16, le32, le64, uint16, uint32, uint64}

pub uint16-le16 : (v : ℕ) → v < 2 ^ 16 → uint16 (le16 v) ≡ v
uint16-le16 v h = omega arith

pub uint32-le32 : (v : ℕ) → v < 2 ^ 32 → uint32 (le32 v) ≡ v
uint32-le32 v h = omega arith

pub uint64-le64 : (v : ℕ) → v < 2 ^ 64 → uint64 (le64 v) ≡ v
uint64-le64 v h = omega arith
