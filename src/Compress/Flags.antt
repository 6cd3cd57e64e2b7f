-- ===== src/Compress/Flags.antt =====
-- The flags byte of the header: a table of the 256 bytes against the format's five legal values.
use gsbm.Common.{ℕ, zero, suc, ◌<◌, ◌≡◌, refl, Bool, true, false, ◌&&◌, arith}
use gsbm.Common.{◌==◌, if◌then◌else◌}
use gsbm.Errors.{Error, Result, ok, err, reserved_flags}
use gsbm.Compress.{
  CompressionMethod, compression_none, compression_zstd, compression_gzip,
  header_compression_method,
}

-- The method and the extended bit that each legal flags byte stands for.
abbrev pub flags_meaning : ℕ → Result (CompressionMethod × Bool)
flags_meaning flags =
    if flags == 0
    then ok (compression_none, false)
    else if flags == 1
    then ok (compression_zstd, false)
    else if flags == 2
    then ok (compression_gzip, false)
    else if flags == 9
    then ok (compression_zstd, true)
    else if flags == 10
    then ok (compression_gzip, true)
    else err reserved_flags

same_bool : Bool → Bool → Bool
same_bool true b = b
same_bool false true = false
same_bool false false = true

is_reserved : Error → Bool
is_reserved reserved_flags = true
is_reserved _ = false

same : Result (CompressionMethod × Bool) → Result (CompressionMethod × Bool) → Bool
same (ok (m, x)) (ok (n, y)) = m == n && same_bool x y
same (ok a) (err e) = false
same (err e) (ok a) = false
same (err e) (err d) = is_reserved e && is_reserved d

same_bool_lem : (x y : Bool) → same_bool x y ≡ true → x ≡ y
unfolding same_bool
same_bool_lem true y h = cc
same_bool_lem false true h = cc
same_bool_lem false false h = refl

is_reserved_lem : (e : Error) → is_reserved e ≡ true → e ≡ reserved_flags
unfolding is_reserved
is_reserved_lem e h = grind arith

same_lem : (r s : Result (CompressionMethod × Bool)) → same r s ≡ true → r ≡ s
unfolding same
same_lem (ok (m, x)) (ok (n, y)) h = ground (arith, same_bool_lem x y)
same_lem (ok a) (err e) h = cc
same_lem (err e) (ok a) h = cc
same_lem (err e) (err d) h = ground (arith, is_reserved_lem e, is_reserved_lem d)

agree_below : ℕ → Bool
agree_below zero = true
agree_below (suc n) = same (header_compression_method n) (flags_meaning n) && agree_below n

agree_below_lem :
    (n : ℕ)
    → agree_below n ≡ true
    → (flags : ℕ) → flags < n
    → same (header_compression_method flags) (flags_meaning flags) ≡ true
unfolding agree_below
agree_below_lem zero e flags h = absurd (omega arith)
agree_below_lem (suc n) e flags h = ground (arith, agree_below_lem n (ground arith) flags)

table : agree_below 256 ≡ true
unfolding agree_below same same_bool is_reserved header_compression_method
table = refl

-- Of the 256 flags bytes exactly 0, 1, 2, 9 and 10 are accepted, each with its method and its
-- extended bit; every other byte is ErrReservedFlags.
pub header_compression_method-table :
    (flags : ℕ) → flags < 256 → header_compression_method flags ≡ flags_meaning flags
header_compression_method-table flags h =
    same_lem (header_compression_method flags) (flags_meaning flags)
      (agree_below_lem 256 table flags h)
