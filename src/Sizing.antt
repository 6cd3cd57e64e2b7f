-- ===== src/Sizing.antt =====
-- storage/gsbm/sizing.go: the byte counts that generated SizeGSBM methods add up.
pub mod Dual
pub mod Nullable
use gsbm.Common.{ℕ, ◌+◌, ◌^◌, Bool, true, false, not, ◌||◌, Option, none, some, List, length}
use gsbm.Common.{◌==◌, if◌then◌else◌}
use gsbm.Varint.{varint_len}
use gsbm.Wire.{WireType, field_key, zigzag_encode64}

-- SizeTag
unfoldable pub size_tag : ℕ → WireType → ℕ
size_tag tag wt = varint_len (field_key tag wt)

-- SizeUvarint
unfoldable pub size_uvarint : ℕ → ℕ
size_uvarint v = varint_len v

-- SizeVarint
unfoldable pub size_varint : ℕ → ℕ
size_varint v = varint_len (zigzag_encode64 v)

-- SizeBool
abbrev pub size_bool : ℕ
size_bool = 1

-- SizeFixed32
abbrev pub size_fixed32 : ℕ
size_fixed32 = 4

-- SizeFixed64
abbrev pub size_fixed64 : ℕ
size_fixed64 = 8

-- SizeString and SizeBytes
unfoldable pub size_bytes : List ℕ → ℕ
size_bytes p = varint_len (length p) + length p

-- SizeLengthDelim
unfoldable pub size_length_delim : ℕ → ℕ
size_length_delim body_len = varint_len body_len + body_len

-- SizeNullableString and SizeNullableBytes
unfoldable pub size_nullable_bytes : Option (List ℕ) → ℕ
size_nullable_bytes none = size_length_delim 1
size_nullable_bytes (some p) =
    if length p == 0 then size_length_delim 1 else size_length_delim (1 + size_bytes p)

-- SizeNullableBool
unfoldable pub size_nullable_bool : Option Bool → ℕ
size_nullable_bool none = size_length_delim 1
size_nullable_bool (some b) =
    if not b then size_length_delim 1 else size_length_delim (1 + size_bool)

-- SizeNullableInt64
unfoldable pub size_nullable_int64 : Option ℕ → ℕ
size_nullable_int64 none = size_length_delim 1
size_nullable_int64 (some v) =
    if v == 0 then size_length_delim 1 else size_length_delim (1 + size_varint v)

-- SizeNullableUint64
unfoldable pub size_nullable_uint64 : Option ℕ → ℕ
size_nullable_uint64 none = size_length_delim 1
size_nullable_uint64 (some v) =
    if v == 0 then size_length_delim 1 else size_length_delim (1 + size_uvarint v)

-- SizeNullableFloat32, on the bits: `*p == 0` holds of both zeros.
unfoldable pub size_nullable_float32 : Option ℕ → ℕ
size_nullable_float32 none = size_length_delim 1
size_nullable_float32 (some bits) =
    if bits == 0 || bits == 2 ^ 31
    then size_length_delim 1
    else size_length_delim (1 + size_fixed32)

-- SizeNullableFloat64, on the bits
unfoldable pub size_nullable_float64 : Option ℕ → ℕ
size_nullable_float64 none = size_length_delim 1
size_nullable_float64 (some bits) =
    if bits == 0 || bits == 2 ^ 63
    then size_length_delim 1
    else size_length_delim (1 + size_fixed64)
