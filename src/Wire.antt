-- ===== src/Wire.antt =====
-- storage/gsbm/wire.go and the fixed-width encodings of encoding/binary that the runtime calls.
pub mod ZigZag
pub mod Keys
pub mod Fixed
use gsbm.Common.{ℕ, ◌+◌, ◌-◌, ◌*◌, ◌/◌, ◌%◌, ◌^◌, Bool, List, [], ◌∷◌}
use gsbm.Common.{bit_and, bit_or, bit_xor, ltb, leb, if◌then◌else◌, get_or}

-- A `WireType` is a uint8 that need not be one of the four codes.
abbrev pub WireType : Type 0
WireType = ℕ

abbrev pub wire_varint : WireType
wire_varint = 0

abbrev pub wire_fixed64 : WireType
wire_fixed64 = 1

abbrev pub wire_length_delim : WireType
wire_length_delim = 2

abbrev pub wire_fixed32 : WireType
wire_fixed32 = 3

-- MaxTag
abbrev pub max_tag : ℕ
max_tag = 2 ^ 29 - 1

-- validWireType
abbrev pub valid_wire_type : WireType → Bool
valid_wire_type wt = leb wt wire_fixed32

-- `(uint64(tag) << 3) | uint64(wt)`, the key of WriteTag and SizeTag.
unfoldable pub field_key : ℕ → WireType → ℕ
field_key tag wt = bit_or (tag * 2 ^ 3 % 2 ^ 64) wt

-- An int64 is its two's complement pattern, below 2^64. `v >> 63` copies the sign bit.
unfoldable pub zigzag_encode64 : ℕ → ℕ
zigzag_encode64 v = bit_xor (v * 2 % 2 ^ 64) (if ltb v (2 ^ 63) then 0 else 2 ^ 64 - 1)

-- `-(u & 1)` wraps.
unfoldable pub zigzag_decode64 : ℕ → ℕ
zigzag_decode64 u = bit_xor (u / 2) ((2 ^ 64 - bit_and u 1) % 2 ^ 64)

-- binary.LittleEndian.PutUint16, PutUint32 and PutUint64 into a slice of their width.
abbrev pub le16 : ℕ → List ℕ
le16 v = v % 256 ∷ v / 2 ^ 8 % 256 ∷ []

abbrev pub le32 : ℕ → List ℕ
le32 v = v % 256 ∷ v / 2 ^ 8 % 256 ∷ v / 2 ^ 16 % 256 ∷ v / 2 ^ 24 % 256 ∷ []

abbrev pub le64 : ℕ → List ℕ
le64 v =
    v % 256
    ∷ v / 2 ^ 8 % 256
    ∷ v / 2 ^ 16 % 256
    ∷ v / 2 ^ 24 % 256
    ∷ v / 2 ^ 32 % 256
    ∷ v / 2 ^ 40 % 256
    ∷ v / 2 ^ 48 % 256
    ∷ v / 2 ^ 56 % 256
    ∷ []

-- binary.LittleEndian.Uint16, Uint32 and Uint64 of a slice, which callers have cut to size.
abbrev pub uint16 : List ℕ → ℕ
uint16 b = get_or b 0 0 + get_or b 1 0 * 2 ^ 8

abbrev pub uint32 : List ℕ → ℕ
uint32 b = get_or b 0 0 + get_or b 1 0 * 2 ^ 8 + get_or b 2 0 * 2 ^ 16 + get_or b 3 0 * 2 ^ 24

abbrev pub uint64 : List ℕ → ℕ
uint64 b =
    get_or b 0 0
    + get_or b 1 0 * 2 ^ 8
    + get_or b 2 0 * 2 ^ 16
    + get_or b 3 0 * 2 ^ 24
    + get_or b 4 0 * 2 ^ 32
    + get_or b 5 0 * 2 ^ 40
    + get_or b 6 0 * 2 ^ 48
    + get_or b 7 0 * 2 ^ 56
