-- ===== src/Tests/Wire.antt =====
-- Varints and zigzag on concrete words.
use gsbm.Common.{◌+◌, ◌^◌, ◌≤◌, ◌<◌, ◌≡◌, refl, [], ◌∷◌, ◌++◌, length, take, arith}
use gsbm.Errors.{ok, err, truncated, varint_overflow}
use gsbm.Varint.{varint_len, append_uvarint, read_uvarint}
use gsbm.Varint.Encoding.{varint, leb128}
use gsbm.Varint.RoundTrip.{read_uvarint-append_uvarint, read_uvarint-cut}
use gsbm.Varint.Input.{read_uvarint_bounds}

-- A tenth byte above 1 does not fit into a uint64.
overlong :
    read_uvarint (255 ∷ 255 ∷ 255 ∷ 255 ∷ 255 ∷ 255 ∷ 255 ∷ 255 ∷ 255 ∷ 2 ∷ []) 0
    ≡ err varint_overflow
unfolding read_uvarint
overlong = refl

read_uvarint-append_uvarint_example :
    read_uvarint (append_uvarint (9 ∷ []) 300 ++ 8 ∷ []) 1 ≡ ok (300, varint_len 300)
read_uvarint-append_uvarint_example =
    read_uvarint-append_uvarint (9 ∷ []) (8 ∷ []) 300 (omega arith)

two_bytes : length (varint 300) ≡ 2
unfolding varint leb128
two_bytes = refl

read_uvarint-cut_example : read_uvarint (9 ∷ 9 ∷ [] ++ take 1 (varint 300)) 2 ≡ err truncated
read_uvarint-cut_example = read_uvarint-cut (9 ∷ 9 ∷ []) 300 1 (omega (arith, two_bytes))

reads_300 : read_uvarint (7 ∷ 172 ∷ 2 ∷ []) 1 ≡ ok (300, 2)
unfolding read_uvarint
reads_300 = refl

read_uvarint_bounds_example :
    (300 < 2 ^ 64) × (1 ≤ 2) × (2 ≤ 10) × (1 + 2 ≤ 3) × (varint_len 300 ≤ 2)
read_uvarint_bounds_example = read_uvarint_bounds (7 ∷ 172 ∷ 2 ∷ []) 1 300 2 reads_300

len_300 : 2 ≡ varint_len 300
unfolding varint_len
len_300 = refl
