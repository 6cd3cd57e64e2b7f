-- ===== src/Tests/Strings.antt =====
-- Sizes, interned strings and streams on concrete inputs.
use gsbm.Common.{ℕ, ◌^◌, ◌≡◌, refl, true, not, none, some, List, [], ◌∷◌, ◌++◌, length, arith, pos}
use gsbm.Errors.{ok}
use gsbm.Writer.Calls.{
  encode, encode_call, bytes, svarint, uvarint, bool, fixed32, fixed64, IsLegal, IsLegalCall,
}
use gsbm.Varint.Encoding.{varint, leb128}
use gsbm.Wire.{zigzag_encode64}
use gsbm.Compress.{Stream, header_compression_method}
use gsbm.Reader.State.{new_reader}
use gsbm.Reader.Header.Parsed.{base_header}
use gsbm.Reader.Source.{
  new_reader_from_n, read_full, check_base, after_base, bounded_body, read_body,
}
use gsbm.Reader.Source.Prefix.{Holds, new_reader_from_n-Holds}
use gsbm.Reader.Source.Blob.{new_reader_from_n-blob}
use gsbm.Intern.{new_interner_n}
use gsbm.Intern.Retained.{IsBounded, acquire_all, acquire_all-IsBounded}
use gsbm.Sizing.{
  size_nullable_bytes, size_nullable_bool, size_nullable_int64, size_nullable_uint64,
  size_nullable_float32, size_nullable_float64,
}
use gsbm.Sizing.Dual.{size, size-encode}
use gsbm.Sizing.Nullable.{
  optional_call, empty, zero_word, zero_float32, zero_float64, size_nullable-encode,
}
use gsbm.Tests.Values.{order, order-IsLegal, marking}

size-encode_example : size order ≡ length (encode order)
size-encode_example = size-encode order order-IsLegal

legal_bytes : IsLegalCall (optional_call empty bytes (some (7 ∷ 8 ∷ [])))
unfolding IsLegal IsLegalCall optional_call encode encode_call varint leb128
legal_bytes = ((tt, (omega arith, tt)), omega arith)

legal_int64 : IsLegalCall (optional_call zero_word svarint (some 5))
unfolding IsLegal IsLegalCall optional_call encode encode_call varint leb128 zigzag_encode64
legal_int64 = ((tt, (omega arith, tt)), omega arith)

legal_uint64 : IsLegalCall (optional_call zero_word uvarint (some 5))
unfolding IsLegal IsLegalCall optional_call encode encode_call varint leb128
legal_uint64 = ((tt, (omega arith, tt)), omega arith)

legal_bool : IsLegalCall (optional_call not bool (some true))
unfolding IsLegal IsLegalCall optional_call encode encode_call
legal_bool = ((tt, (tt, tt)), omega arith)

legal_float32 : IsLegalCall (optional_call zero_float32 fixed32 (some 9))
unfolding IsLegal IsLegalCall optional_call encode encode_call
legal_float32 = ((tt, (omega arith, tt)), omega arith)

-- The bits of -0.0 are elided like those of 0.0.
legal_float64 : IsLegalCall (optional_call zero_float64 fixed64 (some (2 ^ 63)))
unfolding IsLegal IsLegalCall optional_call encode encode_call
legal_float64 = ((tt, tt), omega arith)

size_nullable-encode_example :
    (size_nullable_bytes (some (7 ∷ 8 ∷ []))
      ≡ length (encode_call (optional_call empty bytes (some (7 ∷ 8 ∷ [])))))
    × (size_nullable_int64 (some 5)
        ≡ length (encode_call (optional_call zero_word svarint (some 5))))
    × (size_nullable_uint64 (some 5)
        ≡ length (encode_call (optional_call zero_word uvarint (some 5))))
    × (size_nullable_bool (some true) ≡ length (encode_call (optional_call not bool (some true))))
    × (size_nullable_float32 (some 9)
        ≡ length (encode_call (optional_call zero_float32 fixed32 (some 9))))
    × (size_nullable_float64 (some (2 ^ 63))
        ≡ length (encode_call (optional_call zero_float64 fixed64 (some (2 ^ 63)))))
size_nullable-encode_example =
    size_nullable-encode (some (7 ∷ 8 ∷ [])) (some true) (some 5) (some 9) (some (2 ^ 63))
      legal_bytes legal_int64 legal_uint64 legal_bool legal_float32 legal_float64

-- Three strings, one of them twice, and room for two.
acquire_all-IsBounded_example :
    let bs : List (List ℕ) = (1 ∷ []) ∷ (2 ∷ []) ∷ (1 ∷ []) ∷ (3 ∷ []) ∷ [] in
    let o = acquire_all (new_interner_n (pos 2)) bs in (o.0 ≡ bs) × IsBounded o.1 × (o.1.max ≡ 2)
acquire_all-IsBounded_example =
    acquire_all-IsBounded (new_interner_n (pos 2)) ((1 ∷ []) ∷ (2 ∷ []) ∷ (1 ∷ []) ∷ (3 ∷ []) ∷ [])
      (record { table = tt; bound = λ _. omega arith })

abbrev two_blobs : Stream
two_blobs = record { content = base_header 0 7 2 ++ 5 ∷ 6 ∷ 71 ∷ 83 ∷ []; ending = none }

reads_first :
    new_reader_from_n marking two_blobs (pos 2) ≡ ok (new_reader (base_header 0 7 2 ++ 5 ∷ 6 ∷ []))
unfolding new_reader_from_n read_full check_base after_base bounded_body read_body
    header_compression_method
reads_first = refl

new_reader_from_n-Holds_example :
    Holds two_blobs.content (pos 2) (new_reader (base_header 0 7 2 ++ 5 ∷ 6 ∷ []))
new_reader_from_n-Holds_example =
    new_reader_from_n-Holds marking two_blobs (pos 2) (new_reader (base_header 0 7 2 ++ 5 ∷ 6 ∷ []))
      reads_first

new_reader_from_n-blob_example :
    new_reader_from_n marking two_blobs (pos 2) ≡ ok (new_reader (base_header 0 7 2 ++ 5 ∷ 6 ∷ []))
new_reader_from_n-blob_example =
    new_reader_from_n-blob marking 7 (71 ∷ 83 ∷ []) none (pos 2) (5 ∷ 6 ∷ []) (omega arith)
      (omega arith) refl
