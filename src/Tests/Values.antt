-- ===== src/Tests/Values.antt =====
-- The inputs: an order with a nested address, and codecs that mark what they compressed.
use gsbm.Common.{ℕ, ◌+◌, ◌-◌, ◌^◌, ◌≤◌, ◌≡◌, refl, true, none, List, [], ◌∷◌, arith}
use gsbm.Common.{length, drop, leb, if◌then◌else◌}
use gsbm.Errors.{ok, err, alloc_too_large}
use gsbm.Writer.Calls.{
  Calls, tag, uvarint, svarint, fixed32, bool, bytes, absent, present, region, done, next,
}
use gsbm.Writer.Calls.{encode, encode_call, IsLegal, IsLegalCall}
use gsbm.Varint.Encoding.{varint, leb128}
use gsbm.Wire.{zigzag_encode64, field_key}
use gsbm.Writer.State.{Sink}
use gsbm.Compress.{compression_zstd, compression_gzip, Runtime, Stream}
use gsbm.Compress.Codec.{CodecLaws}

abbrev pub address : Calls
address = next present (next (svarint 5) (next (bytes (104 ∷ 105 ∷ [])) done))

abbrev pub order : Calls
order = next (tag 1 0) (
    next (uvarint 300) (
      next (tag 2 2)
        (next (region address) (next absent (next (bool true) (next (fixed32 7) done))))))

pub length-address : length (encode address) ≡ 5
unfolding encode encode_call varint leb128 zigzag_encode64
length-address = refl

pub length-order : length (encode order) ≡ 16
unfolding encode encode_call varint leb128 zigzag_encode64 field_key
length-order = refl

address-IsLegal : IsLegal address
unfolding IsLegal IsLegalCall
address-IsLegal = (tt, (omega arith, (omega arith, tt)))

pub order-IsLegal : IsLegal order
unfolding IsLegal IsLegalCall
order-IsLegal =
    let t1 : (1 ≤ 1) × (1 ≤ 2 ^ 29 - 1) × (0 ≤ 3) = (omega arith, omega arith, omega arith) in
    let t2 : (1 ≤ 2) × (2 ≤ 2 ^ 29 - 1) × (2 ≤ 3) = (omega arith, omega arith, omega arith) in
    (
      t1,
      (
        omega arith,
        (t2, ((address-IsLegal, omega (arith, length-address)), (tt, (tt, (omega arith, tt))))),
      ),
    )

-- A frame is the method's number and the body.
abbrev pub opened : List ℕ → Stream
opened f = record { content = drop 1 f; ending = none }

abbrev pub marking : Runtime
marking = record {
  max_int = 9223372036854775807;
  encode = λ m b. ok (m ∷ b);
  write_fault = λ _ _ _. none;
  zstd_decode_all = λ f. ok (drop 1 f);
  zstd_decode_capped = λ n f. if leb (length f) (n + 1) then ok (drop 1 f) else err alloc_too_large;
  zstd_reset = λ _. none;
  zstd_stream = opened;
  gzip_reset = λ _. none;
  gzip_stream = opened;
}

frame_of : (m : ℕ) (b f : List ℕ) → ok (m ∷ b) ≡ ok f → f ≡ m ∷ b
frame_of m b f e = cc

pub marking-CodecLaws : CodecLaws marking
marking-CodecLaws = record {
  accepts = λ _ _ _. refl;
  capped = λ b f e. rw (frame_of compression_zstd b f e) (ground arith);
  zstd_opens = λ _ _ _. refl;
  zstd_streams = λ b f e. rw (frame_of compression_zstd b f e) refl;
  gzip_opens = λ _ _ _. refl;
  gzip_streams = λ b f e. rw (frame_of compression_gzip b f e) refl;
}

abbrev pub collector : Sink
collector = record { written = 1 ∷ 2 ∷ []; fault = λ _ _. none }
