-- ===== src/Sizing/Dual.antt =====
-- The Size functions against the wire form: what SizeGSBM adds up is what MarshalGSBM writes.
use gsbm.Common.{ℕ, ◌+◌, ◌≡◌, refl, length, length-append, arith}
use gsbm.Varint.Encoding.{varint, length-varint}
use gsbm.Wire.{field_key, zigzag_encode64}
use gsbm.Wire.Keys.{field_key-lt}
use gsbm.Wire.ZigZag.{zigzag_encode64-lt}
use gsbm.Writer.Calls.{
  Call, Calls, tag, uvarint, svarint, fixed32, fixed64, bool, bytes, absent, present, zeroed,
  region, done, next,
}
use gsbm.Writer.Calls.{encode_call, encode, IsLegalCall, IsLegal}
use gsbm.Sizing.{
  size_tag, size_uvarint, size_varint, size_bool, size_fixed32, size_fixed64, size_bytes,
  size_length_delim,
}

-- The sum that a SizeGSBM method makes, call by call, a presence byte counting 1.
unfoldable mutual
  pub size_call : Call → ℕ
  size_call (tag t wt) = size_tag t wt
  size_call (uvarint v) = size_uvarint v
  size_call (svarint v) = size_varint v
  size_call (fixed32 v) = size_fixed32
  size_call (fixed64 v) = size_fixed64
  size_call (bool b) = size_bool
  size_call (bytes p) = size_bytes p
  size_call absent = 1
  size_call present = 1
  size_call zeroed = 1
  size_call (region cs) = size_length_delim (size cs)

  pub size : Calls → ℕ
  size done = 0
  size (next c cs) = size_call c + size cs

mutual
  unfolding size_call size encode_call encode IsLegalCall IsLegal size_tag size_uvarint size_varint
      size_bytes size_length_delim

  pub size_call-encode_call : (c : Call) → IsLegalCall c → size_call c ≡ length (encode_call c)
  size_call-encode_call (tag t wt) h =
      ground (arith, field_key-lt t wt, length-varint (field_key t wt))
  size_call-encode_call (uvarint v) h = ground (arith, length-varint v)
  size_call-encode_call (svarint v) h =
      ground (arith, zigzag_encode64-lt v, length-varint (zigzag_encode64 v))
  size_call-encode_call (fixed32 v) h = refl
  size_call-encode_call (fixed64 v) h = refl
  size_call-encode_call (bool b) h = refl
  size_call-encode_call (bytes p) h =
      ground (arith, length-varint (length p), length-append (varint (length p)) p)
  size_call-encode_call absent h = refl
  size_call-encode_call present h = refl
  size_call-encode_call zeroed h = refl
  size_call-encode_call (region cs) h =
      let n = length (encode cs) in
      rw (sizes_lem cs h.0)
        (ground (arith, length-varint n, length-append (varint n) (encode cs), h.1))

  sizes_lem : (cs : Calls) → IsLegal cs → size cs ≡ length (encode cs)
  sizes_lem done h = refl
  sizes_lem (next c cs) h = omega (
    arith,
    size_call-encode_call c h.0,
    sizes_lem cs h.1,
    length-append (encode_call c) (encode cs),
  )

-- Over legal calls the Size functions add up to the number of bytes that the calls write, regions
-- nested to any depth.
pub size-encode : (cs : Calls) → IsLegal cs → size cs ≡ length (encode cs)
size-encode cs h = sizes_lem cs h
