-- ===== src/Compress.antt =====
-- storage/gsbm/compress.go, and the compression methods and header flags of gsbm.go. The codecs of
-- klauspost/compress are a parameter.
pub mod Codec
pub mod Bounds
pub mod Flags
use gsbm.Common.{
  ℕ, ◌+◌, ◌-◌, ◌^◌, ◌≤◌, Bool, not, ◌&&◌, ◌||◌, Option, none, some, List, length, take,
}
use gsbm.Common.{bit_and, bit_or, ltb, leb, ◌==◌, if◌then◌else◌}
use gsbm.Errors.{
  Error, Result, ok, err, reserved_flags, gzip_too_large, inflated_len_mismatch, unreachable_codec,
  ◌>>=◌,
}

-- CompressionMethod is a uint8 that need not be one of the three codes.
abbrev pub CompressionMethod : Type 0
CompressionMethod = ℕ

abbrev pub compression_none : CompressionMethod
compression_none = 0

abbrev pub compression_zstd : CompressionMethod
compression_zstd = 1

abbrev pub compression_gzip : CompressionMethod
compression_gzip = 2

abbrev pub compression_method_mask : ℕ
compression_method_mask = 0x07

abbrev pub extended_header_bit : ℕ
extended_header_bit = 0x08

abbrev pub default_compression : CompressionMethod
default_compression = compression_gzip

-- compresses
abbrev pub compresses : CompressionMethod → Bool
compresses m = not (m == compression_none)

-- validCompressionMethod
abbrev pub valid_compression_method : CompressionMethod → Bool
valid_compression_method m = m == compression_none || m == compression_zstd || m == compression_gzip

-- headerCompressionMethod: the method and the extended-header flag. `flags &^ m` on a uint8 is
-- `flags & (0xff - m)`.
unfoldable pub header_compression_method : ℕ → Result (CompressionMethod × Bool)
header_compression_method flags =
    let method = bit_and flags compression_method_mask in
    let extended = not (bit_and flags extended_header_bit == 0) in
    if not (bit_and flags 0xf0 == 0)
    then err reserved_flags
    else if not (valid_compression_method method)
    then err reserved_flags
    else if extended && not (compresses method)
    then err reserved_flags
    else ok (method, extended)

-- An `io.Reader` that a codec serves: the bytes until it ends, and the error it ends with, if any.
pub record Stream : Type 0 where
  pub content : List ℕ
  pub ending : Option Error

abbrev pub ended : Option Error → List ℕ → Result (List ℕ)
ended none b = ok b
ended (some e) b = err e

-- Reading an `io.LimitReader(s, n)` to its end: the limit stops it before the stream's own ending.
unfoldable pub read_limited : ℕ → Stream → Result (List ℕ)
read_limited n s =
    if leb n (length s.content) then ok (take n s.content) else ended s.ending s.content

-- The codecs, which the runtime only calls, and the platform's `math.MaxInt`. `encode` is what a
-- pooled encoder has written when it is closed after the given input; `write_fault` is the error of
-- one of its Writes.
pub record Runtime : Type 0 where
  pub max_int : ℕ
  pub encode : CompressionMethod → List ℕ → Result (List ℕ)
  pub write_fault : CompressionMethod → List ℕ → List ℕ → Option Error
  pub zstd_decode_all : List ℕ → Result (List ℕ)
  pub zstd_decode_capped : ℕ → List ℕ → Result (List ℕ)
  pub zstd_reset : List ℕ → Option Error
  pub zstd_stream : List ℕ → Stream
  pub gzip_reset : List ℕ → Option Error
  pub gzip_stream : List ℕ → Stream

-- decoderMaxDecompressedSize
abbrev pub decoder_max_decompressed_size : Runtime → ℕ
decoder_max_decompressed_size rt =
    if ltb (rt.max_int - 16) (2 ^ 32 - 1) then rt.max_int - 16 else 2 ^ 32 - 1

-- maxInflatePresize
abbrev pub max_inflate_presize : ℕ
max_inflate_presize = 2 ^ 24

-- The decoded length must be the declared one.
abbrev pub exactly : ℕ → List ℕ → Result (List ℕ)
exactly n out = if length out == n then ok out else err inflated_len_mismatch

abbrev pub unless_failed : {A : Type 0} → Option Error → Result A → Result A
unless_failed none k = k
unless_failed (some e) k = err e

abbrev pub gzip_body : Runtime → List ℕ → Option ℕ → Result (List ℕ)
gzip_body rt src (some n) = read_limited (n + 1) (rt.gzip_stream src) >>= exactly n
gzip_body rt src none =
    read_limited (decoder_max_decompressed_size rt + 1) (rt.gzip_stream src) >>= λ out.
    if ltb (decoder_max_decompressed_size rt) (length out) then err gzip_too_large else ok out

-- decompressGzip; an unknown length, -1 in the source, is `none`.
unfoldable pub decompress_gzip : Runtime → List ℕ → Option ℕ → Result (List ℕ)
decompress_gzip rt src inflated_len =
    unless_failed (rt.gzip_reset src) (gzip_body rt src inflated_len)

-- decompressZstdKnown
unfoldable pub decompress_zstd_known : Runtime → List ℕ → ℕ → Result (List ℕ)
decompress_zstd_known rt src n =
    if leb n max_inflate_presize
    then rt.zstd_decode_capped n src >>= exactly n
    else unless_failed (rt.zstd_reset src) (read_limited (n + 1) (rt.zstd_stream src) >>= exactly n)

abbrev pub zstd_body : Runtime → List ℕ → Option ℕ → Result (List ℕ)
zstd_body rt src (some n) = decompress_zstd_known rt src n
zstd_body rt src none = rt.zstd_decode_all src

-- decompressBody
unfoldable pub decompress_body : Runtime → CompressionMethod → List ℕ → Option ℕ → Result (List ℕ)
decompress_body rt method src inflated_len =
    if method == compression_zstd
    then zstd_body rt src inflated_len
    else if method == compression_gzip
    then decompress_gzip rt src inflated_len
    else err unreachable_codec
