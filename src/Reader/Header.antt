-- ===== src/Reader/Header.antt =====
-- ReadHeader of storage/gsbm/reader.go.
pub mod Parsed
pub mod Written
use gsbm.Common.{
  ℕ, ◌+◌, ◌-◌, Bool, not, Option, none, some, List, [], ◌∷◌, length, take, drop, get_or,
}
use gsbm.Common.{ltb, ◌==◌, if◌then◌else◌, ◌&&◌}
use gsbm.Errors.{
  Error, Result, ok, err, truncated, bad_magic, unsupported_ver, corrupt_compressed_body,
  body_len_mismatch,
}
use gsbm.Wire.{uint16, uint32}
use gsbm.Writer.Fields.{magic, fmt_ver2, header_size}
use gsbm.Compress.{
  CompressionMethod, Runtime, compresses, header_compression_method, decoder_max_decompressed_size,
  decompress_body,
}
use gsbm.Reader.State.{Reader, Outcome, fail, guarded, peek}

abbrev pub extended_header_size : ℕ
extended_header_size = 16

-- The flags, the schema hint and the body length.
pub record Header : Type 0 where
  pub flags : ℕ
  pub schema_hint : ℕ
  pub body_len : ℕ

-- `==` on two byte slices.
abbrev pub same_bytes : List ℕ → List ℕ → Bool
same_bytes [] [] = Bool.true
same_bytes [] (y ∷ ys) = Bool.false
same_bytes (x ∷ xs) [] = Bool.false
same_bytes (x ∷ xs) (y ∷ ys) = x == y && same_bytes xs ys

abbrev inflated : Reader → Header → Result (List ℕ) → Outcome Header
inflated r h (ok b) = (ok h, record r { buf = b; pos = 0; end = length b })
inflated r h (err e) = fail r corrupt_compressed_body

-- Behind the header: the body of a compressing method is inflated and takes the buffer's place.
unfoldable pub open_body : Runtime → CompressionMethod → Option ℕ → Header → Reader → Outcome Header
open_body rt method inflated_len h r =
    if compresses method
    then inflated r h (decompress_body rt method (drop r.pos (take r.end r.buf)) inflated_len)
    else (ok h, r)

-- The cross-check of the in-header length, and the step over the header.
unfoldable pub cross_check :
    Runtime → CompressionMethod → ℕ → Option ℕ → Header → Reader → Outcome Header
cross_check rt method header_len inflated_len h r =
    if not (h.body_len == r.end - r.pos - header_len)
    then fail r body_len_mismatch
    else open_body rt method inflated_len h (record r { pos = r.pos + header_len })

-- The inflatedLen field of an extended header, against the cap on decompression.
unfoldable pub extended_check : Runtime → CompressionMethod → Header → Reader → Outcome Header
extended_check rt method h r =
    let il = uint32 (take 4 (drop (r.pos + 12) r.buf)) in
    if ltb (r.end - r.pos) extended_header_size
    then fail r truncated
    else if ltb (decoder_max_decompressed_size rt) il
    then fail r corrupt_compressed_body
    else cross_check rt method extended_header_size (some il) h r

unfoldable pub dispatch :
    Runtime → Header → Reader → Result (CompressionMethod × Bool) → Outcome Header
dispatch rt h r (err e) = fail r e
dispatch rt h r (ok (method, extended)) =
    if extended then extended_check rt method h r else cross_check rt method header_size none h r

-- ReadHeader
unfoldable pub read_header : Runtime → Reader → Outcome Header
read_header rt r =
    let flags = get_or r.buf (r.pos + 5) 0 in
    let h : Header = record {
      flags = flags;
      schema_hint = uint16 (take 2 (drop (r.pos + 6) r.buf));
      body_len = uint32 (take 4 (drop (r.pos + 8) r.buf));
    } in
    guarded r (
      if ltb (r.end - r.pos) header_size
      then fail r truncated
      else if not (same_bytes (peek r 4) magic)
      then fail r bad_magic
      else if not (get_or r.buf (r.pos + 4) 0 == fmt_ver2)
      then fail r unsupported_ver
      else dispatch rt h r (header_compression_method flags))
