-- ===== src/Reader/Source.antt =====
-- NewReaderFrom and NewReaderFromN of storage/gsbm/reader.go: a Reader over one blob of an `io.Reader`.
pub mod Prefix
pub mod Blob
use gsbm.Common.{
  ℕ, ◌+◌, ◌-◌, ◌^◌, Bool, true, false, not, Option, none, some, List, [], ◌∷◌, ◌++◌, length, take,
  drop, get_or,
}
use gsbm.Common.{ltb, leb, ◌==◌, if◌then◌else◌, ℤ, pos, negsuc}
use gsbm.Errors.{
  Error, Result, ok, err, ◌>>=◌, truncated, bad_magic, unsupported_ver, alloc_too_large,
}
use gsbm.Wire.{uint32}
use gsbm.Writer.Fields.{magic, fmt_ver2, header_size}
use gsbm.Compress.{CompressionMethod, header_compression_method, Stream, Runtime}
use gsbm.Reader.State.{Reader, new_reader}
use gsbm.Reader.Header.{same_bytes, extended_header_size}

-- The error of an `io.ReadFull` that comes up short: both of its EOF errors are ErrTruncated.
abbrev pub short_read : Option Error → Error
short_read none = truncated
short_read (some e) = e

-- `io.ReadFull` of n bytes: the bytes, and what is left of the stream.
unfoldable pub read_full : ℕ → Stream → Result (List ℕ × Stream)
read_full n s =
    if ltb (length s.content) n
    then err (short_read s.ending)
    else ok (take n s.content, record s { content = drop n s.content })

-- The caller's bound, where a negative one is none.
abbrev pub over : ℤ → ℕ → Bool
over (pos n) body_len = ltb n body_len
over (negsuc n) body_len = false

unfoldable pub read_body : List ℕ → ℕ → Stream → Result Reader
read_body header body_len s =
    if body_len == 0
    then ok (new_reader header)
    else read_full body_len s >>= λ b. ok (new_reader (header ++ b.0))

-- The two bounds on the body length, ahead of the allocation.
unfoldable pub bounded_body : Runtime → ℤ → ℕ → ℕ → List ℕ → Stream → Result Reader
bounded_body rt max_body_len header_len body_len header s =
    if ltb (rt.max_int - header_len) body_len
    then err alloc_too_large
    else if over max_body_len body_len
    then err alloc_too_large
    else read_body header body_len s

-- Behind the flags of a base header
unfoldable pub after_base : Runtime → ℤ → List ℕ → Stream → CompressionMethod × Bool → Result Reader
after_base rt max_body_len base s (m, extended) =
    let body_len = uint32 (take 4 (drop 8 base)) in
    if extended
    then read_full 4 s
      >>= (λ e. bounded_body rt max_body_len extended_header_size body_len (base ++ e.0) e.1)
    else bounded_body rt max_body_len header_size body_len base s

unfoldable pub check_base : Runtime → ℤ → List ℕ → Stream → Result Reader
check_base rt max_body_len base s =
    if not (same_bytes (take 4 base) magic)
    then err bad_magic
    else if not (get_or base 4 0 == fmt_ver2)
    then err unsupported_ver
    else header_compression_method (get_or base 5 0) >>= after_base rt max_body_len base s

-- NewReaderFromN
unfoldable pub new_reader_from_n : Runtime → Stream → ℤ → Result Reader
new_reader_from_n rt src max_body_len =
    read_full header_size src >>= λ b. check_base rt max_body_len b.0 b.1

-- NewReaderFrom
abbrev pub new_reader_from : Runtime → Stream → Result Reader
new_reader_from rt src = new_reader_from_n rt src (negsuc 0)
