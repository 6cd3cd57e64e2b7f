-- ===== src/Reader/Regions.antt =====
-- Counts, bounded regions and skipping of storage/gsbm/reader.go.
use gsbm.Common.{ℕ, ◌+◌, ◌-◌, not, ltb, ◌==◌, if◌then◌else◌}
use gsbm.Errors.{ok, truncated, trailing_bytes, reserved_wire}
use gsbm.Wire.{WireType, wire_varint, wire_fixed64, wire_length_delim, wire_fixed32}
use gsbm.Reader.State.{Reader, Outcome, fail, after, guarded, next_uvarint}

-- ReadLength; it does not test the sticky error.
unfoldable pub read_length : Reader → Outcome ℕ
read_length r =
    after (next_uvarint r)
      (λ v r'. if ltb (r'.end - r'.pos) v then fail r' truncated else (ok v, r'))

-- BeginLengthDelim: the bound to restore, and the narrowed Reader.
unfoldable pub begin_length_delim : Reader → Outcome ℕ
begin_length_delim r = after (next_uvarint r) (λ n r'.
    if ltb (r'.end - r'.pos) n
    then fail r' truncated
    else (ok r'.end, record r' { end = r'.pos + n }))

-- EndLengthDelim
unfoldable pub end_length_delim : Reader → ℕ → Outcome (Unit {0})
end_length_delim r saved_end =
    guarded r (
      if not (r.pos == r.end) then fail r trailing_bytes else (ok tt, record r { end = saved_end }))

-- `r.pos += n` after the test that n bytes are left.
unfoldable pub skip_bytes : ℕ → Reader → Outcome (Unit {0})
skip_bytes n r =
    if ltb (r.end - r.pos) n then fail r truncated else (ok tt, record r { pos = r.pos + n })

-- SkipField
unfoldable pub skip_field : Reader → WireType → Outcome (Unit {0})
skip_field r wt = guarded r (
    if wt == wire_varint
    then after (next_uvarint r) (λ v r'. (ok tt, r'))
    else if wt == wire_fixed64
    then skip_bytes 8 r
    else if wt == wire_fixed32
    then skip_bytes 4 r
    else if wt == wire_length_delim
    then after (next_uvarint r) skip_bytes
    else fail r reserved_wire)
