-- ===== src/Reader/Fields.antt =====
-- The Read methods for keys, scalars, payloads and presence bytes.
use gsbm.Common.{ℕ, ◌+◌, ◌-◌, ◌/◌, ◌^◌, Bool, not, Option, none, some, List, get_or}
use gsbm.Common.{bit_and, ltb, ◌==◌, if◌then◌else◌}
use gsbm.Errors.{ok, truncated, zero_tag, tag_overflow, reserved_wire, invalid_presence}
use gsbm.Wire.{WireType, max_tag, valid_wire_type, zigzag_decode64, uint32, uint64}
use gsbm.Writer.Fields.{presence_nil, presence_non_zero, presence_zero}
use gsbm.Reader.State.{Reader, Allocator, Outcome, fail, after, guarded, next_uvarint, peek}

-- What ReadTag makes of a key; the position stands behind it already.
unfoldable pub unpack_key : ℕ → Reader → Outcome (ℕ × WireType)
unpack_key v r =
    let wt = bit_and v 0x7 in
    let tag = v / 2 ^ 3 in
    if tag == 0
    then fail r zero_tag
    else if ltb max_tag tag
    then fail r tag_overflow
    else if not (valid_wire_type wt)
    then fail r reserved_wire
    else (ok (tag, wt), r)

-- ReadTag
unfoldable pub read_tag : Reader → Outcome (ℕ × WireType)
read_tag r = guarded r (after (next_uvarint r) unpack_key)

-- ReadUvarint
unfoldable pub read_uvarint_field : Reader → Outcome ℕ
read_uvarint_field r = guarded r (next_uvarint r)

-- ReadVarint
unfoldable pub read_varint : Reader → Outcome ℕ
read_varint r = guarded r (after (next_uvarint r) (λ v r'. (ok (zigzag_decode64 v), r')))

-- ReadBool
unfoldable pub read_bool : Reader → Outcome Bool
read_bool r = guarded r (after (next_uvarint r) (λ v r'. (ok (not (v == 0)), r')))

-- ReadFixed32
unfoldable pub read_fixed32 : Reader → Outcome ℕ
read_fixed32 r = guarded r (
    if ltb (r.end - r.pos) 4
    then fail r truncated
    else (ok (uint32 (peek r 4)), record r { pos = r.pos + 4 }))

-- ReadFixed64
unfoldable pub read_fixed64 : Reader → Outcome ℕ
read_fixed64 r = guarded r (
    if ltb (r.end - r.pos) 8
    then fail r truncated
    else (ok (uint64 (peek r 8)), record r { pos = r.pos + 8 }))

unfoldable pub take_bytes : ℕ → Reader → Outcome (List ℕ)
take_bytes n r =
    if ltb (r.end - r.pos) n
    then fail r truncated
    else (ok (peek r n), record r { pos = r.pos + n })

-- readLenBytes, which is ReadBytes too; neither tests the sticky error.
unfoldable pub read_len_bytes : Reader → Outcome (List ℕ)
read_len_bytes r = after (next_uvarint r) take_bytes

abbrev pub acquire_from : Option Allocator → List ℕ → List ℕ
acquire_from none b = b
acquire_from (some a) b = a.acquire b

-- AcquireString
abbrev pub acquire_string : Reader → List ℕ → List ℕ
acquire_string r b = acquire_from r.alloc b

-- ReadString
unfoldable pub read_string : Reader → Outcome (List ℕ)
read_string r = after (read_len_bytes r) (λ b r'. (ok (acquire_string r' b), r'))

-- ReadPresenceByte on the byte that it consumed.
unfoldable pub check_presence : ℕ → Bool → Reader → Outcome ℕ
check_presence b allow_zero_elide r =
    if not (bit_and b 0xfc == 0)
    then fail r invalid_presence
    else if b == presence_nil
    then (ok b, r)
    else if b == presence_non_zero
    then (ok b, r)
    else if b == presence_zero
    then if not allow_zero_elide then fail r invalid_presence else (ok presence_zero, r)
    else fail r invalid_presence

-- ReadPresenceByte
unfoldable pub read_presence_byte : Reader → Bool → Outcome ℕ
read_presence_byte r allow_zero_elide = guarded r (
    if ltb (r.end - r.pos) 1
    then fail r truncated
    else check_presence (get_or r.buf r.pos 0) allow_zero_elide (record r { pos = r.pos + 1 }))
