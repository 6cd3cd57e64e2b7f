-- ===== src/Writer/Fields.antt =====
-- The Write methods for headers, keys, scalars, payloads and presence bytes.
use gsbm.Common.{ℕ, ◌+◌, ◌-◌, ◌^◌, Bool, ◌||◌, List, [], ◌∷◌, ◌++◌}
use gsbm.Common.{ltb, ◌==◌, if◌then◌else◌, length, take, drop, not}
use gsbm.Errors.{zero_tag, tag_overflow, reserved_wire, body_too_large}
use gsbm.Varint.{varint_len, append_uvarint}
use gsbm.Wire.{WireType, max_tag, valid_wire_type, field_key, zigzag_encode64, le16, le32, le64}
use gsbm.Writer.State.{Writer, failed, is_none, set_err, after_write, write_chunked}

-- The common body of the Write methods: nothing once an error is set, a count in size mode, and
-- otherwise the bytes and `afterWrite`.
unfoldable pub emit : Writer → ℕ → (List ℕ → List ℕ) → Writer
emit w n append =
    if failed w.err
    then w
    else if w.size_only
    then record w { size_acc = w.size_acc + n }
    else after_write (record w { buf = append w.buf })

abbrev pub magic : List ℕ
magic = b'G' ∷ b'S' ∷ b'B' ∷ b'M' ∷ []

abbrev pub fmt_ver2 : ℕ
fmt_ver2 = 2

abbrev pub header_size : ℕ
header_size = 12

-- WriteHeader; there is no `afterWrite`.
unfoldable pub write_header : Writer → ℕ → ℕ → ℕ → Writer
write_header w flags hint body_len =
    if failed w.err
    then w
    else if w.size_only
    then record w { size_acc = w.size_acc + header_size }
    else record w { buf = w.buf ++ (magic ++ fmt_ver2 ∷ flags ∷ (le16 hint ++ le32 body_len)) }

-- FinalizeBodyLen
unfoldable pub finalize_body_len : Writer → Writer
finalize_body_len w =
    let body_len = length w.buf - header_size in
    if failed w.err || w.size_only || ltb (length w.buf) header_size
    then w
    else if ltb (2 ^ 32 - 1) body_len
    then set_err w body_too_large
    else record w { buf = take 8 w.buf ++ (le32 body_len ++ drop 12 w.buf) }

-- WriteTag
unfoldable pub write_tag : Writer → ℕ → WireType → Writer
write_tag w tag wt =
    if failed w.err
    then w
    else if tag == 0
    then set_err w zero_tag
    else if ltb max_tag tag
    then set_err w tag_overflow
    else if not (valid_wire_type wt)
    then set_err w reserved_wire
    else emit w (varint_len (field_key tag wt)) (λ b. append_uvarint b (field_key tag wt))

-- WriteUvarint
unfoldable pub write_uvarint : Writer → ℕ → Writer
write_uvarint w v = emit w (varint_len v) (λ b. append_uvarint b v)

-- WriteVarint
unfoldable pub write_varint : Writer → ℕ → Writer
write_varint w v =
    emit w (varint_len (zigzag_encode64 v)) (λ b. append_uvarint b (zigzag_encode64 v))

-- WriteBool
unfoldable pub write_bool : Writer → Bool → Writer
write_bool w b = emit w 1 (λ buf. buf ++ (if b then 1 else 0) ∷ [])

-- WriteFixed32
unfoldable pub write_fixed32 : Writer → ℕ → Writer
write_fixed32 w v = emit w 4 (λ b. b ++ le32 v)

-- WriteFixed64
unfoldable pub write_fixed64 : Writer → ℕ → Writer
write_fixed64 w v = emit w 8 (λ b. b ++ le64 v)

-- WriteString and WriteBytes
unfoldable pub write_bytes : Writer → List ℕ → Writer
write_bytes w p =
    let b = append_uvarint w.buf (length p) in
    if failed w.err
    then w
    else if w.size_only
    then record w { size_acc = w.size_acc + (varint_len (length p) + length p) }
    else if is_none w.stream_target
    then after_write (record w { buf = b ++ p })
    else write_chunked (record w { buf = b }) p

-- WritePresenceNil, WritePresenceNonZero and WritePresenceZero; there is no `afterWrite`.
unfoldable pub write_presence : Writer → ℕ → Writer
write_presence w state =
    if failed w.err
    then w
    else if w.size_only
    then record w { size_acc = w.size_acc + 1 }
    else record w { buf = w.buf ++ state ∷ [] }

abbrev pub presence_nil : ℕ
presence_nil = 0x00

abbrev pub presence_non_zero : ℕ
presence_non_zero = 0x01

abbrev pub presence_zero : ℕ
presence_zero = 0x03

unfoldable pub write_presence_nil : Writer → Writer
write_presence_nil w = write_presence w presence_nil

unfoldable pub write_presence_non_zero : Writer → Writer
write_presence_non_zero w = write_presence w presence_non_zero

unfoldable pub write_presence_zero : Writer → Writer
write_presence_zero w = write_presence w presence_zero
