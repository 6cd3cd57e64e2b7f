-- ===== src/Writer/Regions.antt =====
-- Length-prefixed regions of storage/gsbm/writer.go, and the prefix whose size is known.
pub mod Slot
use gsbm.Common.{
  ℕ, ◌+◌, ◌-◌, Bool, ◌||◌, Option, none, some, List, [], ◌∷◌, ◌++◌, replicate, ℤ, pos, negsuc,
}
use gsbm.Common.{ltb, leb, ◌==◌, if◌then◌else◌, length, take, drop, get_or, set}
use gsbm.Errors.{truncated, body_too_large}
use gsbm.Varint.{varint_len, append_uvarint, put_uvarint}
use gsbm.Writer.State.{Writer, failed, is_none, set_err, after_write}
use gsbm.Writer.Fields.{emit, write_uvarint}

-- WriteLength; `none` is the panic on a negative length.
unfoldable pub write_length : Writer → ℤ → Option Writer
write_length w (negsuc n) = none
write_length w (pos n) = some (emit w (varint_len n) (λ b. append_uvarint b n))

abbrev pub reserved_len_bytes : ℕ
reserved_len_bytes = 5

-- BeginLengthDelim in size mode.
abbrev pub begin_counted : Writer → ℕ × Writer
begin_counted w =
    if w.record_regions
    then (
      w.size_acc,
      record w {
        recorded_regions = w.recorded_regions ++ 0 ∷ [];
        region_stack = w.region_stack ++ length w.recorded_regions ∷ [];
      },
    )
    else (w.size_acc, w)

-- BeginLengthDelim in streaming mode.
abbrev pub begin_streamed : Writer → ℕ × Writer
begin_streamed w =
    let size = get_or w.stream_sizes w.stream_size_idx 0 in
    if leb (length w.stream_sizes) w.stream_size_idx then (0, set_err w truncated) else (
      0,
      after_write
          (record w { buf = append_uvarint w.buf size; stream_size_idx = w.stream_size_idx + 1 }),
    )

-- BeginLengthDelim: the marker for EndLengthDelim, and the Writer.
unfoldable pub begin_length_delim : Writer → ℕ × Writer
begin_length_delim w =
    if failed w.err
    then (0, w)
    else if w.size_only
    then begin_counted w
    else if is_none w.stream_target
    then (length w.buf, record w { buf = w.buf ++ 0 ∷ 0 ∷ 0 ∷ 0 ∷ 0 ∷ [] })
    else begin_streamed w

-- EndLengthDelim in size mode.
abbrev pub end_counted : Writer → ℕ → Writer
end_counted w marker =
    let body_len = w.size_acc - marker in
    let n = length w.region_stack in
    let counted = record w { size_acc = w.size_acc + varint_len body_len } in
    if ltb w.size_acc marker
    then set_err w truncated
    else if w.record_regions
    then if n == 0 then set_err w truncated else record counted {
      region_stack = take (n - 1) w.region_stack;
      recorded_regions = set w.recorded_regions (get_or w.region_stack (n - 1) 0) body_len;
    }
    else counted

-- `copy(b[at:], b[from:])`, which moves the tail of a slice in place and keeps its length.
unfoldable pub copy_down : List ℕ → ℕ → ℕ → List ℕ
copy_down b at from = take at b ++ (drop from b ++ drop (at + length (drop from b)) b)

-- The body moves left over what the length varint of `n` bytes leaves of the slot.
unfoldable pub shift_body : List ℕ → ℕ → ℕ → List ℕ
shift_body b marker n =
    if ltb n reserved_len_bytes
    then take (length b - (reserved_len_bytes - n))
        (copy_down b (marker + n) (marker + reserved_len_bytes))
    else b

-- `putUvarint(b[at:at+n], v)`, which writes through the sub-slice.
unfoldable pub put_at : List ℕ → ℕ → ℕ → ℕ → List ℕ
put_at b at n v = take at b ++ ((put_uvarint (take n (drop at b)) v).0 ++ drop (at + n) b)

-- EndLengthDelim in buffered mode.
unfoldable pub end_buffered : Writer → ℕ → Writer
end_buffered w marker =
    let body_len = length w.buf - marker - reserved_len_bytes in
    let n = varint_len body_len in
    if ltb (length w.buf) (marker + reserved_len_bytes)
    then set_err w truncated
    else if ltb reserved_len_bytes n
    then set_err w body_too_large
    else record w { buf = put_at (shift_body w.buf marker n) marker n body_len }

-- EndLengthDelim
unfoldable pub end_length_delim : Writer → ℕ → Writer
end_length_delim w marker =
    if failed w.err
    then w
    else if w.size_only
    then end_counted w marker
    else if is_none w.stream_target
    then end_buffered w marker
    else w
