-- ===== src/Writer/Sticky.antt =====
-- The sticky error of writer.go: after the first error every call is a no-op.
use gsbm.Common.{ℕ, ◌≡◌, refl, some, List, arith}
use gsbm.Errors.{Error}
use gsbm.Writer.State.{Writer}
use gsbm.Writer.Fields.{
  emit, write_tag, write_uvarint, write_varint, write_bool, write_fixed32, write_fixed64,
  write_bytes, write_presence, write_presence_nil, write_presence_non_zero, write_presence_zero,
}
use gsbm.Writer.Regions.{begin_length_delim, end_length_delim}
use gsbm.Writer.Calls.{
  Call, Calls, tag, uvarint, svarint, fixed32, fixed64, bool, bytes, absent, present, zeroed,
  region, done, next,
}
use gsbm.Writer.Calls.{run_call, run}

module _ (w : Writer) (e : Error) (h : w.err ≡ some e) where
  emit-failed : (n : ℕ) (f : List ℕ → List ℕ) → emit w n f ≡ w
  unfolding emit
  emit-failed n f = ground arith

  write_tag-failed : (t wt : ℕ) → write_tag w t wt ≡ w
  unfolding write_tag
  write_tag-failed t wt = ground arith

  write_bytes-failed : (p : List ℕ) → write_bytes w p ≡ w
  unfolding write_bytes
  write_bytes-failed p = ground arith

  write_presence-failed : (s : ℕ) → write_presence w s ≡ w
  unfolding write_presence
  write_presence-failed s = ground arith

  begin_length_delim-failed : (begin_length_delim w).1 ≡ w
  unfolding begin_length_delim
  begin_length_delim-failed = ground arith

  end_length_delim-failed : (marker : ℕ) → end_length_delim w marker ≡ w
  unfolding end_length_delim
  end_length_delim-failed marker = ground arith

mutual
  unfolding run_call run write_uvarint write_varint write_bool write_fixed32 write_fixed64
      write_presence_nil write_presence_non_zero write_presence_zero

  call_failed : (c : Call) (w : Writer) (e : Error) → w.err ≡ some e → run_call c w ≡ w
  call_failed (tag t wt) w e h = write_tag-failed w e h t wt
  call_failed (uvarint v) w e h = emit-failed w e h _ _
  call_failed (svarint v) w e h = emit-failed w e h _ _
  call_failed (fixed32 v) w e h = emit-failed w e h _ _
  call_failed (fixed64 v) w e h = emit-failed w e h _ _
  call_failed (bool b) w e h = emit-failed w e h _ _
  call_failed (bytes p) w e h = write_bytes-failed w e h p
  call_failed absent w e h = write_presence-failed w e h _
  call_failed present w e h = write_presence-failed w e h _
  call_failed zeroed w e h = write_presence-failed w e h _
  call_failed (region cs) w e h =
      rw (begin_length_delim-failed w e h, calls_failed cs w e h) (end_length_delim-failed w e h _)

  calls_failed : (cs : Calls) (w : Writer) (e : Error) → w.err ≡ some e → run cs w ≡ w
  calls_failed done w e h = refl
  calls_failed (next c cs) w e h = rw (call_failed c w e h) (calls_failed cs w e h)

-- Once a Writer of any mode has an error, any calls, legal or not and with regions nested to any
-- depth, leave it exactly as it is: the error, the buffer, the counts and the stream.
pub run-failed : (cs : Calls) (w : Writer) (e : Error) → w.err ≡ some e → run cs w ≡ w
run-failed cs w e h = calls_failed cs w e h
