-- ===== src/Writer/Replay/Cache.antt =====
-- The plain calls of the Writer and the materialization cache.
use gsbm.Common.{ℕ, ◌≡◌, refl, ◌∙◌, none, List, arith}
use gsbm.Varint.{varint_len, append_uvarint}
use gsbm.Wire.{field_key}
use gsbm.Writer.State.{Writer, after_write, set_err}
use gsbm.Writer.Fields.{
  emit, write_tag, write_uvarint, write_varint, write_bool, write_fixed32, write_fixed64,
  write_bytes, write_presence, write_presence_nil, write_presence_non_zero, write_presence_zero,
}
use gsbm.Writer.Regions.{begin_length_delim, end_length_delim, end_buffered}
use gsbm.Writer.Calls.{
  Call, Calls, tag, uvarint, svarint, fixed32, fixed64, bool, bytes, absent, present, zeroed,
  region, done, next, run_call, run,
}

-- The cache is the same, and the Writer still does not stream.
abbrev pub Leaves : Writer → Writer → Type 0
Leaves w v = (v.scratch ≡ w.scratch) × (v.stream_target ≡ none)

emit-Leaves :
    (w : Writer) (n : ℕ) (f : List ℕ → List ℕ) → w.stream_target ≡ none → Leaves w (emit w n f)
unfolding emit after_write
emit-Leaves w n f t = ground arith

pub begin_length_delim-Leaves :
    (w : Writer) → w.stream_target ≡ none → Leaves w (begin_length_delim w).1
unfolding begin_length_delim
begin_length_delim-Leaves w t = ground arith

pub end_length_delim-Leaves :
    (w : Writer) (marker : ℕ) → w.stream_target ≡ none → Leaves w (end_length_delim w marker)
unfolding end_length_delim end_buffered set_err
end_length_delim-Leaves w marker t = ground arith

mutual
  unfolding run_call run write_tag write_uvarint write_varint write_bool write_fixed32 write_fixed64
      write_bytes write_presence write_presence_nil write_presence_non_zero write_presence_zero
      after_write set_err

  pub run_call-Leaves : (c : Call) (w : Writer) → w.stream_target ≡ none → Leaves w (run_call c w)
  run_call-Leaves (tag t wt) w h = ground (
    arith,
    emit-Leaves w (varint_len (field_key t wt)) (λ (b : List ℕ). append_uvarint b (field_key t wt)),
  )
  run_call-Leaves (uvarint v) w h = emit-Leaves w _ _ h
  run_call-Leaves (svarint v) w h = emit-Leaves w _ _ h
  run_call-Leaves (fixed32 v) w h = emit-Leaves w _ _ h
  run_call-Leaves (fixed64 v) w h = emit-Leaves w _ _ h
  run_call-Leaves (bool b) w h = emit-Leaves w _ _ h
  run_call-Leaves (bytes p) w h = ground arith
  run_call-Leaves absent w h = ground arith
  run_call-Leaves present w h = ground arith
  run_call-Leaves zeroed w h = ground arith
  run_call-Leaves (region cs) w h =
      let opened = (begin_length_delim w).1 in
      let first = begin_length_delim-Leaves w h in
      let inside = run-Leaves cs opened first.1 in
      let last = end_length_delim-Leaves (run cs opened) (begin_length_delim w).0 inside.1 in
      (last.0 ∙ (inside.0 ∙ first.0), last.1)

  pub run-Leaves : (cs : Calls) (w : Writer) → w.stream_target ≡ none → Leaves w (run cs w)
  run-Leaves done w h = (refl, h)
  run-Leaves (next c cs) w h =
      let first = run_call-Leaves c w h in
      let rest = run-Leaves cs (run_call c w) first.1 in (rest.0 ∙ first.0, rest.1)

pub bytes-Leaves : (v : Writer) (g : List ℕ) → v.stream_target ≡ none → Leaves v (write_bytes v g)
unfolding run_call
bytes-Leaves v g t = run_call-Leaves (bytes g) v t
