-- ===== src/Writer/Counting.antt =====
-- The Writer in size mode: it counts exactly the bytes of the wire form, and records the size of
-- each region.
pub mod Methods
use gsbm.Common.{
  ℕ, suc, ◌+◌, ◌-◌, ◌^◌, ◌<◌, ◌≡◌, refl, sym, ap, ◌∙◌, Bool, true, false, Bool-cases, inl, inr,
  none, List, [], ◌∷◌, ◌++◌, arith,
}
use gsbm.Common.{
  length, take, get_or, set, length-append, take_prefix, get_or-last, set-middle, append_assoc,
  append-nil, if◌then◌else◌,
}
use gsbm.Varint.{varint_len, append_uvarint}
use gsbm.Varint.Encoding.{varint, length-varint}
use gsbm.Wire.{field_key, zigzag_encode64, le32, le64}
use gsbm.Wire.Keys.{field_key-lt}
use gsbm.Wire.ZigZag.{zigzag_encode64-lt}
use gsbm.Writer.State.{Writer, new_counting_writer, new_recording_size_writer}
use gsbm.Writer.Fields.{
  emit, write_tag, write_uvarint, write_varint, write_bool, write_fixed32, write_fixed64,
  write_bytes, write_presence, presence_nil, presence_non_zero, presence_zero, write_presence_nil,
  write_presence_non_zero, write_presence_zero,
}
use gsbm.Writer.Regions.{begin_length_delim, begin_counted, end_length_delim, end_counted}
use gsbm.Writer.Calls.{
  Call, Calls, tag, uvarint, svarint, fixed32, fixed64, bool, bytes, absent, present, zeroed,
  region, done, next,
}
use gsbm.Writer.Calls.{
  run_call, run, encode_call, encode, IsLegalCall, IsLegal, call_sizes, region_sizes,
}
use gsbm.Writer.Counting.Methods.{
  IsCounting, Counts, unchanged, emit-Counts, write_tag-Counts, varint-Counts, write_bytes-Counts,
  write_presence-Counts, begin_length_delim-Counting, end_length_delim-Counting,
  begin_counted-IsCounting, end_counted-recording, end_counted-plain, region-Counts,
}

both_sizes :
    (b : Bool) (xs ys zs us vs : List ℕ)
    → us ≡ (if b then xs ++ ys else xs)
    → vs ≡ (if b then us ++ zs else us)
    → vs ≡ (if b then xs ++ (ys ++ zs) else xs)
both_sizes true xs ys zs us vs p q = q ∙ ap (λ t. t ++ zs) p ∙ append_assoc xs ys zs
both_sizes false xs ys zs us vs p q = q ∙ p

pub Counts-trans :
    {w w' w'' : Writer} (xs ys ss ts : List ℕ)
    → Counts w xs ss w'
    → Counts w' ys ts w''
    → Counts w (xs ++ ys) (ss ++ ts) w''
Counts-trans {w} {w'} {w''} xs ys ss ts m n = record {
  ready = n.ready;
  size = omega (arith, m.size, n.size, length-append xs ys);
  recording = n.recording ∙ m.recording;
  stack = n.stack ∙ m.stack;
  recorded =
      both_sizes w.record_regions w.recorded_regions ss ts w'.recorded_regions w''.recorded_regions
        m.recorded (rw m.recording at n.recorded);
}

pub Counts-refl : (w : Writer) → IsCounting w → Counts w [] [] w
Counts-refl w r = record {
  ready = r;
  size = omega arith;
  recording = refl;
  stack = refl;
  recorded = unchanged w.record_regions w.recorded_regions;
}

mutual
  unfolding run_call run encode_call encode IsLegalCall IsLegal call_sizes region_sizes
      write_uvarint write_varint write_bool write_fixed32 write_fixed64 write_presence_nil
      write_presence_non_zero write_presence_zero

  pub run_call-Counts :
      (c : Call) (w : Writer)
      → IsCounting w
      → IsLegalCall c
      → Counts w (encode_call c) (call_sizes c) (run_call c w)
  run_call-Counts (tag t wt) w r h = write_tag-Counts w t wt r h
  run_call-Counts (uvarint v) w r h = varint-Counts w v r h
  run_call-Counts (svarint v) w r h = varint-Counts w (zigzag_encode64 v) r (zigzag_encode64-lt v h)
  run_call-Counts (fixed32 v) w r h = emit-Counts w 4 (λ b. b ++ le32 v) (le32 v) r refl
  run_call-Counts (fixed64 v) w r h = emit-Counts w 8 (λ b. b ++ le64 v) (le64 v) r refl
  run_call-Counts (bool b) w r h =
      let one = (if b then 1 else 0) ∷ [] in emit-Counts w 1 (λ buf. buf ++ one) one r refl
  run_call-Counts (bytes p) w r h = write_bytes-Counts w p r h
  run_call-Counts absent w r h = write_presence-Counts w presence_nil r
  run_call-Counts present w r h = write_presence-Counts w presence_non_zero r
  run_call-Counts zeroed w r h = write_presence-Counts w presence_zero r
  run_call-Counts (region cs) w r h =
      let opened = (begin_counted w).1 in
      rw (begin_length_delim-Counting w r) (
        region-Counts w (run cs opened) (encode cs) (region_sizes cs) r
          (run-Counts cs opened (begin_counted-IsCounting w r) h.0) h.1)

  run-Counts :
      (cs : Calls) (w : Writer)
      → IsCounting w
      → IsLegal cs
      → Counts w (encode cs) (region_sizes cs) (run cs w)
  run-Counts done w r h = Counts-refl w r
  run-Counts (next c cs) w r h =
      let m = run_call-Counts c w r h.0 in
      Counts-trans (encode_call c) (encode cs) (call_sizes c) (region_sizes cs) m
        (run-Counts cs (run_call c w) m.ready h.1)

-- On a fresh counting Writer any legal calls leave no error, and Size() is exactly the byte count
-- that the same calls append to a buffered Writer.
pub run_counting :
    (cs : Calls)
    → IsLegal cs
    → let w = run cs new_counting_writer in (w.err ≡ none) × (w.size_acc ≡ length (encode cs))
run_counting cs h =
    let m = run-Counts cs new_counting_writer (record { live = refl; sized = refl }) h in
    (m.ready.live, omega (arith, m.size))

-- The recording Writer also leaves the body size of every region, in the order in which they begin,
-- and an empty region stack.
pub run_recording :
    (cs : Calls)
    → IsLegal cs
    → let w = run cs new_recording_size_writer in
      (w.err ≡ none)
      × (w.size_acc ≡ length (encode cs))
      × (w.recorded_regions ≡ region_sizes cs)
      × (w.region_stack ≡ [])
run_recording cs h =
    let m = run-Counts cs new_recording_size_writer (record { live = refl; sized = refl }) h in
    (m.ready.live, omega (arith, m.size), m.recorded, m.stack)
