-- ===== src/Writer/Streaming/Run.antt =====
-- A streaming Writer given the recorded region sizes delivers the wire form.
use gsbm.Common.{ℕ, suc, ◌≤◌, ◌≡◌, refl, sym, ap, ◌∙◌, none, List, [], ◌∷◌, ◌++◌, arith}
use gsbm.Common.{
  length, drop, drop-drop, drop_prefix, length-append, append_assoc, append-nil, if◌then◌else◌,
}
use gsbm.Varint.Encoding.{varint}
use gsbm.Wire.{zigzag_encode64, le32, le64}
use gsbm.Wire.ZigZag.{zigzag_encode64-lt}
use gsbm.Writer.State.{Sink, Writer, flush_all, new_streaming_writer}
use gsbm.Writer.Fields.{
  write_uvarint, write_varint, write_bool, write_fixed32, write_fixed64, presence_nil,
  presence_non_zero, presence_zero, write_presence_nil, write_presence_non_zero,
  write_presence_zero,
}
use gsbm.Writer.Regions.{begin_streamed}
use gsbm.Writer.Calls.{
  Call, Calls, tag, uvarint, svarint, fixed32, fixed64, bool, bytes, absent, present, zeroed,
  region, done, next,
}
use gsbm.Writer.Calls.{
  run_call, run, encode_call, encode, IsLegalCall, IsLegal, call_sizes, region_sizes,
}
use gsbm.Writer.Streaming.Flush.{
  IsStreaming, Streams, Streams-refl, Streams-join, output, delivered,
}
use gsbm.Writer.Streaming.Flush.{flush_all-Streams}
use gsbm.Writer.Streaming.Methods.{
  emit-Streams, varint-Streams, write_tag-Streams, write_bytes-Streams, write_presence-Streams,
  begin_length_delim-Streaming, end_length_delim-Streaming, begin_streamed-Streams,
}

still_ahead :
    {w w' : Writer} (bs used more : List ℕ)
    → drop w.stream_size_idx w.stream_sizes ≡ used ++ more
    → Streams w bs (length used) w'
    → drop w'.stream_size_idx w'.stream_sizes ≡ more
still_ahead {w} bs used more e m =
    rw (m.sizes, m.index, ← drop-drop (length used) w.stream_size_idx w.stream_sizes, e)
      (drop_prefix (length used) used more refl)

mutual
  unfolding run_call run encode_call encode IsLegalCall IsLegal call_sizes region_sizes
      write_uvarint write_varint write_bool write_fixed32 write_fixed64 write_presence_nil
      write_presence_non_zero write_presence_zero

  run_call-Streams :
      (c : Call) (w : Writer) (more : List ℕ)
      → IsStreaming w
      → IsLegalCall c
      → drop w.stream_size_idx w.stream_sizes ≡ call_sizes c ++ more
      → Streams w (encode_call c) (length (call_sizes c)) (run_call c w)
  run_call-Streams (tag t wt) w more r h e = write_tag-Streams w t wt r h
  run_call-Streams (uvarint v) w more r h e = varint-Streams w v r h
  run_call-Streams (svarint v) w more r h e =
      varint-Streams w (zigzag_encode64 v) r (zigzag_encode64-lt v h)
  run_call-Streams (fixed32 v) w more r h e = emit-Streams w 4 (λ b. b ++ le32 v) (le32 v) r refl
  run_call-Streams (fixed64 v) w more r h e = emit-Streams w 8 (λ b. b ++ le64 v) (le64 v) r refl
  run_call-Streams (bool b) w more r h e =
      let one = (if b then 1 else 0) ∷ [] in emit-Streams w 1 (λ buf. buf ++ one) one r refl
  run_call-Streams (bytes p) w more r h e = write_bytes-Streams w p r h
  run_call-Streams absent w more r h e = write_presence-Streams w presence_nil r
  run_call-Streams present w more r h e = write_presence-Streams w presence_non_zero r
  run_call-Streams zeroed w more r h e = write_presence-Streams w presence_zero r
  run_call-Streams (region cs) w more r h e =
      let n = length (encode cs) in
      let w' = (begin_streamed w).1 in
      let opened = begin_streamed-Streams w n (region_sizes cs ++ more) r e h.1 in
      let body =
        run-Streams cs w' more opened.ready h.0
          (still_ahead (varint n) (n ∷ []) (region_sizes cs ++ more) e opened) in
      rw (begin_length_delim-Streaming w r, end_length_delim-Streaming (run cs w') _ body.ready)
        (Streams-join (varint n) (encode cs) 1 (length (region_sizes cs)) (varint n ++ encode cs)
          (suc (length (region_sizes cs))) refl (omega arith) opened body)

  run-Streams :
      (cs : Calls) (w : Writer) (more : List ℕ)
      → IsStreaming w
      → IsLegal cs
      → drop w.stream_size_idx w.stream_sizes ≡ region_sizes cs ++ more
      → Streams w (encode cs) (length (region_sizes cs)) (run cs w)
  run-Streams done w more r h e = Streams-refl w r
  run-Streams (next c cs) w more r h e =
      let e' : drop w.stream_size_idx w.stream_sizes ≡ call_sizes c ++ (region_sizes cs ++ more) =
        e ∙ append_assoc (call_sizes c) (region_sizes cs) more in
      let m = run_call-Streams c w (region_sizes cs ++ more) r h.0 e' in
      let rest =
        run-Streams cs (run_call c w) more m.ready h.1
          (still_ahead (encode_call c) (call_sizes c) (region_sizes cs ++ more) e' m) in
      Streams-join (encode_call c) (encode cs) (length (call_sizes c)) (length (region_sizes cs)) _
        _ refl (length-append (call_sizes c) (region_sizes cs)) m rest

-- From any streaming Writer whose recorded sizes ahead are those of the calls.
pub run-flush_all :
    (cs : Calls) (w : Writer)
    → IsStreaming w
    → IsLegal cs
    → drop w.stream_size_idx w.stream_sizes ≡ region_sizes cs
    → let w' = flush_all (run cs w) in
      ((run cs w).err ≡ none)
      × (w'.err ≡ none)
      × (w'.buf ≡ [])
      × (delivered w'.stream_target ≡ output w ++ encode cs)
run-flush_all cs w r h e =
    let m = run-Streams cs w [] r h (e ∙ sym (append-nil (region_sizes cs))) in
    let (f, empty) = flush_all-Streams (run cs w) m.ready in
    let all = f.out ∙ append-nil (output (run cs w)) ∙ m.out in
    (m.ready.live, f.ready.live, empty, sym (append-nil _) ∙ rw empty at all)

-- A streaming Writer that is given the region sizes of any legal calls, over an `io.Writer` that
-- accepts every payload and with any positive threshold, ends without an error, and after `flushAll`
-- the `io.Writer` has received exactly the wire form behind what it had.
pub run_streaming :
    (cs : Calls) (target : Sink) (threshold : ℕ)
    → IsLegal cs
    → 1 ≤ threshold
    → ((taken p : List ℕ) → target.fault taken p ≡ none)
    → let w = flush_all (run cs (new_streaming_writer target (region_sizes cs) threshold)) in
      (w.err ≡ none) × (w.buf ≡ []) × (delivered w.stream_target ≡ target.written ++ encode cs)
run_streaming cs target threshold h room accepts =
    let w = new_streaming_writer target (region_sizes cs) threshold in
    let r : IsStreaming w = record {
      sink = target;
      live = refl;
      sized = refl;
      target = refl;
      accepts = accepts;
      room = room;
    } in
    let (_, live, empty, all) = run-flush_all cs w r h refl in
    (live, empty, all ∙ ap (λ t. t ++ encode cs) (append-nil target.written))
