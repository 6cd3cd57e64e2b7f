-- ===== src/Marshal/Blob.antt =====
-- What the encode entry points produce for a value whose MarshalGSBM makes legal calls.
use gsbm.Common.{ℕ, ◌^◌, ◌≤◌, ◌<◌, ◌≡◌, refl, ap, ◌∙◌, Option, none, some, List, [], ◌++◌, arith}
use gsbm.Common.{length}
use gsbm.Errors.{Error, Result, ok, err, ◌>>=◌, body_too_large}
use gsbm.Writer.State.{
  Sink, Writer, new_writer, new_counting_writer, new_recording_size_writer, new_streaming_writer,
  flush_all,
}
use gsbm.Writer.Fields.{write_header}
use gsbm.Writer.Cached.{adopt_scratch}
use gsbm.Writer.Calls.{Calls, run, encode, IsLegal, region_sizes}
use gsbm.Writer.Buffered.{run_buffered}
use gsbm.Writer.Counting.{run_counting, run_recording}
use gsbm.Writer.Streaming.Flush.{IsStreaming, delivered}
use gsbm.Writer.Streaming.Run.{run-flush_all}
use gsbm.Compress.{CompressionMethod, Runtime}
use gsbm.Compress.Codec.{CodecLaws}
use gsbm.Reader.Header.Parsed.{base_header}
use gsbm.Marshal.{
  Marshaler, pass, within_u32, write_pass, marshal_uncompressed, close_frame, stream_pass,
  compressed_parts, extended_header, stream_flush_threshold, returned, checked, taken,
}

-- A MarshalGSBM that makes the calls and returns `w.Err()`.
abbrev pub marshaler_of : Calls → Marshaler
marshaler_of cs = record { marshal_gsbm = λ w. ((run cs w).err, run cs w) }

checked-live : (x : Option Error) (w : Writer) → x ≡ none → checked x w ≡ ok w
checked-live none w e = refl
checked-live (some x) w e = cc

returned-live : (x : Option Error) (w : Writer) → x ≡ none → w.err ≡ none → returned (x, w) ≡ ok w
returned-live none w e d = checked-live w.err w d
returned-live (some x) w e d = cc

pass-run :
    (cs : Calls) (w : Writer) → (run cs w).err ≡ none → pass (marshaler_of cs) w ≡ ok (run cs w)
unfolding pass
pass-run cs w e = returned-live (run cs w).err (run cs w) e e

within_u32-lt : {A : Type 0} (n : ℕ) (k : Result A) → n < 2 ^ 32 → within_u32 n k ≡ k
within_u32-lt n k h = ground arith

taken-delivered : (s : Option Sink) → taken s ≡ delivered s
taken-delivered none = refl
taken-delivered (some s) = refl

close_frame-encode :
    (rt : Runtime) (hint m raw : ℕ) (w : Writer) (body frame : List ℕ)
    → w.err ≡ none
    → delivered w.stream_target ≡ body
    → rt.encode m body ≡ ok frame
    → length frame < 2 ^ 32
    → (checked w.err w >>= close_frame rt hint m raw)
      ≡ ok (extended_header m hint (length frame) raw, frame)
unfolding close_frame
close_frame-encode rt hint m raw w body frame live all e k =
    rw (checked-live w.err w live, taken-delivered w.stream_target, all, e)
      (within_u32-lt (length frame) _ k)

module _ (cs : Calls) (h : IsLegal cs) (hint : ℕ) where
  write_pass-run :
      (sw : Writer)
      → sw.size_acc ≡ length (encode cs)
      → length (encode cs) < 2 ^ 32
      → write_pass (marshaler_of cs) hint sw
        ≡ ok (base_header 0 hint (length (encode cs)) ++ encode cs)
  unfolding write_pass adopt_scratch write_header
  write_pass-run sw size small =
      let w : Writer =
        write_header (adopt_scratch (new_writer []) sw).0 0 hint (length (encode cs)) in
      let (live, out) = run_buffered cs w (record { live = refl; sized = refl; target = refl }) h in
      ap
        (λ n. within_u32 n (
          pass (marshaler_of cs) (write_header (adopt_scratch (new_writer []) sw).0 0 hint n)
          >>= λ bw. ok bw.buf))
        size
      ∙ within_u32-lt (length (encode cs)) _ small
      ∙ rw (pass-run cs w live) (ap (λ b. ok b) out)

  pub marshal_uncompressed-run :
      length (encode cs) < 2 ^ 32
      → marshal_uncompressed (marshaler_of cs) hint
        ≡ ok (base_header 0 hint (length (encode cs)) ++ encode cs)
  unfolding marshal_uncompressed
  marshal_uncompressed-run small =
      let (live, size) = run_counting cs h in
      rw (pass-run cs new_counting_writer live)
        (write_pass-run (run cs new_counting_writer) size small)

  -- A value over 4 GiB is refused before any byte is written.
  pub marshal_uncompressed-too_large :
      2 ^ 32 ≤ length (encode cs) → marshal_uncompressed (marshaler_of cs) hint ≡ err body_too_large
  unfolding marshal_uncompressed write_pass
  marshal_uncompressed-too_large large =
      let (live, size) = run_counting cs h in
      rw (pass-run cs new_counting_writer live, size) (ground arith)

  module _ (rt : Runtime) (laws : CodecLaws rt) (m : CompressionMethod) where
    -- The streaming writer over the encoder hands it the whole body.
    stream_pass-run :
        (sw : Writer) (frame : List ℕ)
        → sw.size_acc ≡ length (encode cs)
        → sw.recorded_regions ≡ region_sizes cs
        → length (encode cs) < 2 ^ 32
        → rt.encode m (encode cs) ≡ ok frame
        → length frame < 2 ^ 32
        → stream_pass rt (marshaler_of cs) hint m sw
          ≡ ok (extended_header m hint (length frame) (length (encode cs)), frame)
    unfolding stream_pass adopt_scratch
    stream_pass-run sw frame size regions small e k =
        let enc : Sink = record { written = []; fault = rt.write_fault m } in
        let bw =
          (adopt_scratch (new_streaming_writer enc sw.recorded_regions stream_flush_threshold)
            sw).0 in
        let r : IsStreaming bw = record {
          sink = enc;
          live = refl;
          sized = refl;
          target = refl;
          accepts = laws.accepts m;
          room = omega arith;
        } in
        let (live, done, empty, all) = run-flush_all cs bw r h regions in
        rw (size, within_u32-lt (length (encode cs)) _ small, pass-run cs bw live)
          (close_frame-encode rt hint m (length (encode cs)) (flush_all (run cs bw)) (encode cs)
            frame done all e k)

    pub compressed_parts-run :
        (frame : List ℕ)
        → length (encode cs) < 2 ^ 32
        → rt.encode m (encode cs) ≡ ok frame
        → length frame < 2 ^ 32
        → compressed_parts rt (marshaler_of cs) hint m
          ≡ ok (extended_header m hint (length frame) (length (encode cs)), frame)
    unfolding compressed_parts
    compressed_parts-run frame small e k =
        let (live, size, regions, _) = run_recording cs h in
        rw (pass-run cs new_recording_size_writer live)
          (stream_pass-run (run cs new_recording_size_writer) frame size regions small e k)
