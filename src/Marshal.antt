-- ===== src/Marshal.antt =====
-- The encode entry points of storage/gsbm/gsbm.go: the size pass, the write pass, the header, and
-- the compressed path that streams the body through a codec's encoder.
pub mod Blob
pub mod RoundTrip
pub mod Streamed
use gsbm.Common.{
  ℕ, ◌+◌, ◌-◌, ◌^◌, ◌≤◌, Bool, true, false, not, Option, none, some, List, [], ◌∷◌, ◌++◌, length,
}
use gsbm.Common.{bit_or, ltb, if◌then◌else◌}
use gsbm.Errors.{Error, Result, ok, err, ◌>>=◌, body_too_large, unsupported_compression}
use gsbm.Wire.{le16, le32}
use gsbm.Writer.State.{
  Sink, Writer, new_writer, new_counting_writer, new_recording_size_writer, new_streaming_writer,
  flush_all,
}
use gsbm.Writer.Fields.{magic, fmt_ver2, write_header}
use gsbm.Writer.Cached.{adopt_scratch}
use gsbm.Compress.{
  CompressionMethod, compression_none, default_compression, compresses, valid_compression_method,
  extended_header_bit, Runtime,
}

-- Marshaler: what MarshalGSBM returns, and the Writer that it leaves.
pub record Marshaler : Type 0 where
  pub marshal_gsbm : Writer → Option Error × Writer

-- Options
pub record Options : Type 0 where
  pub compress : Bool
  pub compression : CompressionMethod

-- Options.method
abbrev pub method : Options → CompressionMethod
method o =
    if compresses o.compression
    then o.compression
    else if o.compress
    then default_compression
    else compression_none

-- streamFlushThreshold
abbrev pub stream_flush_threshold : ℕ
stream_flush_threshold = 8192

abbrev pub checked : Option Error → Writer → Result Writer
checked none w = ok w
checked (some e) w = err e

abbrev pub returned : Option Error × Writer → Result Writer
returned (none, w) = checked w.err w
returned (some e, w) = err e

-- `v.MarshalGSBM(w)`, then `w.Err()`.
unfoldable pub pass : Marshaler → Writer → Result Writer
pass v w = returned (v.marshal_gsbm w)

-- The guard on a length that a 32-bit field must hold.
abbrev pub within_u32 : {A : Type 0} → ℕ → Result A → Result A
within_u32 n k = if ltb (2 ^ 32 - 1) n then err body_too_large else k

-- marshalUncompressed behind its size pass
unfoldable pub write_pass : Marshaler → ℕ → Writer → Result (List ℕ)
write_pass v hint sw = within_u32 sw.size_acc (
    pass v (write_header (adopt_scratch (new_writer []) sw).0 0 hint sw.size_acc) >>= λ bw.
    ok bw.buf)

-- marshalUncompressed
unfoldable pub marshal_uncompressed : Marshaler → ℕ → Result (List ℕ)
marshal_uncompressed v hint = pass v new_counting_writer >>= write_pass v hint

-- Marshal
abbrev pub marshal : Marshaler → ℕ → Result (List ℕ)
marshal v hint = marshal_uncompressed v hint

abbrev pub taken : Option Sink → List ℕ
taken none = []
taken (some s) = s.written

-- The extended header that marshalCompressedStreaming fills in.
abbrev pub extended_header : CompressionMethod → ℕ → ℕ → ℕ → List ℕ
extended_header m hint compressed_len raw_len =
    magic
    ++ fmt_ver2
      ∷ bit_or m extended_header_bit
      ∷ (le16 hint ++ (le32 compressed_len ++ le32 raw_len))

-- What follows the last flush: the encoder is closed, and its frame gets the header.
unfoldable pub close_frame : Runtime → ℕ → CompressionMethod → ℕ → Writer → Result (List ℕ × List ℕ)
close_frame rt hint m raw_len bw = rt.encode m (taken bw.stream_target) >>= λ frame.
    within_u32 (length frame) (ok (extended_header m hint (length frame) raw_len, frame))

-- marshalCompressedStreaming behind its size pass
unfoldable pub stream_pass :
    Runtime → Marshaler → ℕ → CompressionMethod → Writer → Result (List ℕ × List ℕ)
stream_pass rt v hint m sw =
    let enc : Sink = record { written = []; fault = rt.write_fault m } in
    let bw =
      (adopt_scratch (new_streaming_writer enc sw.recorded_regions stream_flush_threshold) sw).0 in
    within_u32 sw.size_acc (
      pass v bw >>= λ w.
      checked (flush_all w).err (flush_all w) >>= close_frame rt hint m sw.size_acc)

-- The header and the frame that marshalCompressedStreaming writes at its end.
unfoldable pub compressed_parts :
    Runtime → Marshaler → ℕ → CompressionMethod → Result (List ℕ × List ℕ)
compressed_parts rt v hint m = pass v new_recording_size_writer >>= stream_pass rt v hint m

-- `w.Write(p)` on an `io.Writer`
abbrev pub write_to : Sink → List ℕ → Option Error → Result Sink
write_to s p none = ok (record s { written = s.written ++ p })
write_to s p (some e) = err e

unfoldable pub send : Sink → List ℕ → Result Sink
send s p = write_to s p (s.fault s.written p)

-- marshalCompressedStreaming; after an error the `io.Writer` is not looked at again.
unfoldable pub marshal_compressed_streaming :
    Runtime → Sink → Marshaler → ℕ → CompressionMethod → Result Sink
marshal_compressed_streaming rt w v hint m =
    compressed_parts rt v hint m >>= λ p. send w p.0 >>= λ w'. send w' p.1

-- A `bytes.Buffer`, whose Write has no error.
abbrev pub empty_buffer : Sink
empty_buffer = record { written = []; fault = λ _ _. none }

-- marshalCompressed
unfoldable pub marshal_compressed : Runtime → Marshaler → ℕ → CompressionMethod → Result (List ℕ)
marshal_compressed rt v hint m =
    marshal_compressed_streaming rt empty_buffer v hint m >>= λ b. ok b.written

-- MarshalWithOptions
unfoldable pub marshal_with_options : Runtime → Marshaler → ℕ → Options → Result (List ℕ)
marshal_with_options rt v hint opts =
    if not (valid_compression_method (method opts))
    then err unsupported_compression
    else if not (compresses (method opts))
    then marshal_uncompressed v hint
    else marshal_compressed rt v hint (method opts)

-- MarshalToWriter
unfoldable pub marshal_to_writer : Runtime → Sink → Marshaler → ℕ → Options → Result Sink
marshal_to_writer rt w v hint opts =
    if not (valid_compression_method (method opts))
    then err unsupported_compression
    else if not (compresses (method opts))
    then marshal_uncompressed v hint >>= send w
    else marshal_compressed_streaming rt w v hint (method opts)
