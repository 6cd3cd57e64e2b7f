-- ===== src/Tests/Blobs.antt =====
-- Whole blobs: the encode entry points, the header and the codecs.
use gsbm.Common.{ℕ, inr, ◌≡◌, refl, true, none, some, [], ◌∷◌, ◌++◌, length, arith}
use gsbm.Errors.{ok, ◌>>=◌}
use gsbm.Writer.Calls.{encode, done}
use gsbm.Compress.{compression_zstd, compression_gzip, decompress_body}
use gsbm.Compress.{decompress_gzip, read_limited, decompress_zstd_known}
use gsbm.Compress.Bounds.{decompress_body-length}
use gsbm.Reader.State.{new_reader}
use gsbm.Reader.Shapes.{shapes_of}
use gsbm.Reader.Header.{read_header}
use gsbm.Reader.Header.Parsed.{base_header, Reports, read_header-Reports}
use gsbm.Reader.Decode.{decode_into}
use gsbm.Marshal.{Options, marshal, marshal_with_options, marshal_to_writer, extended_header}
use gsbm.Marshal.Blob.{marshaler_of}
use gsbm.Marshal.Streamed.{marshal_to_writer-marshal_with_options}
use gsbm.Marshal.RoundTrip.{root_of, marshal-decode_into, marshal_with_options-decode_into}
use gsbm.Tests.Values.{order, order-IsLegal, length-order, marking, marking-CodecLaws, collector}

abbrev zipped : Options
zipped = record { compress = true; compression = 0 }

marshal-decode_into_example :
    let blob = base_header 0 7 (length (encode order)) ++ encode order in
    (marshal (marshaler_of order) 7 ≡ ok blob)
    × (decode_into (root_of (shapes_of order)) marking blob done ≡ (none, order))
marshal-decode_into_example =
    marshal-decode_into order order-IsLegal marking 7 done (omega arith)
      (omega (arith, length-order))

marshal_with_options-decode_into_example :
    let frame = compression_gzip ∷ encode order in
    let blob = extended_header compression_gzip 7 (length frame) (length (encode order)) ++ frame in
    (marshal_with_options marking (marshaler_of order) 7 zipped ≡ ok blob)
    × (decode_into (root_of (shapes_of order)) marking blob done ≡ (none, order))
marshal_with_options-decode_into_example =
    marshal_with_options-decode_into order order-IsLegal marking marking-CodecLaws 7 zipped
      (compression_gzip ∷ encode order) done (omega arith) (inr refl) refl
      (omega (arith, length-order)) (omega (arith, length-order)) (omega (arith, length-order))

marshal_to_writer-marshal_with_options_example :
    marshal_to_writer marking collector (marshaler_of order) 7 zipped ≡ (
      marshal_with_options marking (marshaler_of order) 7 zipped >>= λ b.
      ok (record collector { written = collector.written ++ b }))
marshal_to_writer-marshal_with_options_example =
    marshal_to_writer-marshal_with_options marking collector (marshaler_of order) 7 zipped
      (λ _ _. refl)

read_header-Reports_example : Reports (read_header marking (new_reader (71 ∷ 83 ∷ [])))
read_header-Reports_example =
    read_header-Reports marking (new_reader (71 ∷ 83 ∷ []))
      (record { before_end = omega arith; inside = omega arith })

two_bytes_out : decompress_body marking compression_zstd (1 ∷ 5 ∷ 6 ∷ []) (some 2) ≡ ok (5 ∷ 6 ∷ [])
unfolding decompress_body decompress_zstd_known
two_bytes_out = refl

decompress_body-length_example : length {A = ℕ} (5 ∷ 6 ∷ []) ≡ 2
decompress_body-length_example =
    decompress_body-length marking compression_zstd (1 ∷ 5 ∷ 6 ∷ []) 2 (5 ∷ 6 ∷ []) two_bytes_out

gzip_out : decompress_gzip marking (2 ∷ 5 ∷ 6 ∷ []) none ≡ ok (5 ∷ 6 ∷ [])
unfolding decompress_gzip read_limited
gzip_out = refl
