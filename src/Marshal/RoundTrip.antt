-- ===== src/Marshal/RoundTrip.antt =====
-- Encode, then decode: the whole path through headers, codecs and the two passes.
use gsbm.Common.{
  ℕ, ◌⊎◌, inl, inr, ◌+◌, ◌^◌, ◌≤◌, ◌<◌, ◌≡◌, refl, sym, ap, ◌∙◌, Option, none, some, List, [], ◌++◌,
  arith, append-nil,
}
use gsbm.Common.{length, take_all, if◌then◌else◌, not}
use gsbm.Errors.{Error, ok, err}
use gsbm.Wire.{le32}
use gsbm.Writer.Calls.{Calls, done, encode, IsLegal}
use gsbm.Compress.{
  compression_zstd, compression_gzip, compresses, valid_compression_method,
  decoder_max_decompressed_size, extended_header_bit, Runtime, decompress_body,
}
use gsbm.Compress.Codec.{CodecLaws, decompress_body-encode}
use gsbm.Reader.State.{Reader, Outcome, new_reader}
use gsbm.Reader.Cursor.{At, advanced}
use gsbm.Reader.Shapes.{Shapes, shapes_of, read_shapes}
use gsbm.Reader.Shapes.Back.{read_shapes-back}
use gsbm.Reader.Header.Parsed.{base_header}
use gsbm.Reader.Header.Written.{read_header-plain, read_header-extended}
use gsbm.Reader.Decode.{GsbmRoot, decode_into}
use gsbm.Marshal.{
  Marshaler, Options, method, marshal, compressed_parts, extended_header,
  marshal_compressed_streaming, marshal_compressed, marshal_with_options, send,
}
use gsbm.Marshal.Blob.{marshaler_of, marshal_uncompressed-run, compressed_parts-run}

abbrev unmarshalled : Calls → Outcome Calls → Option Error × Calls × Reader
unmarshalled old (ok cs, r) = (none, cs, r)
unmarshalled old (err e, r) = (some e, old, r)

-- A root whose value is the calls that would write it, decoded by the Read calls of a shape.
abbrev pub root_of : Shapes → GsbmRoot Calls
root_of ss = record {
  reset = λ _. done;
  unmarshal_gsbm = λ old r. unmarshalled old (read_shapes ss r);
}

codec_branch :
    {A : Type 0} (m : ℕ) (x y : A) (z : A)
    → (m ≡ compression_zstd) ⊎ (m ≡ compression_gzip)
    → (if not (valid_compression_method m) then x else if not (compresses m) then y else z) ≡ z
codec_branch m x y z (inl c) = rw c refl
codec_branch m x y z (inr c) = rw c refl

marshal_with_options-codec :
    (rt : Runtime) (v : Marshaler) (hint : ℕ) (opts : Options)
    → (method opts ≡ compression_zstd) ⊎ (method opts ≡ compression_gzip)
    → marshal_with_options rt v hint opts ≡ marshal_compressed rt v hint (method opts)
unfolding marshal_with_options
marshal_with_options-codec rt v hint opts c = codec_branch (method opts) _ _ _ c

extended_header-base :
    (m hint k n : ℕ) (frame : List ℕ)
    → (m ≡ compression_zstd) ⊎ (m ≡ compression_gzip)
    → extended_header m hint k n ++ frame
      ≡ base_header (m + extended_header_bit) hint k ++ (le32 n ++ frame)
extended_header-base m hint k n frame (inl c) = rw c refl
extended_header-base m hint k n frame (inr c) = rw c refl

module _ (cs : Calls) (h : IsLegal cs) where
  -- From a valid Reader at the body.
  decodes :
      (r : Reader)
      → At r (encode cs) []
      → read_shapes (shapes_of cs) r ≡ (ok cs, advanced r (length (encode cs)))
  decodes r a = read_shapes-back cs r [] h a

  pub decode_into-base_header :
      (rt : Runtime) (hint : ℕ) (old : Calls)
      → hint < 2 ^ 16
      → length (encode cs) < 2 ^ 32
      → decode_into
          (root_of (shapes_of cs))
          rt
          (base_header 0 hint (length (encode cs)) ++ encode cs)
          old
        ≡ (none, cs)
  unfolding decode_into
  decode_into-base_header rt hint old short small =
      let src = base_header 0 hint (length (encode cs)) ++ encode cs in
      rw
        (
          read_header-plain rt hint short (encode cs) small,
          decodes (record (new_reader src) { pos = 12 })
              (record {
                live = refl;
                valid = record { before_end = omega arith; inside = omega arith };
                ahead =
                    take_all (length (encode cs)) (encode cs) (omega arith)
                    ∙ sym (append-nil (encode cs));
              }),
        )
        refl

  pub decode_into-extended_header :
      (rt : Runtime) (hint m : ℕ) (frame : List ℕ) (old : Calls)
      → hint < 2 ^ 16
      → (m ≡ compression_zstd) ⊎ (m ≡ compression_gzip)
      → length frame < 2 ^ 32
      → length (encode cs) < 2 ^ 32
      → length (encode cs) ≤ decoder_max_decompressed_size rt
      → decompress_body rt m frame (some (length (encode cs))) ≡ ok (encode cs)
      → decode_into
          (root_of (shapes_of cs))
          rt
          (base_header (m + extended_header_bit) hint (length frame)
            ++ (le32 (length (encode cs)) ++ frame))
          old
        ≡ (none, cs)
  unfolding decode_into
  decode_into-extended_header rt hint m frame old short c k small cap e =
      let n = length (encode cs) in
      let src = base_header (m + extended_header_bit) hint (length frame) ++ (le32 n ++ frame) in
      rw
        (
          read_header-extended rt hint short m n frame (encode cs) c k small cap e,
          decodes (record (new_reader src) { buf = encode cs; pos = 0; end = n })
              (record {
                live = refl;
                valid = record { before_end = omega arith; inside = omega arith };
                ahead = take_all n (encode cs) (omega arith) ∙ sym (append-nil (encode cs));
              }),
        )
        refl

  -- Marshal of a value whose methods make legal calls, of less than 4 GiB and with a 16-bit schema
  -- hint, succeeds with the 12-byte header and the wire form of the calls, and DecodeInto of that
  -- blob returns no error and the value, whatever was in the destination and whatever the codecs are.
  pub marshal-decode_into :
      (rt : Runtime) (hint : ℕ) (old : Calls)
      → hint < 2 ^ 16
      → length (encode cs) < 2 ^ 32
      → let blob = base_header 0 hint (length (encode cs)) ++ encode cs in
        (marshal (marshaler_of cs) hint ≡ ok blob)
        × (decode_into (root_of (shapes_of cs)) rt blob old ≡ (none, cs))
  marshal-decode_into rt hint old short small =
      (marshal_uncompressed-run cs h hint small, decode_into-base_header rt hint old short small)

  marshal_compressed-parts :
      (rt : Runtime) (v : Marshaler) (hint m : ℕ) (hdr frame : List ℕ)
      → compressed_parts rt v hint m ≡ ok (hdr, frame)
      → marshal_compressed rt v hint m ≡ ok (hdr ++ frame)
  unfolding marshal_compressed marshal_compressed_streaming send
  marshal_compressed-parts rt v hint m hdr frame e = rw e refl

  -- With a codec selected that keeps its documented behaviour, and a frame and a body of less than
  -- 4 GiB and a body under the decoder's cap, MarshalWithOptions succeeds with the 16-byte header and
  -- the frame, and DecodeInto of that blob returns no error and the value.
  pub marshal_with_options-decode_into :
      (rt : Runtime) (laws : CodecLaws rt) (hint : ℕ) (opts : Options) (frame : List ℕ)
      (old : Calls)
      → hint < 2 ^ 16
      → (method opts ≡ compression_zstd) ⊎ (method opts ≡ compression_gzip)
      → rt.encode (method opts) (encode cs) ≡ ok frame
      → length frame < 2 ^ 32
      → length (encode cs) < 2 ^ 32
      → length (encode cs) ≤ decoder_max_decompressed_size rt
      → let blob =
          extended_header (method opts) hint (length frame) (length (encode cs)) ++ frame in
        (marshal_with_options rt (marshaler_of cs) hint opts ≡ ok blob)
        × (decode_into (root_of (shapes_of cs)) rt blob old ≡ (none, cs))
  marshal_with_options-decode_into rt laws hint opts frame old short c e k small cap =
      let m = method opts in
      let n = length (encode cs) in
      let parts = compressed_parts-run cs h hint rt laws m frame small e k in
      (
        marshal_with_options-codec rt (marshaler_of cs) hint opts c
            ∙ marshal_compressed-parts rt (marshaler_of cs) hint m
                (extended_header m hint (length frame) n) frame parts,
        ap (λ b. decode_into (root_of (shapes_of cs)) rt b old)
              (extended_header-base m hint (length frame) n frame c)
            ∙ decode_into-extended_header rt hint m frame old short c k small cap
                (decompress_body-encode rt laws m (encode cs) frame c e),
      )
