-- ===== src/Reader/Header/Written.antt =====
-- ReadHeader reads back the two headers that the encoder writes.
use gsbm.Common.{
  ℕ, ◌⊎◌, inl, inr, ◌+◌, ◌^◌, ◌≤◌, ◌<◌, ◌≡◌, refl, ◌∙◌, true, some, List, ◌++◌, arith,
}
use gsbm.Common.{length, take_all}
use gsbm.Errors.{ok}
use gsbm.Wire.{le32}
use gsbm.Wire.Fixed.{uint16-le16, uint32-le32}
use gsbm.Writer.Fields.{header_size}
use gsbm.Compress.{
  Runtime, compresses, header_compression_method, decoder_max_decompressed_size, decompress_body,
  extended_header_bit, compression_zstd, compression_gzip,
}
use gsbm.Reader.State.{new_reader}
use gsbm.Reader.Header.{Header, open_body, cross_check, extended_check, dispatch, read_header}
use gsbm.Reader.Header.Parsed.{base_header}

module _ (rt : Runtime) (hint : ℕ) (short : hint < 2 ^ 16) where
  -- Behind the base header of an uncompressed blob the Reader stands at the body.
  pub read_header-plain :
      (body : List ℕ)
      → length body < 2 ^ 32
      → let src = base_header 0 hint (length body) ++ body in
        read_header rt (new_reader src) ≡ (
          ok (record { flags = 0; schema_hint = hint; body_len = length body }),
          record (new_reader src) { pos = header_size },
        )
  unfolding read_header dispatch cross_check open_body header_compression_method
  read_header-plain body h = rw (uint16-le16 hint short, uint32-le32 (length body) h) (ground arith)

  extended_check-ok :
      (m flags raw : ℕ) (frame b : List ℕ)
      → compresses m ≡ true
      → length frame < 2 ^ 32
      → raw < 2 ^ 32
      → raw ≤ decoder_max_decompressed_size rt
      → decompress_body rt m frame (some raw) ≡ ok b
      → let src = base_header flags hint (length frame) ++ (le32 raw ++ frame) in
        let h : Header = record { flags = flags; schema_hint = hint; body_len = length frame } in
        extended_check rt m h (new_reader src)
        ≡ (ok h, record (new_reader src) { buf = b; pos = 0; end = length b })
  unfolding extended_check cross_check open_body
  extended_check-ok m flags raw frame b c h k cap e =
      rw (uint32-le32 raw k, take_all (length frame) frame (omega arith), e) (ground arith)

  to_extended_check :
      (m raw : ℕ) (frame : List ℕ)
      → (m ≡ compression_zstd) ⊎ (m ≡ compression_gzip)
      → length frame < 2 ^ 32
      → let flags = m + extended_header_bit in
        let src = base_header flags hint (length frame) ++ (le32 raw ++ frame) in
        read_header rt (new_reader src)
        ≡ extended_check rt m
            (record { flags = flags; schema_hint = hint; body_len = length frame })
            (new_reader src)
  unfolding read_header dispatch header_compression_method
  to_extended_check m raw frame (inl z) h =
      rw (z, uint16-le16 hint short, uint32-le32 (length frame) h) (ground arith)
  to_extended_check m raw frame (inr z) h =
      rw (z, uint16-le16 hint short, uint32-le32 (length frame) h) (ground arith)

  -- Behind an extended header whose frame inflates to `b` the Reader stands at the start of `b`,
  -- which has taken the buffer's place.
  pub read_header-extended :
      (m raw : ℕ) (frame b : List ℕ)
      → (m ≡ compression_zstd) ⊎ (m ≡ compression_gzip)
      → length frame < 2 ^ 32
      → raw < 2 ^ 32
      → raw ≤ decoder_max_decompressed_size rt
      → decompress_body rt m frame (some raw) ≡ ok b
      → let flags = m + extended_header_bit in
        let src = base_header flags hint (length frame) ++ (le32 raw ++ frame) in
        read_header rt (new_reader src) ≡ (
          ok (record { flags = flags; schema_hint = hint; body_len = length frame }),
          record (new_reader src) { buf = b; pos = 0; end = length b },
        )
  read_header-extended m raw frame b c h k cap e =
      to_extended_check m raw frame c h
      ∙ extended_check-ok m (m + extended_header_bit) raw frame b
          (elim c [ inl z ↦ rw z refl | inr z ↦ rw z refl ]) h k cap e
