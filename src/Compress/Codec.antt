-- ===== src/Compress/Codec.antt =====
-- Decompression against the documented behaviour of the codecs, and its bounds on any codec.
use gsbm.Common.{ℕ, ◌+◌, ◌≡◌, ◌⊎◌, inl, inr, none, some, List, length, arith}
use gsbm.Common.{leb, Bool-cases}
use gsbm.Errors.{ok}
use gsbm.Compress.{
  CompressionMethod, compression_zstd, compression_gzip, Runtime, read_limited, exactly,
  max_inflate_presize, decompress_gzip, decompress_zstd_known, decompress_body,
}

-- Documented behaviour: an encoder accepts every write, and each decoder inflates what the encoder
-- of the same codec produced.
pub record CodecLaws (rt : Runtime) : Type 0 where
  pub accepts : (m : CompressionMethod) (taken p : List ℕ) → rt.write_fault m taken p ≡ none
  pub capped :
      (b f : List ℕ)
      → rt.encode compression_zstd b ≡ ok f
      → rt.zstd_decode_capped (length b) f ≡ ok b
  pub zstd_opens : (b f : List ℕ) → rt.encode compression_zstd b ≡ ok f → rt.zstd_reset f ≡ none
  pub zstd_streams :
      (b f : List ℕ)
      → rt.encode compression_zstd b ≡ ok f
      → rt.zstd_stream f ≡ record { content = b; ending = none }
  pub gzip_opens : (b f : List ℕ) → rt.encode compression_gzip b ≡ ok f → rt.gzip_reset f ≡ none
  pub gzip_streams :
      (b f : List ℕ)
      → rt.encode compression_gzip b ≡ ok f
      → rt.gzip_stream f ≡ record { content = b; ending = none }

read_limited-whole :
    (b : List ℕ) → read_limited (length b + 1) (record { content = b; ending = none }) ≡ ok b
unfolding read_limited
read_limited-whole b = ground arith

exactly-length : (b : List ℕ) → exactly (length b) b ≡ ok b
exactly-length b = ground arith

module _ (rt : Runtime) (laws : CodecLaws rt) where
  gzip-encode :
      (b f : List ℕ)
      → rt.encode compression_gzip b ≡ ok f
      → decompress_gzip rt f (some (length b)) ≡ ok b
  unfolding decompress_gzip
  gzip-encode b f e =
      rw (laws.gzip_opens b f e, laws.gzip_streams b f e, read_limited-whole b) (exactly-length b)

  zstd-encode :
      (b f : List ℕ)
      → rt.encode compression_zstd b ≡ ok f
      → decompress_zstd_known rt f (length b) ≡ ok b
  unfolding decompress_zstd_known
  zstd-encode b f e = elim (Bool-cases (leb (length b) max_inflate_presize)) [
    | inl small ↦ rw (small, laws.capped b f e) (exactly-length b)
    | inr large ↦
        rw (large, laws.zstd_opens b f e, laws.zstd_streams b f e, read_limited-whole b)
          (exactly-length b)
  ]

  -- With the inflated length of the extended header, every codec gives the body back.
  pub decompress_body-encode :
      (m : CompressionMethod) (b f : List ℕ)
      → (m ≡ compression_zstd) ⊎ (m ≡ compression_gzip)
      → rt.encode m b ≡ ok f
      → decompress_body rt m f (some (length b)) ≡ ok b
  unfolding decompress_body
  decompress_body-encode m b f (inl z) e = rw z (zstd-encode b f (rw z at e))
  decompress_body-encode m b f (inr g) e = rw g (gzip-encode b f (rw g at e))
