-- ===== src/Compress/Bounds.antt =====
-- Bounds on what decompression returns, on any input and with codecs that may do anything.
use gsbm.Common.{
  ℕ, ◌+◌, ◌≤◌, ◌≡◌, inl, inr, Bool, true, false, Bool-cases, Option, none, some, List, length,
  arith,
}
use gsbm.Common.{ltb, leb, ◌==◌, if◌then◌else◌}
use mathlib.Core.Path.{subst}
use gsbm.Errors.{Error, Result, ok, err, ◌>>=◌, gzip_too_large}
use gsbm.Compress.{
  CompressionMethod, compression_zstd, compression_gzip, Runtime, read_limited, exactly,
  decoder_max_decompressed_size, max_inflate_presize, decompress_gzip, decompress_zstd_known,
  decompress_body, unless_failed,
}

out_of : (a b : List ℕ) → ok a ≡ ok b → a ≡ b
out_of a b e = cc

-- Every success satisfies P.
Only : (List ℕ → Type 0) → Result (List ℕ) → Type 0
Only P (ok out) = P out
Only P (err e) = Unit

err-Only : (P : List ℕ → Type 0) (e : Error) → Only P (err e)
unfolding Only
err-Only P e = tt

only_success :
    (P : List ℕ → Type 0) (r : Result (List ℕ)) (out : List ℕ) → Only P r → r ≡ ok out → P out
unfolding Only
only_success P (ok o) out h e = subst P (out_of o out e) h
only_success P (err x) out h e = cc

unless_failed-Only :
    (P : List ℕ → Type 0) (x : Option Error) (k : Result (List ℕ))
    → Only P k
    → Only P (unless_failed x k)
unfolding Only
unless_failed-Only P none k h = h
unless_failed-Only P (some e) k h = tt

exactly-Only : (n : ℕ) (r : Result (List ℕ)) → Only (λ out. length out ≡ n) (r >>= exactly n)
unfolding Only
exactly-Only n (err e) = tt
exactly-Only n (ok out) = elim (Bool-cases (length out == n)) [
  | inl same ↦ rw same (ground arith)
  | inr other ↦ rw other tt
]

capped-Only :
    (rt : Runtime) (r : Result (List ℕ))
    → Only
        (λ out. length out ≤ decoder_max_decompressed_size rt)
        (r >>= λ out.
          if ltb (decoder_max_decompressed_size rt) (length out)
          then err gzip_too_large
          else ok out)
unfolding Only
capped-Only rt (err e) = tt
capped-Only rt (ok out) = elim (Bool-cases (ltb (decoder_max_decompressed_size rt) (length out))) [
  | inl large ↦ rw large tt
  | inr small ↦ rw small (ground arith)
]

if-Only :
    (P : List ℕ → Type 0) (b : Bool) (x y : Result (List ℕ))
    → Only P x
    → Only P y
    → Only P (if b then x else y)
if-Only P true x y h k = h
if-Only P false x y h k = k

known-Only :
    (rt : Runtime) (m : CompressionMethod) (src : List ℕ) (n : ℕ)
    → Only (λ out. length out ≡ n) (decompress_body rt m src (some n))
unfolding decompress_body decompress_gzip decompress_zstd_known
known-Only rt m src n =
    if-Only _ (m == compression_zstd) _ _
      (if-Only _ (leb n max_inflate_presize) _ _ (exactly-Only n (rt.zstd_decode_capped n src)) (
        unless_failed-Only _ (rt.zstd_reset src) _
          (exactly-Only n (read_limited (n + 1) (rt.zstd_stream src)))))
      (if-Only _ (m == compression_gzip) _ _
        (unless_failed-Only _ (rt.gzip_reset src) _
          (exactly-Only n (read_limited (n + 1) (rt.gzip_stream src))))
        (err-Only _ _))

-- With a declared length n, no input and no codec makes decompressBody return anything but n bytes.
pub decompress_body-length :
    (rt : Runtime) (m : CompressionMethod) (src : List ℕ) (n : ℕ) (out : List ℕ)
    → decompress_body rt m src (some n) ≡ ok out
    → length out ≡ n
decompress_body-length rt m src n out e =
    only_success (λ o. length o ≡ n) (decompress_body rt m src (some n)) out (known-Only rt m src n)
      e

-- Without a declared length, no input and no gzip codec makes decompressGzip return more than the cap.
pub decompress_gzip-cap :
    (rt : Runtime) (src out : List ℕ)
    → decompress_gzip rt src none ≡ ok out
    → length out ≤ decoder_max_decompressed_size rt
unfolding decompress_gzip
decompress_gzip-cap rt src out e =
    only_success (λ o. length o ≤ decoder_max_decompressed_size rt) (decompress_gzip rt src none)
      out
      (unless_failed-Only _ (rt.gzip_reset src) _
        (capped-Only rt (read_limited (decoder_max_decompressed_size rt + 1) (rt.gzip_stream src))))
      e
