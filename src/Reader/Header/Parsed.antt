-- ===== src/Reader/Header/Parsed.antt =====
-- ReadHeader: it keeps the Reader valid on any bytes, and reads every header that the encoder writes.
use gsbm.Common.{
  ℕ, ◌+◌, ◌-◌, ◌≤◌, ◌≡◌, refl, Bool, true, false, Option, none, some, List, ◌∷◌, ◌++◌, arith,
}
use gsbm.Common.{take, drop, ltb, ◌==◌, if◌then◌else◌, not, get_or}
use gsbm.Errors.{
  Error, Result, ok, err, truncated, body_len_mismatch, corrupt_compressed_body, bad_magic,
  unsupported_ver,
}
use gsbm.Wire.{le16, le32, uint32}
use gsbm.Writer.Fields.{magic, fmt_ver2, header_size}
use gsbm.Compress.{
  CompressionMethod, Runtime, compresses, decoder_max_decompressed_size, decompress_body,
}
use gsbm.Reader.State.{Reader, Outcome, IsValid, fail, set_err, guarded_by, peek}
use gsbm.Reader.Header.{
  Header, inflated, open_body, cross_check, extended_check, dispatch, read_header,
  extended_header_size, same_bytes,
}

-- The base header with the given fields.
abbrev pub base_header : ℕ → ℕ → ℕ → List ℕ
base_header flags hint body_len = magic ++ fmt_ver2 ∷ flags ∷ (le16 hint ++ le32 body_len)

-- A method leaves the Reader valid, and an error that it returns is the sticky one.
pub record Reports (o : Outcome Header) : Type 0 where
  pub valid : IsValid o.1
  pub error : (e : Error) → o.0 ≡ err e → o.1.err ≡ some e

fail-Reports : (r : Reader) (e : Error) → IsValid r → Reports (fail r e)
unfolding fail set_err
fail-Reports r e v = record {
  valid = record { before_end = v.before_end; inside = v.inside };
  error = λ x h. ground arith;
}

ok-Reports : (r : Reader) (h : Header) → IsValid r → Reports (ok h, r)
ok-Reports r h v = record { valid = v; error = λ x e. cc }

inflated-Reports :
    (r : Reader) (h : Header) (o : Result (List ℕ)) → IsValid r → Reports (inflated r h o)
inflated-Reports r h (ok b) v =
    ok-Reports _ h (record { before_end = omega arith; inside = omega arith })
inflated-Reports r h (err e) v = fail-Reports r _ v

if-Reports :
    (b : Bool) (x y : Outcome Header)
    → (b ≡ true → Reports x)
    → (b ≡ false → Reports y)
    → Reports (if b then x else y)
if-Reports true x y t f = t refl
if-Reports false x y t f = f refl

guarded_by-Reports :
    (x : Option Error) (r : Reader) (o : Outcome Header)
    → r.err ≡ x
    → IsValid r
    → Reports o
    → Reports (guarded_by x r o)
guarded_by-Reports none r o e v k = k
guarded_by-Reports (some x) r o e v k = record { valid = v; error = λ y h. ground arith }

module _ (rt : Runtime) where
  open_body-Reports :
      (m : CompressionMethod) (n : Option ℕ) (h : Header) (r : Reader)
      → IsValid r
      → Reports (open_body rt m n h r)
  unfolding open_body
  open_body-Reports m n h r v =
      let body = decompress_body rt m (drop r.pos (take r.end r.buf)) n in
      if-Reports (compresses m) (inflated r h body) (ok h, r) (λ c. inflated-Reports r h body v)
        (λ c. ok-Reports r h v)

  cross_check-Reports :
      (m : CompressionMethod) (k : ℕ) (n : Option ℕ) (h : Header) (r : Reader)
      → IsValid r
      → k ≤ r.end - r.pos
      → Reports (cross_check rt m k n h r)
  unfolding cross_check
  cross_check-Reports m k n h r v room =
      let r' : Reader = record r { pos = r.pos + k } in
      if-Reports (not (h.body_len == r.end - r.pos - k)) (fail r body_len_mismatch)
        (open_body rt m n h r') (λ c. fail-Reports r _ v)
        (λ c.
          open_body-Reports m n h r'
            (record { before_end = omega (arith, v.before_end); inside = v.inside }))

  extended_check-Reports :
      (m : CompressionMethod) (h : Header) (r : Reader)
      → IsValid r
      → Reports (extended_check rt m h r)
  unfolding extended_check
  extended_check-Reports m h r v =
      let il = uint32 (take 4 (drop (r.pos + 12) r.buf)) in
      if-Reports (ltb (r.end - r.pos) extended_header_size) (fail r truncated) _
        (λ c. fail-Reports r truncated v)
        (λ c.
          if-Reports (ltb (decoder_max_decompressed_size rt) il) (fail r corrupt_compressed_body)
            (cross_check rt m extended_header_size (some il) h r)
            (λ d. fail-Reports r corrupt_compressed_body v)
            (λ d. cross_check-Reports m extended_header_size (some il) h r v (ground arith)))

  dispatch-Reports :
      (h : Header) (r : Reader) (o : Result (CompressionMethod × Bool))
      → IsValid r
      → header_size ≤ r.end - r.pos
      → Reports (dispatch rt h r o)
  unfolding dispatch
  dispatch-Reports h r (err e) v room = fail-Reports r e v
  dispatch-Reports h r (ok (m, true)) v room = extended_check-Reports m h r v
  dispatch-Reports h r (ok (m, false)) v room = cross_check-Reports m header_size none h r v room

  -- On any bytes and any codecs ReadHeader leaves a valid Reader valid, its buffer replaced or not,
  -- and an error that it returns is the sticky error from then on.
  pub read_header-Reports : (r : Reader) → IsValid r → Reports (read_header rt r)
  unfolding read_header
  read_header-Reports r v = guarded_by-Reports r.err r _ refl v (
      if-Reports (ltb (r.end - r.pos) header_size) (fail r truncated) _
        (λ c. fail-Reports r truncated v)
        (λ c.
          if-Reports (not (same_bytes (peek r 4) magic)) (fail r bad_magic) _
            (λ d. fail-Reports r bad_magic v)
            (λ d.
              if-Reports (not (get_or r.buf (r.pos + 4) 0 == fmt_ver2)) (fail r unsupported_ver) _
                (λ e. fail-Reports r unsupported_ver v)
                (λ e. dispatch-Reports _ r _ v (ground arith)))))
