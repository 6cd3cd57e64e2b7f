-- ===== src/Reader/Source/Blob.antt =====
-- NewReaderFromN on a stream that starts with a blob of Marshal.
use gsbm.Common.{
  ℕ, ◌+◌, ◌-◌, ◌^◌, ◌≤◌, ◌<◌, ◌≡◌, refl, ap, ◌∙◌, false, Option, List, [], ◌∷◌, ◌++◌, length, arith,
}
use gsbm.Common.{ltb, ◌==◌, ℤ, take_prefix, drop_prefix, length-append}
use gsbm.Errors.{Error, ok, ◌>>=◌}
use gsbm.Wire.Fixed.{uint32-le32}
use gsbm.Compress.{header_compression_method, Stream, Runtime}
use gsbm.Reader.State.{new_reader}
use gsbm.Reader.Header.Parsed.{base_header}
use gsbm.Reader.Source.{
  read_full, over, read_body, bounded_body, after_base, check_base, new_reader_from_n,
}

read_full-append :
    (n : ℕ) (xs ys : List ℕ) (ending : Option Error)
    → n ≡ length xs
    → read_full n (record { content = xs ++ ys; ending = ending })
      ≡ ok (xs, record { content = ys; ending = ending })
unfolding read_full
read_full-append n xs ys ending e =
    rw (take_prefix n xs ys e, drop_prefix n xs ys e) (ground (arith, length-append xs ys))

module _ (rt : Runtime) (hint : ℕ) (more : List ℕ) (ending : Option Error) (m : ℤ) where
  read_body-front :
      (body : List ℕ)
      → read_body
          (base_header 0 hint (length body))
          (length body)
          (record { content = body ++ more; ending = ending })
        ≡ ok (new_reader (base_header 0 hint (length body) ++ body))
  unfolding read_body
  read_body-front [] = refl
  read_body-front (x ∷ body) =
      let more_than_none : (length (x ∷ body) == 0) ≡ false = ground arith in
      rw (read_full-append (length (x ∷ body)) (x ∷ body) more ending refl, more_than_none) refl

  check_base-front :
      (body : List ℕ)
      → length body < 2 ^ 32
      → check_base rt m
          (base_header 0 hint (length body))
          (record { content = body ++ more; ending = ending })
        ≡ bounded_body rt m 12
            (length body)
            (base_header 0 hint (length body))
            (record { content = body ++ more; ending = ending })
  unfolding check_base after_base header_compression_method
  check_base-front body small =
      ap
        (λ n.
          bounded_body rt m 12 n (base_header 0 hint (length body))
            (record { content = body ++ more; ending = ending }))
        (uint32-le32 (length body) small)

  -- NewReaderFromN takes the blob that Marshal wrote off the front of a stream, whatever follows and
  -- however the stream ends, when the body fits into an int and the caller's bound.
  pub new_reader_from_n-blob :
      (body : List ℕ)
      → length body < 2 ^ 32
      → length body + 12 ≤ rt.max_int
      → over m (length body) ≡ false
      → let blob = base_header 0 hint (length body) ++ body in
        new_reader_from_n rt (record { content = blob ++ more; ending = ending }) m
        ≡ ok (new_reader blob)
  unfolding new_reader_from_n bounded_body
  new_reader_from_n-blob body small fits bound =
      let base = base_header 0 hint (length body) in
      let s : Stream = record { content = body ++ more; ending = ending } in
      let room : ltb (rt.max_int - 12) (length body) ≡ false = ground arith in
      ap (λ o. o >>= λ b. check_base rt m b.0 b.1)
        (read_full-append 12 base (body ++ more) ending refl)
      ∙ check_base-front body small
      ∙ rw (room, bound) (read_body-front body)
