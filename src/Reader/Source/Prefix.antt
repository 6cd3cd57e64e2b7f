-- ===== src/Reader/Source/Prefix.antt =====
-- What a Reader over a stream holds: a prefix of the stream, inside the caller's bound.
use gsbm.Common.{
  ℕ, ◌+◌, ◌-◌, ◌≤◌, ◌≡◌, refl, sym, ap, ◌∙◌, Bool, true, false, not, Bool-cases, inl, inr, List,
  ◌++◌, length, take, drop, get_or, arith, append_assoc,
}
use gsbm.Common.{
  ltb, ◌==◌, if◌then◌else◌, ℤ, pos, negsuc, take_prefix, take-append-drop, length-take,
  length-append,
}
use mathlib.Core.Path.{subst}
use gsbm.Errors.{Error, Result, ok, err, ◌>>=◌, bad_magic, unsupported_ver, alloc_too_large}
use gsbm.Wire.{uint32}
use gsbm.Writer.Fields.{magic, fmt_ver2, header_size}
use gsbm.Compress.{CompressionMethod, header_compression_method, Stream, Runtime}
use gsbm.Reader.State.{Reader, new_reader}
use gsbm.Reader.Header.{same_bytes, extended_header_size}
use gsbm.Reader.Source.{
  read_full, over, read_body, bounded_body, after_base, check_base, new_reader_from_n,
}

-- The Reader holds a prefix of `all`, of at most 16 bytes more than the bound.
pub record Holds (all : List ℕ) (max_body_len : ℤ) (r : Reader) : Type 0 where
  pub prefix : r ≡ new_reader (take (length r.buf) all)
  pub bound : (n : ℕ) → max_body_len ≡ pos n → length r.buf ≤ n + 16

abbrev Yields : List ℕ → ℤ → Result Reader → Type 0
Yields all m o = (r : Reader) → o ≡ ok r → Holds all m r

err-Yields : (all : List ℕ) (m : ℤ) (e : Error) → Yields all m (err e)
err-Yields all m e r h = cc

if-Yields :
    (all : List ℕ) (n : ℤ) (b : Bool) (x y : Result Reader)
    → (b ≡ true → Yields all n x)
    → (b ≡ false → Yields all n y)
    → Yields all n (if b then x else y)
if-Yields all n true x y t f = t refl
if-Yields all n false x y t f = f refl

out_of : (a r : Reader) → ok a ≡ ok r → a ≡ r
out_of a r e = cc

-- A Reader over a known prefix.
ok-Yields :
    (all header rest : List ℕ) (m : ℤ)
    → all ≡ header ++ rest
    → ((n : ℕ) → m ≡ pos n → length header ≤ n + 16)
    → Yields all m (ok (new_reader header))
ok-Yields all header rest m split h r e =
    let held : Holds all m (new_reader header) = record {
      prefix = rw (split, take_prefix (length header) header rest refl) refl;
      bound = h;
    } in
    subst (λ x. Holds all m x) (out_of (new_reader header) r e) held

-- `io.ReadFull` before anything that yields a prefix.
full-Yields :
    (all : List ℕ) (m : ℤ) (n : ℕ) (s : Stream) (k : List ℕ × Stream → Result Reader)
    → (n ≤ length s.content
        → Yields all m (k (take n s.content, record s { content = drop n s.content })))
    → Yields all m (read_full n s >>= k)
unfolding read_full
full-Yields all m n s k h = elim (Bool-cases (ltb (length s.content) n)) [
  | inl short ↦ rw short (err-Yields all m _)
  | inr full ↦ rw full (h (ground arith))
]

over-bound : (m : ℤ) (body_len n : ℕ) → over m body_len ≡ false → m ≡ pos n → body_len ≤ n
over-bound (pos k) body_len n e h = ground arith
over-bound (negsuc k) body_len n e h = cc

module _ (rt : Runtime) (all : List ℕ) (m : ℤ) where
  read_body-Yields :
      (header : List ℕ) (body_len : ℕ) (s : Stream)
      → all ≡ header ++ s.content
      → length header ≤ 16
      → over m body_len ≡ false
      → Yields all m (read_body header body_len s)
  unfolding read_body
  read_body-Yields header body_len s split short fits =
      if-Yields all m (body_len == 0) (ok (new_reader header))
        (read_full body_len s >>= λ b. ok (new_reader (header ++ b.0)))
        (λ _. ok-Yields all header s.content m split (λ n e. omega arith))
        (λ _.
          full-Yields all m body_len s (λ b. ok (new_reader (header ++ b.0)))
            (λ room.
              ok-Yields all (header ++ take body_len s.content) (drop body_len s.content) m
                (split
                  ∙ ap (λ t. header ++ t) (sym (take-append-drop body_len s.content))
                  ∙ sym (append_assoc header (take body_len s.content) (drop body_len s.content)))
                (λ n e. omega (
                  arith,
                  over-bound m body_len n fits e,
                  length-append header (take body_len s.content),
                  length-take body_len s.content,
                ))))

  bounded_body-Yields :
      (header_len body_len : ℕ) (header : List ℕ) (s : Stream)
      → all ≡ header ++ s.content
      → length header ≤ 16
      → Yields all m (bounded_body rt m header_len body_len header s)
  unfolding bounded_body
  bounded_body-Yields header_len body_len header s split short =
      let body = read_body header body_len s in
      if-Yields all m (ltb (rt.max_int - header_len) body_len) (err alloc_too_large)
        (if over m body_len then err alloc_too_large else body)
        (λ _. err-Yields all m alloc_too_large)
        (λ _.
          if-Yields all m (over m body_len) (err alloc_too_large) body
            (λ _. err-Yields all m alloc_too_large)
            (λ fits. read_body-Yields header body_len s split short fits))

  after_base-Yields :
      (base : List ℕ) (s : Stream) (f : CompressionMethod × Bool)
      → all ≡ base ++ s.content
      → length base ≤ 12
      → Yields all m (after_base rt m base s f)
  unfolding after_base
  after_base-Yields base s (c, false) split short =
      bounded_body-Yields header_size (uint32 (take 4 (drop 8 base))) base s split (omega arith)
  after_base-Yields base s (c, true) split short = full-Yields all m 4 s _ (λ room.
      bounded_body-Yields extended_header_size (uint32 (take 4 (drop 8 base)))
        (base ++ take 4 s.content) (record s { content = drop 4 s.content })
        (split
          ∙ ap (λ t. base ++ t) (sym (take-append-drop 4 s.content))
          ∙ sym (append_assoc base (take 4 s.content) (drop 4 s.content)))
        (omega (arith, length-append base (take 4 s.content), length-take 4 s.content)))

  flags-Yields :
      (base : List ℕ) (s : Stream) (f : Result (CompressionMethod × Bool))
      → all ≡ base ++ s.content
      → length base ≤ 12
      → Yields all m (f >>= after_base rt m base s)
  flags-Yields base s (ok f) split short = after_base-Yields base s f split short
  flags-Yields base s (err e) split short = err-Yields all m e

  check_base-Yields :
      (base : List ℕ) (s : Stream)
      → all ≡ base ++ s.content
      → length base ≤ 12
      → Yields all m (check_base rt m base s)
  unfolding check_base
  check_base-Yields base s split short =
      let flags = header_compression_method (get_or base 5 0) in
      let rest = flags >>= after_base rt m base s in
      if-Yields all m (not (same_bytes (take 4 base) magic)) (err bad_magic)
        (if not (get_or base 4 0 == fmt_ver2) then err unsupported_ver else rest)
        (λ _. err-Yields all m bad_magic)
        (λ _.
          if-Yields all m (not (get_or base 4 0 == fmt_ver2)) (err unsupported_ver) rest
            (λ _. err-Yields all m unsupported_ver) (λ _. flags-Yields base s flags split short))

-- Whatever the stream holds, a Reader that NewReaderFromN returns stands at the start of a prefix of
-- the stream, of at most 16 bytes of header and the caller's bound, when that is not negative.
pub new_reader_from_n-Holds :
    (rt : Runtime) (src : Stream) (m : ℤ) (r : Reader)
    → new_reader_from_n rt src m ≡ ok r
    → Holds src.content m r
unfolding new_reader_from_n
new_reader_from_n-Holds rt src m = full-Yields src.content m header_size src _ (λ room.
    check_base-Yields rt src.content m (take header_size src.content)
      (record src { content = drop header_size src.content })
      (sym (take-append-drop header_size src.content))
      (omega (arith, length-take header_size src.content)))
