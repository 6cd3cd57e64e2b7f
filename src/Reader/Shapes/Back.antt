-- ===== src/Reader/Shapes/Back.antt =====
-- The round trip of a whole body, by the shape of the calls that wrote it.
use gsbm.Common.{ℕ, ◌+◌, ◌^◌, ◌<◌, ◌≡◌, refl, sym, ◌∙◌, none, List, [], ◌∷◌, ◌++◌, arith}
use gsbm.Common.{
  length, length-append, drop-take, take_all, append_assoc, append-nil, ◌⊎◌, inl, inr,
}
use gsbm.Errors.{ok}
use gsbm.Varint.Encoding.{varint}
use gsbm.Writer.Calls.{Call, Calls, done, next, IsLegalCall, IsLegal, encode_call, encode}
use gsbm.Writer.Calls as W
use gsbm.Writer.State.{new_writer}
use gsbm.Writer.Calls.{run}
use gsbm.Writer.Buffered.{run_buffered}
use gsbm.Reader.State.{new_reader, Reader, Outcome, after}
use gsbm.Reader.Regions.{begin_length_delim, end_length_delim}
use gsbm.Reader.Cursor.{At, At-room, At-peek, At-advanced, advanced, next_uvarint-varint}
use gsbm.Reader.Shapes.{Shape, shape_of, shapes_of, read_shape, read_shapes, presence_call}
use gsbm.Reader.Shapes.Fields.{
  read_uvarint_field-varint, read_varint-zigzag, read_bool-byte, read_fixed32-le32,
  read_fixed64-le64, read_tag-key, read_len_bytes-bytes, read_presence_byte-byte,
}

-- Narrowing to a region of known length.
abbrev narrowed : Reader → ℕ → ℕ → Reader
narrowed r n len = record r { pos = r.pos + n; end = r.pos + n + len }

begin_length_delim-region :
    (r : Reader) (body rest : List ℕ)
    → length body < 2 ^ 35
    → At r (varint (length body) ++ body) rest
    → begin_length_delim r ≡ (ok r.end, narrowed r (length (varint (length body))) (length body))
unfolding begin_length_delim
begin_length_delim-region r body rest h a =
    let prefix : At r (varint (length body)) (body ++ rest) = record {
      live = a.live;
      valid = a.valid;
      ahead = a.ahead ∙ append_assoc (varint (length body)) body rest;
    } in
    ground (
      arith,
      next_uvarint-varint r (length body) (body ++ rest) (omega arith) prefix,
      At-room (varint (length body)) (body ++ rest) prefix,
      length-append body rest,
    )

At-narrowed :
    (r : Reader) (body rest : List ℕ)
    → At r (varint (length body) ++ body) rest
    → At (narrowed r (length (varint (length body))) (length body)) body []
At-narrowed r body rest a =
    let n = length (varint (length body)) in
    let prefix : At r (varint (length body)) (body ++ rest) = record {
      live = a.live;
      valid = a.valid;
      ahead = a.ahead ∙ append_assoc (varint (length body)) body rest;
    } in
    let inner = At-advanced (varint (length body)) (body ++ rest) prefix body rest refl in
    record {
      live = a.live;
      valid = record {
        before_end = omega arith;
        inside = omega (arith, At-room body rest inner, a.valid.inside);
      };
      ahead =
          drop-take (r.pos + n) (length body) r.buf
          ∙ At-peek body rest inner
          ∙ sym (append-nil body);
    }

end_length_delim-region :
    (r : Reader) (saved : ℕ)
    → r.err ≡ none
    → r.pos ≡ r.end
    → end_length_delim r saved ≡ (ok tt, record r { end = saved })
unfolding end_length_delim
end_length_delim-region r saved live e = ground arith

after-ok :
    {A B : Type 0} (o : Outcome A) (k : A → Reader → Outcome B) (a : A) (r : Reader)
    → o ≡ (ok a, r)
    → after o k ≡ k a r
after-ok o k a r e = rw e

-- The calls that a presence byte stands for.
presence-back :
    (r : Reader) (b : ℕ) (rest : List ℕ)
    → (b ≡ 0) ⊎ (b ≡ 1) ⊎ (b ≡ 3)
    → At r (b ∷ []) rest
    → read_shape Shape.presence r ≡ (ok (presence_call b), advanced r 1)
unfolding read_shape
presence-back r b rest h a = rw (read_presence_byte-byte r rest b h a)

mutual
  unfolding read_shape read_shapes shape_of shapes_of encode_call encode IsLegalCall IsLegal

  read_shape-back :
      (c : Call) (r : Reader) (rest : List ℕ)
      → IsLegalCall c
      → At r (encode_call c) rest
      → read_shape (shape_of c) r ≡ (ok c, advanced r (length (encode_call c)))
  read_shape-back (W.tag t wt) r rest h a = rw (read_tag-key r rest t wt h.0 h.1 h.2 a)
  read_shape-back (W.uvarint v) r rest h a = rw (read_uvarint_field-varint r rest v h a)
  read_shape-back (W.svarint v) r rest h a = rw (read_varint-zigzag r rest v h a)
  read_shape-back (W.fixed32 v) r rest h a = rw (read_fixed32-le32 r rest v h a)
  read_shape-back (W.fixed64 v) r rest h a = rw (read_fixed64-le64 r rest v h a)
  read_shape-back (W.bool b) r rest h a = rw (read_bool-byte r rest b a)
  read_shape-back (W.bytes p) r rest h a = rw (read_len_bytes-bytes r rest p h a)
  read_shape-back W.absent r rest h a = presence-back r 0 rest (inl refl) a
  read_shape-back W.present r rest h a = presence-back r 1 rest (inr (inl refl)) a
  read_shape-back W.zeroed r rest h a = presence-back r 3 rest (inr (inr refl)) a
  read_shape-back (W.region cs) r rest h a =
      let n = length (varint (length (encode cs))) in
      let len = length (encode cs) in
      let inner = narrowed r n len in
      let opened = At-narrowed r (encode cs) rest a in
      let whole = length-append (varint len) (encode cs) in
      rw
        (
          begin_length_delim-region r (encode cs) rest h.1 a,
          read_shapes-back cs inner [] h.0 opened,
          end_length_delim-region (advanced inner len) r.end a.live refl,
        )
        (ground (arith, whole))

  pub read_shapes-back :
      (cs : Calls) (r : Reader) (rest : List ℕ)
      → IsLegal cs
      → At r (encode cs) rest
      → read_shapes (shapes_of cs) r ≡ (ok cs, advanced r (length (encode cs)))
  read_shapes-back done r rest h a = ground arith
  read_shapes-back (next c cs) r rest h a =
      let first : At r (encode_call c) (encode cs ++ rest) = record {
        live = a.live;
        valid = a.valid;
        ahead = a.ahead ∙ append_assoc (encode_call c) (encode cs) rest;
      } in
      let behind = At-advanced (encode_call c) (encode cs ++ rest) first (encode cs) rest refl in
      rw
        (
          read_shape-back c r (encode cs ++ rest) h.0 first,
          read_shapes-back cs (advanced r (length (encode_call c))) rest h.1 behind,
        )
        (ground (arith, length-append (encode_call c) (encode cs)))

-- A body that any legal calls wrote to a fresh Writer is read back whole by the Read calls of the
-- same shape: the values are the ones written, and the Reader stands at the end with no error.
pub read_shapes-run :
    (cs : Calls)
    → IsLegal cs
    → let src = (run cs (new_writer [])).buf in
      read_shapes (shapes_of cs) (new_reader src)
      ≡ (ok cs, record (new_reader src) { pos = length src })
read_shapes-run cs h =
    let wrote : (run cs (new_writer [])).buf ≡ encode cs =
      (run_buffered cs (new_writer []) (record { live = refl; sized = refl; target = refl }) h).1 in
    rw wrote (
      read_shapes-back cs (new_reader (encode cs)) [] h (record {
        live = refl;
        valid = record { before_end = omega arith; inside = omega arith };
        ahead =
            take_all (length (encode cs)) (encode cs) (omega arith) ∙ sym (append-nil (encode cs));
      })
      ∙ ground arith)
