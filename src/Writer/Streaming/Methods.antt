-- ===== src/Writer/Streaming/Methods.antt =====
-- What each Write method adds to the output of a streaming Writer.
use gsbm.Common.{ℕ, ◌+◌, ◌^◌, ◌<◌, ◌≡◌, refl, sym, List, [], ◌∷◌, ◌++◌, arith}
use gsbm.Common.{length, drop, get_or-drop, append-nil}
use gsbm.Varint.{varint_len, append_uvarint}
use gsbm.Varint.Encoding.{varint, append_uvarint-varint}
use gsbm.Wire.{field_key}
use gsbm.Wire.Keys.{field_key-lt}
use gsbm.Writer.State.{Writer, after_write, write_chunked}
use gsbm.Writer.Fields.{emit, write_tag, write_bytes, write_presence}
use gsbm.Writer.Regions.{begin_length_delim, begin_streamed, end_length_delim}
use gsbm.Writer.Calls.{tag}
use gsbm.Writer.Calls.{IsLegalCall}
use gsbm.Writer.Streaming.Flush.{IsStreaming, Streams, Streams-join}
use gsbm.Writer.Streaming.Flush.{buffered-Streams, after_write-Streams, write_chunked-Streams}

pub append-Streams :
    (w : Writer) (b bs : List ℕ)
    → IsStreaming w
    → b ≡ w.buf ++ bs
    → Streams w bs 0 (after_write (record w { buf = b }))
append-Streams w b bs r e =
    let put = buffered-Streams w bs r in
    rw e (
      Streams-join bs [] 0 0 bs 0 (sym (append-nil bs)) refl put
        (after_write-Streams (record w { buf = w.buf ++ bs }) put.ready).0)

pub emit-Streams :
    (w : Writer) (n : ℕ) (f : List ℕ → List ℕ) (bs : List ℕ)
    → IsStreaming w
    → f w.buf ≡ w.buf ++ bs
    → Streams w bs 0 (emit w n f)
unfolding emit
emit-Streams w n f bs r e = ground (arith, append-Streams w (f w.buf) bs r e)

pub varint-Streams :
    (w : Writer) (v : ℕ)
    → IsStreaming w
    → v < 2 ^ 64
    → Streams w (varint v) 0 (emit w (varint_len v) (λ b. append_uvarint b v))
varint-Streams w v r h =
    emit-Streams w (varint_len v) (λ b. append_uvarint b v) (varint v) r
      (append_uvarint-varint w.buf v h)

pub write_tag-Streams :
    (w : Writer) (t wt : ℕ)
    → IsStreaming w
    → IsLegalCall (tag t wt)
    → Streams w (varint (field_key t wt)) 0 (write_tag w t wt)
unfolding write_tag IsLegalCall
write_tag-Streams w t wt r h = ground (arith, varint-Streams w (field_key t wt), field_key-lt t wt)

pub write_bytes-Streams :
    (w : Writer) (p : List ℕ)
    → IsStreaming w
    → length p < 2 ^ 35
    → Streams w (varint (length p) ++ p) 0 (write_bytes w p)
unfolding write_bytes
write_bytes-Streams w p r h =
    let prefix = buffered-Streams w (varint (length p)) r in
    let w' : Writer = record w { buf = w.buf ++ varint (length p) } in
    let sent : Streams w (varint (length p) ++ p) 0 (write_chunked w' p) =
      Streams-join (varint (length p)) p 0 0 (varint (length p) ++ p) 0 refl refl prefix
        (write_chunked-Streams w' p prefix.ready).0 in
    ground (arith, append_uvarint-varint w.buf (length p), sent, r.target)

pub write_presence-Streams :
    (w : Writer) (state : ℕ) → IsStreaming w → Streams w (state ∷ []) 0 (write_presence w state)
unfolding write_presence
write_presence-Streams w state r = ground (arith, buffered-Streams w (state ∷ []) r)

pub begin_length_delim-Streaming :
    (w : Writer) → IsStreaming w → begin_length_delim w ≡ begin_streamed w
unfolding begin_length_delim
begin_length_delim-Streaming w r = ground (arith, r.target)

pub end_length_delim-Streaming :
    (w : Writer) (marker : ℕ) → IsStreaming w → end_length_delim w marker ≡ w
unfolding end_length_delim
end_length_delim-Streaming w marker r = ground (arith, r.target)

pub one_more :
    (w w' : Writer) (bs : List ℕ)
    → Streams (record w { stream_size_idx = w.stream_size_idx + 1 }) bs 0 w'
    → Streams w bs 1 w'
one_more w w' bs m = record {
  ready = m.ready;
  out = m.out;
  sizes = m.sizes;
  index = omega (arith, m.index);
  threshold = m.threshold;
}

-- Opening a region writes the next recorded size.
pub begin_streamed-Streams :
    (w : Writer) (n : ℕ) (more : List ℕ)
    → IsStreaming w
    → drop w.stream_size_idx w.stream_sizes ≡ n ∷ more
    → n < 2 ^ 35
    → Streams w (varint n) 1 (begin_streamed w).1
begin_streamed-Streams w n more r e h =
    let (at, inside) = get_or-drop w.stream_size_idx w.stream_sizes n 0 more e in
    let w' : Writer = record w { stream_size_idx = w.stream_size_idx + 1 } in
    let r' : IsStreaming w' = record {
      sink = r.sink;
      live = r.live;
      sized = r.sized;
      target = r.target;
      accepts = r.accepts;
      room = r.room;
    } in
    let put =
      append-Streams w' (append_uvarint w.buf n) (varint n) r'
        (append_uvarint-varint w.buf n (omega arith)) in
    ground (arith, at, inside, one_more w _ (varint n) put)

-- The sizes behind those that a call used up.
