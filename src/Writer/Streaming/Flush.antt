-- ===== src/Writer/Streaming/Flush.antt =====
-- Flushing and chunking move bytes to the `io.Writer` and lose none.
use gsbm.Common.{
  ℕ, zero, suc, ◌+◌, ◌-◌, ◌≤◌, ◌<◌, ◌≡◌, refl, sym, ap, ◌∙◌, false, Option, none, some, List, [],
  ◌∷◌, ◌++◌, arith,
}
use gsbm.Common.{length, take, drop, min, length-drop, take-append-drop, append_assoc, append-nil}
use gsbm.Writer.State.{
  Sink, Writer, flush, failed, after_write, flush_all, make_room, chunk_loop, write_chunked,
}

abbrev pub delivered : Option Sink → List ℕ
delivered none = []
delivered (some s) = s.written

-- What the downstream has seen, followed by what is still buffered.
abbrev pub output : Writer → List ℕ
output w = delivered w.stream_target ++ w.buf

-- A streaming Writer with no error whose target accepts every payload.
pub record IsStreaming (w : Writer) : Type 0 where
  pub sink : Sink
  pub live : w.err ≡ none
  pub sized : w.size_only ≡ false
  pub target : w.stream_target ≡ some sink
  pub accepts : (taken p : List ℕ) → sink.fault taken p ≡ none
  pub room : 1 ≤ w.stream_threshold

-- The output grew by `bs`, and `k` recorded sizes were used up.
pub record Streams (w : Writer) (bs : List ℕ) (k : ℕ) (w' : Writer) : Type 0 where
  pub ready : IsStreaming w'
  pub out : output w' ≡ output w ++ bs
  pub sizes : w'.stream_sizes ≡ w.stream_sizes
  pub index : w'.stream_size_idx ≡ w.stream_size_idx + k
  pub threshold : w'.stream_threshold ≡ w.stream_threshold

pub Streams-refl : (w : Writer) → IsStreaming w → Streams w [] 0 w
Streams-refl w r = record {
  ready = r;
  out = sym (append-nil (output w));
  sizes = refl;
  index = omega arith;
  threshold = refl;
}

pub Streams-trans :
    {w w' w'' : Writer} (xs ys : List ℕ) (j k : ℕ)
    → Streams w xs j w'
    → Streams w' ys k w''
    → Streams w (xs ++ ys) (j + k) w''
Streams-trans {w} xs ys j k m n = record {
  ready = n.ready;
  out = n.out ∙ ap (λ b. b ++ ys) m.out ∙ append_assoc (output w) xs ys;
  sizes = n.sizes ∙ m.sizes;
  index = omega (arith, m.index, n.index);
  threshold = n.threshold ∙ m.threshold;
}

-- The same with the sums under names of their own.
pub Streams-join :
    {w w' w'' : Writer} (xs ys : List ℕ) (j k : ℕ) (zs : List ℕ) (l : ℕ)
    → zs ≡ xs ++ ys
    → l ≡ j + k
    → Streams w xs j w'
    → Streams w' ys k w''
    → Streams w zs l w''
Streams-join xs ys j k zs l e d m n = rw (e, d) (Streams-trans xs ys j k m n)

-- Appending to the buffer appends to the output.
pub buffered-Streams :
    (w : Writer) (bs : List ℕ) → IsStreaming w → Streams w bs 0 (record w { buf = w.buf ++ bs })
buffered-Streams w bs r = record {
  ready = record {
    sink = r.sink;
    live = r.live;
    sized = r.sized;
    target = r.target;
    accepts = r.accepts;
    room = r.room;
  };
  out = sym (append_assoc (delivered w.stream_target) w.buf bs);
  sizes = refl;
  index = omega arith;
  threshold = refl;
}

flush_lem :
    (w : Writer) (r : IsStreaming w)
    → flush w ≡ record w {
      buf = [];
      stream_target = some (record r.sink { written = r.sink.written ++ w.buf });
    }
unfolding flush
flush_lem w r = rw r.target (rw (r.accepts r.sink.written w.buf))

pub flush-Streams : (w : Writer) → IsStreaming w → Streams w [] 0 (flush w) × ((flush w).buf ≡ [])
flush-Streams w r = rw (flush_lem w r) (
  record {
    ready = record {
      sink = record r.sink { written = r.sink.written ++ w.buf };
      live = r.live;
      sized = r.sized;
      target = refl;
      accepts = r.accepts;
      room = r.room;
    };
    out = rw r.target refl;
    sizes = refl;
    index = omega arith;
    threshold = refl;
  },
  refl,
)

-- `afterWrite` flushes or leaves things be, and leaves less than the threshold in the buffer.
pub after_write-Streams :
    (w : Writer)
    → IsStreaming w
    → Streams w [] 0 (after_write w) × (length (after_write w).buf < w.stream_threshold)
unfolding after_write
after_write-Streams w r = ground (arith, flush-Streams w r, Streams-refl w r)

make_room-Streams :
    (w : Writer)
    → IsStreaming w
    → Streams w [] 0 (make_room w) × (length (make_room w).buf < w.stream_threshold)
unfolding make_room
make_room-Streams w r = ground (arith, flush-Streams w r, Streams-refl w r)

chunk_loop-Streams :
    (fuel : ℕ) (w : Writer) (s : List ℕ)
    → IsStreaming w
    → length s ≤ fuel
    → Streams w s 0 (chunk_loop fuel w s) × (length (chunk_loop fuel w s).buf < w.stream_threshold)
unfolding chunk_loop
chunk_loop-Streams fuel w [] r h = after_write-Streams w r
chunk_loop-Streams zero w (x ∷ s) r h = absurd (omega arith)
chunk_loop-Streams (suc fuel) w (x ∷ s) r h =
    let (made, fits) = make_room-Streams w r in
    let n = min (length (x ∷ s)) (w.stream_threshold - length (make_room w).buf) in
    let w' : Writer = record (make_room w) { buf = (make_room w).buf ++ take n (x ∷ s) } in
    let step : Streams w (take n (x ∷ s)) 0 w' =
      Streams-join [] (take n (x ∷ s)) 0 0 (take n (x ∷ s)) 0 refl refl made
        (buffered-Streams (make_room w) (take n (x ∷ s)) made.ready) in
    let (rest, low) =
      chunk_loop-Streams fuel w' (drop n (x ∷ s)) step.ready
        (omega (arith, length-drop n (x ∷ s), made.ready.room)) in
    let up : failed (make_room w).err ≡ false = ap failed made.ready.live in
    rw up (
      Streams-join (take n (x ∷ s)) (drop n (x ∷ s)) 0 0 (x ∷ s) 0
          (sym (take-append-drop n (x ∷ s))) refl step rest,
      omega (arith, made.threshold),
    )

-- The fuel of `write_chunked` is enough: the whole payload gets into the output.
pub write_chunked-Streams :
    (w : Writer) (s : List ℕ)
    → IsStreaming w
    → Streams w s 0 (write_chunked w s) × (length (write_chunked w s).buf < w.stream_threshold)
unfolding write_chunked
write_chunked-Streams w s r = ground (arith, r.room, chunk_loop-Streams (length s) w s r)

-- `flushAll` leaves nothing in the buffer: all of the output was delivered.
pub flush_all-Streams :
    (w : Writer) → IsStreaming w → Streams w [] 0 (flush_all w) × ((flush_all w).buf ≡ [])
unfolding flush_all
flush_all-Streams w r = ground (arith, flush-Streams w r, Streams-refl w r, empty_of_length w.buf)
  where
    empty_of_length : (xs : List ℕ) → length xs ≡ 0 → xs ≡ []
    empty_of_length [] h = refl
    empty_of_length (x ∷ xs) h = absurd (omega arith)
