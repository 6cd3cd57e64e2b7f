-- ===== src/Writer/State.antt =====
-- The Writer of storage/gsbm/writer.go: its state, its constructors, flushing and chunking.
use gsbm.Common.{
  ℕ, zero, suc, ◌-◌, Bool, true, false, ◌||◌, Option, none, some, List, [], ◌∷◌, ◌++◌,
}
use gsbm.Common.{ltb, leb, ◌==◌, if◌then◌else◌, length, take, drop, min}
use gsbm.Errors.{Error}

-- An `io.Writer`: what it took so far, and the error, if any, with which it answers a payload.
pub record Sink : Type 0 where
  pub written : List ℕ
  pub fault : List ℕ → List ℕ → Option Error

-- scratchEntry: what one callsite materialized, in walk order, with a cursor for each lane.
pub record ScratchEntry : Type 0 where
  pub values : List (List ℕ)
  pub strings : List (List ℕ)
  pub strings_idx : ℕ
  pub values_idx : ℕ

-- `scratch` is a Go map by callsite; `size_acc` and the region sizes are ints that are never negative.
pub record Writer : Type 0 where
  pub buf : List ℕ
  pub err : Option Error
  pub size_only : Bool
  pub size_acc : ℕ
  pub scratch : List (ℕ × ScratchEntry)
  pub record_regions : Bool
  pub recorded_regions : List ℕ
  pub region_stack : List ℕ
  pub stream_target : Option Sink
  pub stream_sizes : List ℕ
  pub stream_size_idx : ℕ
  pub stream_threshold : ℕ

-- `err != nil`
abbrev pub failed : Option Error → Bool
failed none = false
failed (some e) = true

-- NewWriter
abbrev pub new_writer : List ℕ → Writer
new_writer b = record {
  buf = b;
  err = none;
  size_only = false;
  size_acc = 0;
  scratch = [];
  record_regions = false;
  recorded_regions = [];
  region_stack = [];
  stream_target = none;
  stream_sizes = [];
  stream_size_idx = 0;
  stream_threshold = 0;
}

-- NewCountingWriter
abbrev pub new_counting_writer : Writer
new_counting_writer = record (new_writer []) { size_only = true }

-- newRecordingSizeWriter
abbrev pub new_recording_size_writer : Writer
new_recording_size_writer = record (new_writer []) { size_only = true; record_regions = true }

-- newStreamingWriter
abbrev pub new_streaming_writer : Sink → List ℕ → ℕ → Writer
new_streaming_writer target sizes threshold = record (new_writer []) {
  stream_target = some target;
  stream_sizes = sizes;
  stream_threshold = threshold;
}

-- Reset
unfoldable pub reset : Writer → Writer
reset w = record w { buf = []; err = none; size_acc = 0; scratch = [] }

abbrev pub first_error : Option Error → Error → Option Error
first_error none e = some e
first_error (some x) e = some x

-- setErr: the first error stays.
unfoldable pub set_err : Writer → Error → Writer
set_err w e = record w { err = first_error w.err e }

abbrev pub deliver : Writer → Sink → Option Error → Writer
deliver w s none = record w {
  buf = [];
  stream_target = some (record s { written = s.written ++ w.buf });
}
deliver w s (some e) = set_err w e

abbrev pub deliver_to : Writer → Option Sink → Writer
deliver_to w none = w
deliver_to w (some s) = deliver w s (s.fault s.written w.buf)

-- `streamTarget.Write(w.buf)`, then `setErr` on an error and `w.buf[:0]` without one.
unfoldable pub flush : Writer → Writer
flush w = deliver_to w w.stream_target

abbrev pub is_none {ℓ} : {A : Type ℓ} → Option A → Bool
is_none none = true
is_none (some a) = false

-- afterWrite
unfoldable pub after_write : Writer → Writer
after_write w =
    if failed w.err || is_none w.stream_target || ltb (length w.buf) w.stream_threshold
    then w
    else flush w

-- flushAll, whose result is the sticky error that it leaves.
unfoldable pub flush_all : Writer → Writer
flush_all w =
    if failed w.err then w else if is_none w.stream_target || length w.buf == 0 then w else flush w

-- The head of a round of the chunk loop: a full buffer is written out.
unfoldable pub make_room : Writer → Writer
make_room w = if leb w.stream_threshold (length w.buf) then flush w else w

-- The loop of writeChunked and writeChunkedBytes; each round takes a byte at least, so the length
-- of the payload is fuel enough.
unfoldable pub chunk_loop : ℕ → Writer → List ℕ → Writer
chunk_loop fuel w [] = after_write w
chunk_loop zero w (x ∷ s) = w
chunk_loop (suc fuel) w (x ∷ s) =
    let w' = make_room w in
    let n = min (length (x ∷ s)) (w.stream_threshold - length w'.buf) in
    let rest = chunk_loop fuel (record w' { buf = w'.buf ++ take n (x ∷ s) }) (drop n (x ∷ s)) in
    if failed w'.err then w' else rest

-- writeChunked and writeChunkedBytes
unfoldable pub write_chunked : Writer → List ℕ → Writer
write_chunked w s =
    if w.stream_threshold == 0
    then after_write (record w { buf = w.buf ++ s })
    else chunk_loop (length s) w s
