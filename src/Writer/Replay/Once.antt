-- ===== src/Writer/Replay/Once.antt =====
-- One call of a cached method: behind the last stored value it runs the function, before it it reads.
use gsbm.Common.{ℕ, ◌≡◌, true, false, none, List, [], ◌∷◌, arith}
use gsbm.Common.{ltb, length, get_or-drop}
use gsbm.Errors.{Result, ok, err}
use gsbm.Writer.State.{Writer}
use gsbm.Writer.Fields.{write_bytes}
use gsbm.Writer.Cached.{
  put_entry, write_cached_string, write_cached_bytes, write_cached_append_bytes,
}
use gsbm.Writer.Replay.{
  CachedCall, cached_string, cached_bytes, cached_append, run_cached, Lane, strings_lane,
  values_lane, lane_of, site_of, made, IsMade, stored, values_in, cursor, materialized, moved,
  ahead_in,
}

-- The Writer of a call that ran its function, and of one that read.
abbrev pub fresh_write : Lane → ℕ → List ℕ → Writer → Writer
fresh_write l k g w =
    write_bytes (record w { scratch = put_entry w.scratch k (materialized l (stored w k) g) }) g

abbrev pub stored_write : Lane → ℕ → List ℕ → Writer → Writer
stored_write l k v w =
    write_bytes (record w { scratch = put_entry w.scratch k (moved l (stored w k)) }) v

string-fresh :
    (w : Writer) (k : ℕ) (g : List ℕ)
    → w.err ≡ none
    → (stored w k).strings_idx ≡ length (stored w k).strings
    → write_cached_string w k g ≡ (fresh_write strings_lane k g w, true)
unfolding write_cached_string
string-fresh w k g e h =
    let miss : ltb (stored w k).strings_idx (length (stored w k).strings) ≡ false = ground arith in
    rw miss (ground arith)

bytes-fresh :
    (w : Writer) (k : ℕ) (g : List ℕ)
    → w.err ≡ none
    → (stored w k).values_idx ≡ length (stored w k).values
    → write_cached_bytes w k g ≡ (fresh_write values_lane k g w, true)
unfolding write_cached_bytes
bytes-fresh w k g e h =
    let miss : ltb (stored w k).values_idx (length (stored w k).values) ≡ false = ground arith in
    rw miss (ground arith)

pub run_cached-fresh :
    (c : CachedCall) (w : Writer)
    → IsMade c
    → w.err ≡ none
    → cursor (lane_of c) (stored w (site_of c))
      ≡ length (values_in (lane_of c) (stored w (site_of c)))
    → run_cached c w ≡ (fresh_write (lane_of c) (site_of c) (made c) w, true)
unfolding run_cached write_cached_append_bytes
run_cached-fresh (cached_string k g) w m e h = string-fresh w k g e h
run_cached-fresh (cached_bytes k g) w m e h = bytes-fresh w k g e h
run_cached-fresh (cached_append k (ok g)) w m e h = bytes-fresh w k g e h
run_cached-fresh (cached_append k (err x)) w m e h = absurd m

string-stored :
    (w : Writer) (k : ℕ) (g v : List ℕ) (more : List (List ℕ))
    → w.err ≡ none
    → ahead_in strings_lane (stored w k) ≡ v ∷ more
    → write_cached_string w k g ≡ (stored_write strings_lane k v w, false)
unfolding write_cached_string
string-stored w k g v more e h =
    let (at, lt) = get_or-drop (stored w k).strings_idx (stored w k).strings v [] more h in
    let hit : ltb (stored w k).strings_idx (length (stored w k).strings) ≡ true = ground arith in
    rw (hit, at) (ground arith)

bytes-stored :
    (w : Writer) (k : ℕ) (g v : List ℕ) (more : List (List ℕ))
    → w.err ≡ none
    → ahead_in values_lane (stored w k) ≡ v ∷ more
    → write_cached_bytes w k g ≡ (stored_write values_lane k v w, false)
unfolding write_cached_bytes
bytes-stored w k g v more e h =
    let (at, lt) = get_or-drop (stored w k).values_idx (stored w k).values v [] more h in
    let hit : ltb (stored w k).values_idx (length (stored w k).values) ≡ true = ground arith in
    rw (hit, at) (ground arith)

append-stored :
    (w : Writer) (k : ℕ) (r : Result (List ℕ)) (v : List ℕ) (more : List (List ℕ))
    → w.err ≡ none
    → ahead_in values_lane (stored w k) ≡ v ∷ more
    → write_cached_append_bytes w k r ≡ (stored_write values_lane k v w, false)
unfolding write_cached_append_bytes
append-stored w k (ok g) v more e h = bytes-stored w k g v more e h
append-stored w k (err x) v more e h =
    let (at, lt) = get_or-drop (stored w k).values_idx (stored w k).values v [] more h in
    let hit : ltb (stored w k).values_idx (length (stored w k).values) ≡ true = ground arith in
    rw (hit, at) (ground arith)

pub run_cached-stored :
    (c : CachedCall) (w : Writer) (v : List ℕ) (more : List (List ℕ))
    → w.err ≡ none
    → ahead_in (lane_of c) (stored w (site_of c)) ≡ v ∷ more
    → run_cached c w ≡ (stored_write (lane_of c) (site_of c) v w, false)
unfolding run_cached
run_cached-stored (cached_string k g) w v more e h = string-stored w k g v more e h
run_cached-stored (cached_bytes k g) w v more e h = bytes-stored w k g v more e h
run_cached-stored (cached_append k r) w v more e h = append-stored w k r v more e h
