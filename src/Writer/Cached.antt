-- ===== src/Writer/Cached.antt =====
-- The materialization cache of storage/gsbm/writer.go.
use gsbm.Common.{ℕ, ◌+◌, Bool, true, false, List, [], ◌∷◌, ◌++◌, map}
use gsbm.Common.{ltb, ◌==◌, if◌then◌else◌, length, get_or}
use gsbm.Errors.{Result, ok, err}
use gsbm.Writer.State.{Writer, ScratchEntry, failed, set_err}
use gsbm.Writer.Fields.{write_bytes}

abbrev pub empty_entry : ScratchEntry
empty_entry = record { values = []; strings = []; strings_idx = 0; values_idx = 0 }

-- entryFor: a missing entry is a fresh one.
unfoldable pub entry_for : List (ℕ × ScratchEntry) → ℕ → ScratchEntry
entry_for [] callsite = empty_entry
entry_for ((k, e) ∷ m) callsite = if k == callsite then e else entry_for m callsite

-- The map with the entry that the pointer of entryFor leads to changed.
unfoldable pub put_entry : List (ℕ × ScratchEntry) → ℕ → ScratchEntry → List (ℕ × ScratchEntry)
put_entry [] callsite e = (callsite, e) ∷ []
put_entry ((k, d) ∷ m) callsite e =
    if k == callsite then (k, e) ∷ m else (k, d) ∷ put_entry m callsite e

-- A Writer, and whether the call ran the materializer.
abbrev pub Visit : Type 0
Visit = Writer × Bool

-- WriteCachedString, where `gen` is what the function would return.
unfoldable pub write_cached_string : Writer → ℕ → List ℕ → Visit
write_cached_string w callsite gen =
    let e = entry_for w.scratch callsite in
    let cached = ltb e.strings_idx (length e.strings) in
    let s = if cached then get_or e.strings e.strings_idx [] else gen in
    let e' = record e {
      strings = if cached then e.strings else e.strings ++ gen ∷ [];
      strings_idx = e.strings_idx + 1;
    } in
    if failed w.err then (w, false) else (
      write_bytes (record w { scratch = put_entry w.scratch callsite e' }) s,
      if cached then false else true,
    )

-- WriteCachedBytes
unfoldable pub write_cached_bytes : Writer → ℕ → List ℕ → Visit
write_cached_bytes w callsite gen =
    let e = entry_for w.scratch callsite in
    let cached = ltb e.values_idx (length e.values) in
    let b = if cached then get_or e.values e.values_idx [] else gen in
    let e' = record e {
      values = if cached then e.values else e.values ++ gen ∷ [];
      values_idx = e.values_idx + 1;
    } in
    if failed w.err then (w, false) else (
      write_bytes (record w { scratch = put_entry w.scratch callsite e' }) b,
      if cached then false else true,
    )

-- WriteCachedAppendBytes, where the append function may fail.
unfoldable pub write_cached_append_bytes : Writer → ℕ → Result (List ℕ) → Visit
write_cached_append_bytes w callsite (ok b) = write_cached_bytes w callsite b
write_cached_append_bytes w callsite (err x) =
    let e = entry_for w.scratch callsite in
    let cached = ltb e.values_idx (length e.values) in
    let e' = record e { values_idx = e.values_idx + 1 } in
    if failed w.err
    then (w, false)
    else if cached
    then (
      write_bytes (record w { scratch = put_entry w.scratch callsite e' })
          (get_or e.values e.values_idx []),
      false,
    )
    else (set_err (record w { scratch = put_entry w.scratch callsite e }) x, true)

abbrev pub rewind : ℕ × ScratchEntry → ℕ × ScratchEntry
rewind (k, e) = (k, record e { strings_idx = 0; values_idx = 0 })

-- adoptScratch: the cache moves over, with every cursor rewound; the other Writer loses it.
unfoldable pub adopt_scratch : Writer → Writer → Writer × Writer
adopt_scratch w other =
    (record w { scratch = map rewind other.scratch }, record other { scratch = [] })
