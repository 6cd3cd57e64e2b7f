-- ===== src/Pool.antt =====
-- The bump allocators: TypedPool.Alloc and the budget of MakeSlice in storage/gsbm/allocator.go, and
-- allocBytes of storage/gsbmarena/arena.go. A chunk is its length; a slice is a place in a chunk.
pub mod Apart
use gsbm.Common.{
  ℕ, ◌+◌, ◌*◌, ◌^◌, ◌%◌, max, Bool, ◌||◌, Option, none, some, List, [], ◌∷◌, ◌++◌, length,
}
use gsbm.Common.{ltb, ◌==◌, if◌then◌else◌, ℤ, pos, negsuc}
use gsbm.Errors.{alloc_too_large}
use gsbm.Reader.State.{Reader, set_err}

-- The chunks in the order in which they were made, the length of the current one, and what of it is
-- handed out.
pub record Bump : Type 0 where
  pub chunks : List ℕ
  pub cur : ℕ
  pub used : ℕ

-- `cur[at : at+len : at+len]` of the chunk that was made as number `chunk`, counted from 1, and that
-- has the length `of_len`.
pub record Slice : Type 0 where
  pub chunk : ℕ
  pub at : ℕ
  pub len : ℕ
  pub of_len : ℕ

-- A new chunk where the current one has too little room. Lengths do not wrap: where `used + n` would exceed
-- Go's int, the source panics, in the slice expression or in `make`.
unfoldable pub with_room : ℕ → ℕ → Bump → Bump
with_room chunk_len n p =
    if ltb p.cur (p.used + n)
    then record { chunks = p.chunks ++ max chunk_len n ∷ []; cur = max chunk_len n; used = 0 }
    else p

unfoldable pub bump : ℕ → ℕ → Bump → Slice × Bump
bump chunk_len n p =
    let q = with_room chunk_len n p in
    (
      record { chunk = length q.chunks; at = q.used; len = n; of_len = q.cur },
      record q { used = q.used + n },
    )

-- TypedPool
pub record TypedPool : Type 0 where
  pub memory : Bump
  pub chunk_cap : ℕ

-- defaultChunkCap
abbrev pub default_chunk_cap : ℕ
default_chunk_cap = 256

abbrev pub drawn : Slice × Bump → ℕ → Option Slice × TypedPool
drawn (s, m) cap = (some s, record { memory = m; chunk_cap = cap })

-- TypedPool.Alloc, whose nil slice is `none`
unfoldable pub alloc : TypedPool → ℤ → Option Slice × TypedPool
alloc p (negsuc n) = (none, p)
alloc p (pos n) =
    let cap = if p.chunk_cap == 0 then default_chunk_cap else p.chunk_cap in
    if n == 0 then (none, p) else drawn (bump cap n p.memory) cap

-- arenaChunkBytes
abbrev pub arena_chunk_bytes : ℕ
arena_chunk_bytes = 4096

-- Arena.allocBytes
unfoldable pub alloc_bytes : Bump → ℕ → Slice × Bump
alloc_bytes a n = bump arena_chunk_bytes n a

-- maxSliceAllocBytes
abbrev pub max_slice_alloc_bytes : ℕ
max_slice_alloc_bytes = 2 ^ 24

-- MakeSlice up to the allocation, for elements of `size` bytes: the length to allocate, if any.
unfoldable pub make_slice : Reader → ℕ → ℤ → Option ℕ × Reader
make_slice r size (negsuc n) = (none, set_err r alloc_too_large)
make_slice r size (pos n) =
    if n == 0
    then (none, r)
    else if ltb max_slice_alloc_bytes n || ltb max_slice_alloc_bytes (n * size % 2 ^ 64)
    then (none, set_err r alloc_too_large)
    else (some n, r)
