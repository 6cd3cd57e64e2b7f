-- ===== src/Tests/Pool.antt =====
-- A pool that outgrows its chunk, and a slice inside the budget.
use gsbm.Common.{◌≡◌, refl, some, [], ◌∷◌, pos, negsuc}
use gsbm.Reader.State.{new_reader}
use gsbm.Pool.{TypedPool, make_slice}
use gsbm.Pool.Apart.{Apart, alloc_all, alloc_all-Apart}

abbrev empty_pool : TypedPool
empty_pool = record { memory = record { chunks = []; cur = 0; used = 0 }; chunk_cap = 0 }

alloc_all-Apart_example :
    Apart (alloc_all (pos 200 ∷ negsuc 0 ∷ pos 50 ∷ pos 100 ∷ pos 300 ∷ []) empty_pool).0
alloc_all-Apart_example =
    alloc_all-Apart (pos 200 ∷ negsuc 0 ∷ pos 50 ∷ pos 100 ∷ pos 300 ∷ []) empty_pool

three : (make_slice (new_reader []) 8 (pos 3)).0 ≡ some 3
unfolding make_slice
three = refl
