-- ===== src/Schema/Build/Collisions.antt =====
-- tools/gsbmschema/discover.go: checkFlattenedTagCollisions. A FieldDecl pointer is its place in the list.
pub mod Rounds
pub mod Direct
pub mod Kept
use gsbm.Common.{ℕ, ◌+◌, Bool, false, not, ◌&&◌, ◌||◌, Option, none, some, List, [], ◌∷◌, ◌++◌}
use gsbm.Common.{◌==◌, if◌then◌else◌}
use gsbm.Schema.{is_empty, FieldDecl}

-- A place whose tag is in `first`, with its field.
abbrev pub Firsts : Type 0
Firsts = List (ℕ × FieldDecl)

-- first[tag]
unfoldable pub first_at : Firsts → ℕ → Option (ℕ × FieldDecl)
first_at [] tag = none
first_at ((i, fd) ∷ fs) tag = if fd.tag == tag then some (i, fd) else first_at fs tag

-- The places to drop, and the number of collisions reported.
pub record Sweep : Type 0 where
  pub drop : List ℕ
  pub reported : ℕ

abbrev pub is_flat : FieldDecl → Bool
is_flat fd = not (is_empty fd.flattened_from)

-- A field whose tag was seen at place `j` before
unfoldable pub collide : ℕ → FieldDecl → ℕ → FieldDecl → Sweep → Sweep
collide j prev i fd s =
    if not (is_flat prev) && not (is_flat fd)
    then s
    else record { drop = (if is_flat fd then i else j) ∷ s.drop; reported = s.reported + 1 }

abbrev pub next_firsts : Option (ℕ × FieldDecl) → ℕ → FieldDecl → Firsts → Firsts
next_firsts none i fd first = first ++ (i, fd) ∷ []
next_firsts (some p) i fd first = first

abbrev pub next_sweep : Option (ℕ × FieldDecl) → ℕ → FieldDecl → Sweep → Sweep
next_sweep none i fd s = s
next_sweep (some (j, prev)) i fd s = collide j prev i fd s

-- The loop over the collected fields
unfoldable pub sweep : ℕ → Firsts → Sweep → List FieldDecl → Sweep
sweep i first s [] = s
sweep i first s (fd ∷ fds) =
    let untagged = fd.tag == 0 in
    let seen = first_at first fd.tag in
    sweep (i + 1) (if untagged then first else next_firsts seen i fd first)
      (if untagged then s else next_sweep seen i fd s) fds

unfoldable pub among_places : ℕ → List ℕ → Bool
among_places i [] = false
among_places i (j ∷ js) = i == j || among_places i js

-- The fields that are not dropped, from place `i` on
unfoldable pub keep_from : ℕ → List ℕ → List FieldDecl → List FieldDecl
keep_from i places [] = []
keep_from i places (fd ∷ fds) =
    let rest = keep_from (i + 1) places fds in if among_places i places then rest else fd ∷ rest

-- checkFlattenedTagCollisions: the fields left, and how many issues were reported.
unfoldable pub check_flattened_tag_collisions : List FieldDecl → List FieldDecl × ℕ
check_flattened_tag_collisions fds =
    let s = sweep 0 [] (record { drop = []; reported = 0 }) fds in
    (keep_from 0 s.drop fds, s.reported)
