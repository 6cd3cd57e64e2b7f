-- ===== src/Schema/Validate/Cycles.antt =====
-- tools/gsbmschema/validate.go: validateNoCycles, a depth-first walk of the struct graph.
pub mod Diagnostic
pub mod Lowest
pub mod Marks
pub mod Total
pub mod Graph
pub mod Search
pub mod Acyclic
use gsbm.Common.{
  ℕ, zero, suc, ◌+◌, Bool, true, false, not, ◌||◌, Option, none, some, List, [], ◌∷◌, ◌++◌, length,
  drop,
}
use gsbm.Common.{if◌then◌else◌}
use gsbm.Reader.Header.{same_bytes}
use gsbm.Schema.{Text, is_empty, ref_key, TypeRef, FieldDecl, StructDecl, Schema}
use gsbm.Schema.Classifier.{assign, find, index_by_key}
use gsbm.Schema.Validate.Refs.{referenced_keys}

-- The value of `state` under a key; a key without one is unseen.
pub data Mark : Type 0 where
  on_stack finished : Mark

abbrev pub Marks : Type 0
Marks = List (Text × Mark)

-- A cycle: its nodes, and the field on each that leads to the next.
pub record Cycle : Type 0 where
  pub nodes : List Text
  pub edges : List FieldDecl

pub record Visit : Type 0 where
  pub marks : Marks
  pub found : List Cycle

abbrev pub and_then : Option Visit → (Visit → Option Visit) → Option Visit
and_then none f = none
and_then (some v) f = f v

abbrev pub after : List Cycle → Visit → Option Visit
after cs w = some (record { marks = w.marks; found = cs ++ w.found })

-- The first index of a node in the path, none for -1.
unfoldable pub index_of : Text → List Text → Option ℕ
index_of n [] = none
index_of n (p ∷ ps) =
    let rest = index_of n ps in
    if same_bytes p n then some 0 else elim rest [ none ↦ none | some i ↦ some (i + 1) ]

abbrev pub cycle_at : Option ℕ → List Text → List FieldDecl → FieldDecl → List Cycle
cycle_at none path edges fd = []
cycle_at (some idx) path edges fd =
    record { nodes = drop idx path; edges = drop idx edges ++ fd ∷ [] } ∷ []

abbrev pub Descend : Type 0
Descend = Text → List Text → List FieldDecl → Marks → Option Visit

-- The switch on state[n]
abbrev pub follow :
    Option Mark → Descend → List Text → List FieldDecl → FieldDecl → Text → Marks → Option Visit
follow none go path edges fd n m = go n path (edges ++ fd ∷ []) m
follow (some on_stack) go path edges fd n m =
    some (record { marks = m; found = cycle_at (index_of n path) path edges fd })
follow (some finished) go path edges fd n m = some (record { marks = m; found = [] })

unfoldable pub refs_loop :
    Descend → List Text → List FieldDecl → FieldDecl → List Text → Marks → Option Visit
refs_loop go path edges fd [] m = some (record { marks = m; found = [] })
refs_loop go path edges fd (n ∷ ns) m =
    and_then (follow (find same_bytes m n) go path edges fd n m)
      (λ v. and_then (refs_loop go path edges fd ns v.marks) (after v.found))

-- A field that does not descend into its target
abbrev pub breaks_cycle : FieldDecl → Bool
breaks_cycle fd = fd.cycle_break || not (is_empty fd.custom)

abbrev pub live_refs : List (Text × StructDecl) → FieldDecl → List Text
live_refs by_key fd = if breaks_cycle fd then [] else referenced_keys by_key fd

unfoldable pub fields_loop :
    List (Text × StructDecl)
    → Descend
    → List Text
    → List FieldDecl
    → List FieldDecl
    → Marks
    → Option Visit
fields_loop by_key go path edges [] m = some (record { marks = m; found = [] })
fields_loop by_key go path edges (fd ∷ fds) m =
    and_then (refs_loop go path edges fd (live_refs by_key fd) m)
      (λ v. and_then (fields_loop by_key go path edges fds v.marks) (after v.found))

abbrev pub leave : Text → Visit → Option Visit
leave key v = some (record v { marks = assign same_bytes key finished v.marks })

abbrev pub enter :
    List (Text × StructDecl)
    → Option StructDecl
    → Descend
    → Text
    → List Text
    → List FieldDecl
    → Marks
    → Option Visit
enter by_key none go key path edges m = some (record { marks = m; found = [] })
enter by_key (some sd) go key path edges m =
    and_then
      (fields_loop by_key go (path ++ key ∷ []) edges sd.fields (assign same_bytes key on_stack m))
      (leave key)

-- dfs: a call marks a struct that was unseen, so the number of structs is fuel enough.
unfoldable pub dfs : List (Text × StructDecl) → ℕ → Descend
dfs by_key zero key path edges m = none
dfs by_key (suc fuel) key path edges m =
    enter by_key (find same_bytes by_key key) (dfs by_key fuel) key path edges m

unfoldable pub roots_loop : List (Text × StructDecl) → List TypeRef → Marks → Option Visit
roots_loop by_key [] m = some (record { marks = m; found = [] })
roots_loop by_key (r ∷ rs) m =
    and_then (dfs by_key (length by_key + 1) (ref_key r) [] [] m)
      (λ v. and_then (roots_loop by_key rs v.marks) (after v.found))

-- validateNoCycles; none if the fuel ran out, which does not happen.
unfoldable pub validate_no_cycles : Schema → Option Visit
validate_no_cycles s = roots_loop (index_by_key s.structs) s.roots []
