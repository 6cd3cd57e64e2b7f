-- ===== src/Schema/Validate/Cycles/Diagnostic.antt =====
-- tools/gsbmschema/validate.go: the message of a cycle, with the field that it suggests to break.
use gsbm.Common.{
  ℕ, zero, suc, ◌+◌, Bool, true, not, ◌&&◌, ◌||◌, Option, none, some, List, [], ◌∷◌, ◌++◌, map,
  length, drop,
}
use gsbm.Common.{
  ◌==◌, ltb, leb, if◌then◌else◌, codes, has_suffix, contains, cut, decimal, join_text,
}
use gsbm.Schema.{Text, FieldDecl}
use gsbm.Schema.Width.{after_last}
use gsbm.Schema.Tag.{among}
use gsbm.Schema.Validate.Cycles.{Cycle}

abbrev lower : ℕ → ℕ
lower c = if leb b'A' c && leb c b'Z' then c + 32 else c

-- The first letter in lower case, and how many more bytes it takes. Outside of ASCII two runes have an
-- ASCII letter for lower case: U+0130 (i) and U+212A (k); other bytes are left alone, since the tests on
-- the result look for ASCII words.
abbrev lower_head : ℕ → Text → ℕ × ℕ
lower_head c [] = (lower c, 0)
lower_head c (d ∷ []) = if c == 196 && d == 176 then (b'i', 1) else (lower c, 0)
lower_head c (d ∷ e ∷ s) =
    if c == 196 && d == 176
    then (b'i', 1)
    else if c == 226 && (d == 132 && e == 170)
    then (b'k', 2)
    else (lower c, 0)

-- strings.ToLower, with the bytes still to skip of the letter before
unfoldable pub to_lower : ℕ → Text → Text
to_lower n [] = []
to_lower zero (c ∷ s) = let h = lower_head c s in h.0 ∷ to_lower h.1 s
to_lower (suc n) (c ∷ s) = to_lower n s

-- isCycleBreakName
unfoldable pub is_cycle_break_name : Text → Bool
is_cycle_break_name name =
    let s = to_lower 0 name in
    if contains s (codes "previous") || contains s (codes "parent")
    then true
    else has_suffix s (codes "ref")

abbrev pub or_text : Option Text → Text → Text
or_text none s = s
or_text (some t) s = t

-- What is behind the last dot of a text: `key[i+1:]`, none without a dot.
abbrev behind_dot : Text → Option Text
behind_dot s = after_last (b'.' ∷ []) s

abbrev with_tail : Option Text → Text → Option Text
with_tail none tail = none
with_tail (some s) tail = some (s ++ tail)

-- shortTypeName: the last dot is looked for before the first bracket, and the name runs to the end.
unfoldable pub short_type_name : Text → Text
short_type_name key =
    let head = (cut b'[' key).0 in
    or_text (with_tail (behind_dot head) (drop (length head) key)) key

-- A candidate takes the place of the best one: a lower tag, or the same tag and the better name.
abbrev pub better : FieldDecl → FieldDecl → Bool
better fd best =
    ltb fd.tag best.tag
    || (fd.tag == best.tag && (is_cycle_break_name fd.name && not (is_cycle_break_name best.name)))

-- The loop that sets bestIdx: the index, bestIdx and cycleEdges[bestIdx].
unfoldable pub pick : ℕ → ℕ → FieldDecl → List FieldDecl → ℕ
pick i best b [] = best
pick i best b (fd ∷ fds) =
    let wins = better fd b in pick (i + 1) (if wins then i else best) (if wins then fd else b) fds

unfoldable pub best_index : List FieldDecl → ℕ
best_index [] = 0
best_index (fd ∷ fds) = pick 0 0 fd (fd ∷ fds)

-- cand
pub record Candidate : Type 0 where
  pub owner : Text
  pub name : Text
  pub tag : ℕ

abbrev pub dotted : Text → Text → Text
dotted owner name = owner ++ b'.' ∷ name

-- The loop over the other fields that have a telling name, without repetitions.
unfoldable pub telling : ℕ → ℕ → List Text → List Text → List FieldDecl → List Candidate
telling best i seen nodes [] = []
telling best i seen [] (fd ∷ fds) = []
telling best i seen (node ∷ nodes) (fd ∷ fds) =
    let owner = short_type_name node in
    let skip =
      i == best || (not (is_cycle_break_name fd.name) || among (dotted owner fd.name) seen) in
    let rest =
      telling best (i + 1) (if skip then seen else dotted owner fd.name ∷ seen) nodes fds in
    if skip then rest else record { owner = owner; name = fd.name; tag = fd.tag } ∷ rest

-- ` → ` and ` — ` in UTF-8
abbrev arrow : Text
arrow = 32 ∷ 0xe2 ∷ 0x86 ∷ 0x92 ∷ 32 ∷ []

abbrev long_dash : Text
long_dash = 32 ∷ 0xe2 ∷ 0x80 ∷ 0x94 ∷ 32 ∷ []

unfoldable pub cycle_steps : List Text → List FieldDecl → List Text
cycle_steps nodes [] = []
cycle_steps [] (fd ∷ fds) = []
cycle_steps (node ∷ nodes) (fd ∷ fds) =
    dotted (short_type_name node) fd.name ∷ cycle_steps nodes fds

abbrev text_at : List Text → ℕ → Text
text_at [] i = []
text_at (t ∷ ts) zero = t
text_at (t ∷ ts) (suc i) = text_at ts i

-- `%s.%s (tag %d)`
abbrev candidate_text : Candidate → Text
candidate_text c = dotted c.owner c.name ++ (codes " (tag " ++ (decimal c.tag ++ codes ")"))

abbrev telling_text : List Candidate → Text
telling_text [] = []
telling_text (c ∷ cs) =
    codes "; name-heuristic candidates: " ++ join_text (codes ", ") (map candidate_text (c ∷ cs))

abbrev suggestion : List Text → List FieldDecl → ℕ → Option FieldDecl → Text
suggestion nodes edges best none = []
suggestion nodes edges best (some fd) =
    codes "; suggested break: "
    ++ (candidate_text
          (record { owner = short_type_name (text_at nodes best); name = fd.name; tag = fd.tag })
        ++ (long_dash
            ++ (codes "add the `id_ref` tag option (`bin:\""
                ++ (decimal fd.tag
                    ++ codes ",id_ref\"`) or the //gsbm:cycle_break_via_id comment"))))

abbrev pub get_elem? : List FieldDecl → ℕ → Option FieldDecl
get_elem? [] i = none
get_elem? (x ∷ xs) zero = some x
get_elem? (x ∷ xs) (suc i) = get_elem? xs i

-- formatCycleDiagnostic
unfoldable pub format_cycle_diagnostic : Cycle → Text
format_cycle_diagnostic c =
    let best = best_index c.edges in
    codes "cycle in closure: "
    ++ (join_text arrow (cycle_steps c.nodes c.edges)
        ++ (arrow
            ++ (short_type_name (text_at c.nodes 0)
                ++ (suggestion c.nodes c.edges best (get_elem? c.edges best)
                    ++ telling_text (telling best 0 [] c.nodes c.edges)))))
