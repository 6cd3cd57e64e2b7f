-- ===== src/Schema/Validate/Refs.antt =====
-- tools/gsbmschema/validate.go: the structs that a field's shape strings name.
pub mod Fuel
use gsbm.Common.{
  ℕ, zero, suc, ◌+◌, ◌-◌, Bool, Option, none, some, List, [], ◌∷◌, ◌++◌, length, take, drop,
}
use gsbm.Common.{◌==◌, if◌then◌else◌, codes, has_prefix, cut}
use gsbm.Writer.State.{is_none}
use gsbm.Reader.Header.{same_bytes}
use gsbm.Schema.{Text, is_empty, FieldDecl, StructDecl}
use gsbm.Schema.Classifier.{find}

-- The loop of matchBracket, at index `i`.
unfoldable pub match_loop : ℕ → ℕ → Text → Option ℕ
match_loop depth i [] = none
match_loop depth i (c ∷ s) =
    let deeper = match_loop (depth + 1) (i + 1) s in
    let out = match_loop (depth - 1) (i + 1) s in
    let on = match_loop depth (i + 1) s in
    if c == b'[' then deeper else if c == b']' then if depth == 1 then some i else out else on

-- matchBracket; none is -1.
unfoldable pub match_bracket : Text → ℕ → Option ℕ
match_bracket s open_idx = match_loop 1 (open_idx + 1) (drop (open_idx + 1) s)

-- for len(shape) > 0 && shape[0] == '*'
unfoldable pub strip_stars : Text → Text
strip_stars [] = []
strip_stars (c ∷ s) = let rest = strip_stars s in if c == b'*' then rest else c ∷ s

abbrev pub map_parts : Option ℕ → Text → (Text → List Text → List Text) → List Text → List Text
map_parts none shape go out = out
map_parts (some close) shape go out =
    go (drop (close + 1) shape) (go (take (close - 4) (drop 4 shape)) out)

abbrev pub array_part : Option Text → (Text → List Text → List Text) → List Text → List Text
array_part none go out = out
array_part (some rest) go out = go rest out

module _ (by_key : List (Text × StructDecl)) where
  abbrev pub leaf_ref : Text → List Text → List Text
  leaf_ref shape out = if is_none (find same_bytes by_key shape) then out else out ++ shape ∷ []

  -- What collectRefs does with a shape that has no leading star.
  abbrev pub shape_refs : (Text → List Text → List Text) → Text → List Text → List Text
  shape_refs go shape out =
      if is_empty shape
      then out
      else if has_prefix shape (codes "map[")
      then map_parts (match_bracket shape 3) shape go out
      else if has_prefix shape (codes "[")
      then array_part (cut b']' shape).1 go out
      else leaf_ref shape out

  -- collectRefs; every call is on a shorter text, so its length is fuel enough.
  unfoldable pub collect_refs : ℕ → Text → List Text → List Text
  collect_refs zero shape out = out
  collect_refs (suc fuel) shape out =
      shape_refs (λ s o. collect_refs fuel s o) (strip_stars shape) out

  abbrev pub all_refs : Text → List Text → List Text
  all_refs shape out = collect_refs (length shape + 1) shape out

  -- referencedKeys
  unfoldable pub referenced_keys : FieldDecl → List Text
  referenced_keys fd = all_refs fd.map_value (all_refs fd.elem (all_refs fd.shape []))
