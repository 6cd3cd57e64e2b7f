-- ===== src/Schema/GoTypes/Supported.antt =====
-- tools/gsbmschema/discover.go: checkSupportedType, which the generator's emitter relies on. An issue is its
-- code; its message names the field and the type.
pub mod Grammar
pub mod Cases
pub mod Accepted
use gsbm.Common.{ℕ, zero, suc, ◌+◌, Bool, true, false, not, ◌&&◌, ◌||◌, List, [], ◌∷◌}
use gsbm.Common.{ltb, if◌then◌else◌}
use gsbm.Schema.GoTypes.{
  Kind, GoType, GoTypes, no_types, types, basic, named, struct_body, slice, array, map_type,
  pointer, interface_type, channel, signature, other_type, is_struct, is_supported_kind,
  is_basic_byte, is_supported_basic, is_leaf_element, is_slice_element,
}

-- MaxNestingDepth
abbrev pub max_nesting_depth : ℕ
max_nesting_depth = 3

pub data TypeIssue : Type 0 where
  generic_instance unsupported nested_pointer nesting_too_deep : TypeIssue

abbrev pub has_args : GoTypes → Bool
has_args no_types = false
has_args (types t ts) = true

-- The element is itself a slice or a map.
abbrev pub is_nested : GoType → Bool
is_nested (slice e) = true
is_nested (map_type k v) = true
is_nested _ = false

abbrev pub too_deep : ℕ → Bool
too_deep composite = ltb max_nesting_depth (composite + 1)

abbrev pub element_rule : Bool → GoType → List TypeIssue → List TypeIssue
element_rule ok e below = if is_nested e then below else if ok then below else unsupported ∷ []

-- The case of a slice, given the issues below its element
unfoldable pub slice_rule : ℕ → GoType → List TypeIssue → List TypeIssue
slice_rule composite e below =
    if too_deep composite
    then nesting_too_deep ∷ []
    else if is_basic_byte e
    then []
    else element_rule (is_slice_element e) e below

-- The case of a map, given the issues below its value
unfoldable pub map_rule : ℕ → GoType → List TypeIssue → List TypeIssue
map_rule composite v below =
    if too_deep composite then nesting_too_deep ∷ [] else element_rule (is_leaf_element v) v below

-- The case of a named type whose underlying type is a slice
unfoldable pub alias_rule : ℕ → GoType → List TypeIssue → List TypeIssue
alias_rule depth e below =
    if is_basic_byte e
    then []
    else if ltb 0 depth
    then unsupported ∷ []
    else element_rule (is_slice_element e) e below

abbrev pub named_rule : GoType → List TypeIssue
named_rule u = if is_struct u then [] else if is_supported_basic u then [] else unsupported ∷ []

-- The check on generic instantiations that stands before the switch
abbrev pub generic_rule : ℕ → GoTypes → GoType → List TypeIssue → List TypeIssue
generic_rule depth args u rest =
    if has_args args && (ltb 0 depth || not (is_struct u)) then generic_instance ∷ [] else rest

-- checkSupportedType; the pointee of a slice's pointer element is checked in the pointer's place.
unfoldable pub check_supported_type : ℕ → ℕ → GoType → List TypeIssue
check_supported_type depth composite (basic k n) =
    if is_supported_kind k then [] else unsupported ∷ []
check_supported_type depth composite (named pkg name exported args (slice (pointer p))) =
    generic_rule depth args (slice (pointer p))
      (alias_rule depth (pointer p) (check_supported_type (depth + 1) (composite + 1) p))
check_supported_type depth composite (named pkg name exported args (slice e)) =
    generic_rule depth args (slice e)
      (alias_rule depth e (check_supported_type (depth + 1) (composite + 1) e))
check_supported_type depth composite (named pkg name exported args u) =
    generic_rule depth args u (named_rule u)
check_supported_type depth composite (pointer e) =
    let below = check_supported_type (depth + 1) composite e in
    if ltb 0 depth then nested_pointer ∷ [] else below
check_supported_type depth composite (slice (pointer p)) =
    slice_rule composite (pointer p) (check_supported_type (depth + 1) (composite + 1) p)
check_supported_type depth composite (slice e) =
    slice_rule composite e (check_supported_type (depth + 1) (composite + 1) e)
check_supported_type depth composite (map_type k v) =
    map_rule composite v (check_supported_type (depth + 1) (composite + 1) v)
check_supported_type depth composite t = unsupported ∷ []
