-- ===== src/Schema/Validate.antt =====
-- tools/gsbmschema/validate.go: the rules on one struct. A message is its code, with the struct's name and
-- the field's name that it is printed from.
pub mod Sound
pub mod Refs
pub mod Cycles
pub mod Whole
use gsbm.Common.{
  ℕ, Bool, true, false, not, ◌&&◌, ◌||◌, Option, none, some, List, [], ◌∷◌, ◌++◌, arith,
}
use gsbm.Common.{◌==◌, if◌then◌else◌, codes, has_prefix, cut}
use gsbm.Writer.State.{is_none}
use gsbm.Reader.Header.{same_bytes}
use gsbm.Schema.{Text, TypeRef, type_ref, is_empty, FieldDecl, StructDecl}
use gsbm.Schema.Width.{unclosed}
use gsbm.Schema.Tag.{among}
use gsbm.Schema.Classifier.{assign, find, tag_set}

-- primitiveKinds
abbrev pub primitive_kinds : List Text
primitive_kinds =
    codes "bool"
    ∷ codes "string"
    ∷ codes "int"
    ∷ codes "int8"
    ∷ codes "int16"
    ∷ codes "int32"
    ∷ codes "int64"
    ∷ codes "uint"
    ∷ codes "uint8"
    ∷ codes "uint16"
    ∷ codes "uint32"
    ∷ codes "uint64"
    ∷ codes "uintptr"
    ∷ codes "byte"
    ∷ codes "rune"
    ∷ []

-- builtinPrimitives
abbrev pub builtin_primitives : List Text
builtin_primitives = codes "float32" ∷ codes "float64" ∷ primitive_kinds

abbrev pub inside_primitive : Option Text → Bool
inside_primitive none = false
inside_primitive (some under) = among under primitive_kinds

abbrev pub behind_open : Option Text → Bool
behind_open none = false
behind_open (some s) = inside_primitive (unclosed s)

-- isAcceptableMapKey: what is behind the first parenthesis ends with the closing one.
unfoldable pub is_acceptable_map_key : Text → Bool
is_acceptable_map_key shape =
    if among shape primitive_kinds then true else behind_open (cut b'(' shape).1

-- IsBuiltinPrimitive
unfoldable pub is_builtin_primitive : Text → Bool
is_builtin_primitive name =
    if same_bytes name (codes "[]byte") || same_bytes name (codes "[]uint8")
    then true
    else among name builtin_primitives

pub data IssueCode : Type 0 where
  external track_presence_opaque borrow_strings_opaque generic : IssueCode
  tag_zero tag_duplicate tag_reserved map_bad_key optional_composite custom_composite : IssueCode

-- Issue, for the rules on structs
pub record Issue : Type 0 where
  pub code : IssueCode
  pub owner : Text
  pub member : Text

abbrev pub issue_if : Bool → IssueCode → Text → Text → List Issue
issue_if b c owner member =
    if b then record { code = c; owner = owner; member = member } ∷ [] else []

abbrev pub pkg_of : TypeRef → Text
pkg_of (type_ref pkg name args u) = pkg

abbrev pub name_of : TypeRef → Text
name_of (type_ref pkg name args u) = name

-- A slice, an array or a map
unfoldable pub is_composite : Text → Bool
is_composite shape = has_prefix shape (codes "[") || has_prefix shape (codes "map[")

unfoldable pub is_byte_slice : Text → Bool
is_byte_slice shape = same_bytes shape (codes "[]byte") || same_bytes shape (codes "[]uint8")

abbrev pub has_bad_key : FieldDecl → Bool
has_bad_key fd = not (is_empty fd.map_key) && not (is_acceptable_map_key fd.map_key)

abbrev pub is_optional_composite : FieldDecl → Bool
is_optional_composite fd =
    (fd.optional && (is_empty fd.custom && not (is_byte_slice fd.shape))) && is_composite fd.shape

abbrev pub is_custom_composite : FieldDecl → Bool
is_custom_composite fd = not (is_empty fd.custom) && is_composite fd.shape

abbrev pub present : {A : Type 0} → Option A → Bool
present o = not (is_none o)

-- One round of the loop over the fields: the tags seen so far, the reserved set, the field.
unfoldable pub field_issues : Text → List (ℕ × Bool) → List (ℕ × Text) → FieldDecl → List Issue
field_issues owner reserved seen fd =
    issue_if (fd.tag == 0) tag_zero owner fd.name
    ++ (issue_if (present (find ◌==◌ seen fd.tag)) tag_duplicate owner fd.name
        ++ (issue_if (present (find ◌==◌ reserved fd.tag)) tag_reserved owner fd.name
            ++ (issue_if (has_bad_key fd) map_bad_key owner fd.name
                ++ (issue_if (is_optional_composite fd) optional_composite owner fd.name
                    ++ issue_if (is_custom_composite fd) custom_composite owner fd.name))))

unfoldable pub fields_issues :
    Text → List (ℕ × Bool) → List (ℕ × Text) → List FieldDecl → List Issue
fields_issues owner reserved seen [] = []
fields_issues owner reserved seen (fd ∷ fds) =
    field_issues owner reserved seen fd
    ++ fields_issues owner reserved (assign ◌==◌ fd.tag fd.name seen) fds

abbrev pub is_nil : {A : Type 0} → List A → Bool
is_nil [] = true
is_nil (x ∷ xs) = false

abbrev pub is_external : List Text → StructDecl → Bool
is_external allowed sd =
    not (is_nil allowed)
    && (not (is_empty (pkg_of sd.type_of)) && not (among (pkg_of sd.type_of) allowed))

-- validateStruct; `allowed` are the input's package paths, and no list of them is no check.
unfoldable pub validate_struct : List Text → StructDecl → List Issue
validate_struct allowed sd =
    let owner = name_of sd.type_of in
    issue_if (is_external allowed sd) external owner []
    ++ (if sd.opaque
        then issue_if sd.track_presence track_presence_opaque owner []
          ++ issue_if sd.borrow_strings borrow_strings_opaque owner []
        else issue_if (not (is_nil sd.generic)) generic owner []
          ++ fields_issues owner (tag_set sd.reserved) [] sd.fields)
