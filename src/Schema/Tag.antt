-- ===== src/Schema/Tag.antt =====
-- tools/gsbmschema/parse.go: the `bin` struct tag. The value that reflect.StructTag.Lookup finds is the
-- input, none where the tag is absent; an error is its message's kind, with no field tag.
pub mod Legal
pub mod Print
pub mod Markers
use gsbm.Common.{
  ℕ, ◌-◌, ◌^◌, Bool, true, false, not, ◌&&◌, ◌||◌, Option, none, some, List, [], ◌∷◌, drop,
}
use gsbm.Common.{◌==◌, ltb, if◌then◌else◌, codes, has_prefix, split, parse_uint32}
use gsbm.Reader.Header.{same_bytes}
use gsbm.Schema.{Text, is_empty}

-- FieldTag
pub record FieldTag : Type 0 where
  pub skip : Bool
  pub tag : ℕ
  pub deprecated : Bool
  pub compat_write : Bool
  pub custom : Text
  pub cycle_break_via_id : Bool
  pub wire_override : Text
  pub set : Bool

-- The errors of ParseFieldTag
pub data TagError : Type 0 where
  empty_tag bad_number zero_tag tag_too_large : TagError
  repeated custom_repeated custom_empty type_repeated type_empty type_unknown : TagError
  unknown_option compat_without_deprecated : TagError
  id_ref_with_custom type_with_custom type_with_id_ref : TagError

pub data Parsed : Type 0 where
  good : FieldTag → Parsed
  bad : TagError → Parsed

abbrev pub and_then : Parsed → (FieldTag → Parsed) → Parsed
and_then (good ft) f = f ft
and_then (bad e) f = bad e

abbrev pub max_field_tag : ℕ
max_field_tag = 2 ^ 29 - 1

-- FieldTag{}
abbrev pub no_tag : FieldTag
no_tag = record {
  skip = false;
  tag = 0;
  deprecated = false;
  compat_write = false;
  custom = [];
  cycle_break_via_id = false;
  wire_override = [];
  set = false;
}

abbrev pub widths : List Text
widths =
    codes "int8"
    ∷ codes "int16"
    ∷ codes "int32"
    ∷ codes "int64"
    ∷ codes "uint8"
    ∷ codes "uint16"
    ∷ codes "uint32"
    ∷ codes "uint64"
    ∷ []

unfoldable pub among : Text → List Text → Bool
among s [] = false
among s (t ∷ ts) = same_bytes s t || among s ts

unfoldable pub deprecated_option : FieldTag → Parsed
deprecated_option ft =
    if ft.deprecated then bad repeated else good (record ft { deprecated = true })

unfoldable pub compat_write_option : FieldTag → Parsed
compat_write_option ft =
    if ft.compat_write then bad repeated else good (record ft { compat_write = true })

unfoldable pub id_ref_option : FieldTag → Parsed
id_ref_option ft =
    if ft.cycle_break_via_id then bad repeated else good (record ft { cycle_break_via_id = true })

unfoldable pub custom_option : FieldTag → Text → Parsed
custom_option ft name =
    if not (is_empty ft.custom)
    then bad custom_repeated
    else if is_empty name
    then bad custom_empty
    else good (record ft { custom = name })

unfoldable pub type_option : FieldTag → Text → Parsed
type_option ft width =
    if not (is_empty ft.wire_override)
    then bad type_repeated
    else if is_empty width
    then bad type_empty
    else if among width widths
    then good (record ft { wire_override = width })
    else bad type_unknown

-- One round of the loop over parts[1:]
unfoldable pub tag_option : FieldTag → Text → Parsed
tag_option ft p =
    if same_bytes p (codes "deprecated")
    then deprecated_option ft
    else if same_bytes p (codes "compat_write")
    then compat_write_option ft
    else if same_bytes p (codes "id_ref")
    then id_ref_option ft
    else if has_prefix p (codes "custom=")
    then custom_option ft (drop 7 p)
    else if has_prefix p (codes "type=")
    then type_option ft (drop 5 p)
    else bad unknown_option

unfoldable pub tag_options : FieldTag → List Text → Parsed
tag_options ft [] = good ft
tag_options ft (p ∷ ps) = and_then (tag_option ft p) (λ t. tag_options t ps)

-- The checks behind the loop
unfoldable pub tag_conflicts : FieldTag → Parsed
tag_conflicts ft =
    if ft.compat_write && not ft.deprecated
    then bad compat_without_deprecated
    else if ft.cycle_break_via_id && not (is_empty ft.custom)
    then bad id_ref_with_custom
    else if not (is_empty ft.wire_override) && not (is_empty ft.custom)
    then bad type_with_custom
    else if not (is_empty ft.wire_override) && ft.cycle_break_via_id
    then bad type_with_id_ref
    else good ft

unfoldable pub numbered_tag : Option ℕ → List Text → Parsed
numbered_tag none ps = bad bad_number
numbered_tag (some n) ps =
    if n == 0
    then bad zero_tag
    else if ltb max_field_tag n
    then bad tag_too_large
    else and_then (tag_options (record no_tag { set = true; tag = n }) ps) tag_conflicts

unfoldable pub tag_parts : List Text → Parsed
tag_parts [] = bad empty_tag
tag_parts (p ∷ ps) = if is_empty p then bad empty_tag else numbered_tag (parse_uint32 p) ps

-- ParseFieldTag
unfoldable pub parse_field_tag : Option Text → Parsed
parse_field_tag none = good no_tag
parse_field_tag (some raw) =
    if same_bytes raw (codes "-")
    then good (record no_tag { set = true; skip = true })
    else tag_parts (split b',' raw)
