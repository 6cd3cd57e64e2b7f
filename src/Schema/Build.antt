-- ===== src/Schema/Build.antt =====
-- tools/gsbmschema/discover.go and idref.go: from a struct field to its FieldDecl. An issue is its code; the
-- position and the words of its message are left out. A field's doc comment is what the syntax tree
-- holds beside it, and its tag what `bin` looks up.
pub mod Keeps
pub mod Legal
pub mod Embed
pub mod Collisions
use gsbm.Common.{
  ℕ, Bool, true, false, not, ◌&&◌, ◌||◌, Option, none, some, List, [], ◌∷◌, ◌++◌, map,
}
use gsbm.Common.{◌==◌, if◌then◌else◌, codes}
use gsbm.Writer.State.{is_none}
use gsbm.Schema.{Text, is_empty, differs, FieldDecl}
use gsbm.Schema.Tag.{FieldTag, TagError, Parsed, good, bad, parse_field_tag}
use gsbm.Schema.Tag.Markers.{Markers, MarkerError, Walk, parse_markers}
use gsbm.Schema.GoTypes.{
  GoType, basic, named, struct_body, slice, array, map_type, pointer, interface_type, channel,
  signature, other_type, underlying_type, is_pointer_to_struct, is_id_ref_field_type,
}
use gsbm.Schema.GoTypes.Override.{Compat, legal, illegal, wire_override_compat}
use gsbm.Schema.GoTypes.Shape.{wire_for, shape_of, fill_type_shape}
use gsbm.Schema.GoTypes.Supported.{TypeIssue, check_supported_type}

-- *types.Var with its struct tag and its comment
pub record Var : Type 0 where
  pub name : Text
  pub type : GoType
  pub tag : Option Text
  pub doc : Option (List Text)
  pub exported : Bool
  pub pkg : Text
  pub anonymous : Bool

-- The codes of the issues that are found on a field
pub data BuildIssue : Type 0 where
  tag_parse marker_parse track_presence_misplaced borrow_strings_misplaced : BuildIssue
  tag_missing bad_id_ref type_width_mismatch custom_composite : BuildIssue
  missing_id_tag unexported_id_field unexported_id_type : BuildIssue
  type_issue : TypeIssue → BuildIssue
  anonymous_non_struct anonymous_generic embed_cycle anonymous_opaque : BuildIssue
  anonymous_unexported_type anonymous_unexported_field tag_collision : BuildIssue

-- The issues recorded, and the field if one is returned.
pub record Built : Type 0 where
  pub issues : List BuildIssue
  pub decl : Option FieldDecl

abbrev pub refuse : BuildIssue → Built
refuse i = record { issues = i ∷ []; decl = none }

abbrev pub nothing_built : Built
nothing_built = record { issues = []; decl = none }

abbrev pub also : List BuildIssue → Built → Built
also is b = record { issues = is ++ b.issues; decl = b.decl }

abbrev pub marker_issues : Option MarkerError → List BuildIssue
marker_issues none = []
marker_issues (some e) = marker_parse ∷ []

-- The FieldDecl literal, before its type is looked at
abbrev pub blank_decl : Text → FieldTag → Bool → FieldDecl
blank_decl name ft cycle_break = record {
  name = name;
  tag = ft.tag;
  shape = [];
  wire = [];
  optional = false;
  deprecated = ft.deprecated;
  compat_write = ft.compat_write;
  cycle_break = cycle_break;
  map_key = [];
  map_value = [];
  elem = [];
  map_key_underlying = [];
  custom = ft.custom;
  wire_override = ft.wire_override;
  alias_type = none;
  flattened_from = [];
  flattened_from_pointer = false;
}

abbrev pub is_composite_type : GoType → Bool
is_composite_type (slice e) = true
is_composite_type (map_type k v) = true
is_composite_type (array n e) = true
is_composite_type _ = false

abbrev pub pkg_path : GoType → Text
pkg_path (named pkg name exported args u) = pkg
pkg_path _ = []

abbrev pub is_unexported_name : GoType → Bool
is_unexported_name (named pkg name exported args u) = not exported
is_unexported_name _ = false

-- The ID field that LookupIDRefField finds, and its option.
pub data IdLookup : Type 0 where
  id_field : Var → Text → IdLookup
  no_id : IdLookup

abbrev pub id_candidate : Var → Parsed → IdLookup → IdLookup
id_candidate v (bad e) rest = rest
id_candidate v (good ft) rest =
    if not ft.set || (ft.skip || not (ft.tag == 1))
    then rest
    else if is_id_ref_field_type v.type
    then id_field v ft.wire_override
    else no_id

-- The loop of LookupIDRefField over the target's fields
unfoldable pub lookup_id_fields : List Var → IdLookup
lookup_id_fields [] = no_id
lookup_id_fields (v ∷ vs) = id_candidate v (parse_field_tag v.tag) (lookup_id_fields vs)

abbrev pub id_issue : BuildIssue → FieldDecl → Built
id_issue i fd = record { issues = i ∷ []; decl = some fd }

abbrev pub compat_ok : Compat → Bool
compat_ok (legal bits signed) = true
compat_ok (illegal r) = false

module _ (type_string : GoType → Text) (fields_of : GoType → List Var) (owner_pkg : Text) where
  -- resolveIDRefField behind the two checks on exported names
  unfoldable pub resolved_id : Var → Text → FieldDecl → Built
  resolved_id id override fd =
      let described = record fd {
        wire = wire_for id.type;
        shape = fd.shape ++ (codes "/id:" ++ shape_of type_string id.type);
      } in
      if is_empty override
      then record { issues = []; decl = some described }
      else if compat_ok (wire_override_compat (some id.type) override)
      then record { issues = []; decl = some (record described { wire_override = override }) }
      else id_issue type_width_mismatch described

  unfoldable pub checked_id : GoType → IdLookup → FieldDecl → Built
  checked_id target no_id fd = id_issue missing_id_tag fd
  checked_id target (id_field id override) fd =
      if not id.exported && differs owner_pkg (pkg_path target)
      then id_issue unexported_id_field fd
      else if is_unexported_name id.type
          && (not (is_empty (pkg_path id.type)) && differs owner_pkg (pkg_path id.type))
      then id_issue unexported_id_type fd
      else resolved_id id override fd

  -- resolveIDRefField
  unfoldable pub resolve_id_ref_field : GoType → FieldDecl → Built
  resolve_id_ref_field (pointer target) fd =
      checked_id target (lookup_id_fields (fields_of target)) fd
  resolve_id_ref_field t fd = record { issues = []; decl = some fd }

  abbrev pub also_types : GoType → Built → Built
  also_types t b = record b { issues = b.issues ++ map type_issue (check_supported_type 0 0 t) }

  -- A field without a custom codec
  unfoldable pub typed_field : Var → FieldDecl → Built
  typed_field v fd =
      let filled = fill_type_shape type_string fd v.type in
      also_types v.type (
        if fd.cycle_break
        then resolve_id_ref_field v.type filled
        else record { issues = []; decl = some filled })

  abbrev pub custom_value : GoType → FieldDecl → Built
  custom_value t fd =
      if is_composite_type (underlying_type t)
      then refuse custom_composite
      else record { issues = []; decl = some (record fd { shape = type_string t }) }

  -- A field with a custom codec
  unfoldable pub custom_field : GoType → FieldDecl → Built
  custom_field (pointer e) fd = custom_value e (record fd { optional = true })
  custom_field t fd = custom_value t fd

  -- The checks of buildFieldDecl on a tag that is set and not skipped
  unfoldable pub tagged_field : Var → FieldTag → Markers → Built
  tagged_field v ft m =
      let cycle_break = m.cycle_break_via_id || ft.cycle_break_via_id in
      let fd = blank_decl v.name ft cycle_break in
      if m.cycle_break_via_id && not (is_empty ft.custom)
      then refuse tag_parse
      else if m.cycle_break_via_id && not (is_empty ft.wire_override)
      then refuse tag_parse
      else if cycle_break && not (is_pointer_to_struct v.type)
      then refuse bad_id_ref
      else if not (is_empty ft.wire_override)
          && not (compat_ok (wire_override_compat (some v.type) ft.wire_override))
      then refuse type_width_mismatch
      else if not (is_empty ft.custom)
      then custom_field v.type fd
      else typed_field v fd

  unfoldable pub marked_field : Var → FieldTag → Markers → Built
  marked_field v ft m =
      if m.track_presence
      then refuse track_presence_misplaced
      else if m.borrow_strings
      then refuse borrow_strings_misplaced
      else if not ft.set
      then refuse tag_missing
      else if ft.skip
      then nothing_built
      else tagged_field v ft m

  abbrev pub parsed_field : Var → Parsed → Walk → Built
  parsed_field v (bad e) w = refuse tag_parse
  parsed_field v (good ft) w = also (marker_issues w.error) (marked_field v ft w.so_far)

  -- buildFieldDecl
  unfoldable pub build_field_decl : Var → Built
  build_field_decl v = parsed_field v (parse_field_tag v.tag) (parse_markers v.doc)
