-- ===== src/Tests/GoTypes.antt =====
-- Go fields on their way into a schema.
use gsbm.Common.{◌≡◌, ◌≢◌, refl, true, false, none, some, List, [], ◌∷◌}
use gsbm.Common.{codes, split, parse_uint32}
use gsbm.Common.Text.Split.{lacks, lacks-Lacks}
use gsbm.Schema.{Text, FieldDecl, ref_key}
use gsbm.Schema.Tag.{parse_field_tag, tag_parts, numbered_tag, tag_options, tag_conflicts}
use gsbm.Schema.Tag.Markers.{parse_markers}
use gsbm.Schema.Width.{effective_width, parse_override_width, fixed_bits}
use gsbm.Schema.GoTypes.{
  int_kind, GoType, basic, named, struct_body, slice, pointer, no_types, is_supported_kind, ref_of,
  is_basic_byte, is_slice_element, is_leaf_element,
}
use gsbm.Schema.GoTypes.Override.{
  legal, wire_override_compat, override_compat, basic_compat, basic_int_shape, override_signed,
}
use gsbm.Schema.GoTypes.Override.Contract.{IsContract, wire_override_compat-IsContract}
use gsbm.Schema.GoTypes.Shape.{shape_of, fill_type_shape, wire_for}
use gsbm.Schema.GoTypes.Shape.Default.{effective_width-wire_override_compat}
use gsbm.Schema.GoTypes.Supported.{check_supported_type, slice_rule}
use gsbm.Schema.GoTypes.Supported.Grammar.{IsField}
use gsbm.Schema.GoTypes.Supported.Accepted.{check_supported_type-IsField}
use gsbm.Schema.Build.{Var, build_field_decl, marked_field, tagged_field, typed_field}
use gsbm.Schema.Build.Legal.{FieldIsLegal, build_field_decl-FieldIsLegal}
use gsbm.Schema.Build.Collisions.{
  check_flattened_tag_collisions, sweep, first_at, collide, among_places, keep_from,
}
use gsbm.Schema.Build.Collisions.Kept.{IsResolved, check_flattened_tag_collisions-IsResolved}
use gsbm.Schema.Build.Embed.{Body, collect}
use gsbm.Schema.Build.Embed.Ends.{collect_returns}

abbrev int_type : GoType
int_type = basic int_kind (codes "int")

-- type ID int
abbrev id_type : GoType
id_type = named (codes "p") (codes "ID") true no_types int_type

int_is_wide : wire_override_compat (some int_type) (codes "int64") ≡ legal 64 true
unfolding wire_override_compat basic_compat override_compat basic_int_shape override_signed
    parse_override_width fixed_bits
int_is_wide = refl

wire_override_compat-IsContract_example : IsContract int_type (codes "int64") 64 true
wire_override_compat-IsContract_example =
    wire_override_compat-IsContract int_type (codes "int64") 64 true int_is_wide

abbrev no_text : GoType → Text
no_text t = []

id_is_wide : wire_override_compat (some id_type) (codes "int64") ≡ legal 64 true
unfolding wire_override_compat basic_compat override_compat basic_int_shape override_signed
    parse_override_width fixed_bits
id_is_wide = refl

id_shape : shape_of no_text id_type ≡ codes "p.ID(int)"
unfolding shape_of ref_key ref_of
id_shape = refl

effective_width-wire_override_compat_example :
    effective_width (shape_of no_text id_type) (codes "int64") ≡ some 64
unfolding lacks shape_of ref_key ref_of
effective_width-wire_override_compat_example =
    effective_width-wire_override_compat no_text id_type int_kind (codes "int64") 64 true refl
      (lacks-Lacks b':' (codes "p.ID(int)") refl) id_is_wide

list_is_supported : check_supported_type 0 0 (slice (slice int_type)) ≡ []
unfolding check_supported_type slice_rule is_supported_kind is_basic_byte is_slice_element
    is_leaf_element
list_is_supported = refl

check_supported_type-IsField_example : IsField (slice (slice int_type))
check_supported_type-IsField_example =
    check_supported_type-IsField (slice (slice int_type)) list_is_supported

abbrev id_var : Var
id_var = record {
  name = codes "ID";
  pkg = codes "p";
  exported = true;
  anonymous = false;
  type = int_type;
  tag = some (codes "1");
  doc = none;
}

abbrev id_decl : FieldDecl
id_decl = record {
  name = codes "ID";
  tag = 1;
  shape = codes "int";
  wire = codes "varint";
  optional = false;
  deprecated = false;
  compat_write = false;
  cycle_break = false;
  map_key = [];
  map_value = [];
  elem = [];
  map_key_underlying = [];
  custom = [];
  wire_override = [];
  alias_type = none;
  flattened_from = [];
  flattened_from_pointer = false;
}

abbrev no_fields : GoType → List Var
no_fields t = []

id_is_quiet : (build_field_decl no_text no_fields (codes "p") id_var).issues ≡ []
unfolding build_field_decl parse_field_tag tag_parts split numbered_tag parse_uint32 tag_options
    tag_conflicts parse_markers marked_field tagged_field typed_field check_supported_type
    is_supported_kind
id_is_quiet = refl

id_is_built : (build_field_decl no_text no_fields (codes "p") id_var).decl ≡ some id_decl
unfolding build_field_decl parse_field_tag tag_parts split numbered_tag parse_uint32 tag_options
    tag_conflicts parse_markers marked_field tagged_field typed_field check_supported_type
    is_supported_kind fill_type_shape shape_of wire_for
id_is_built = refl

build_field_decl-FieldIsLegal_example : FieldIsLegal id_var id_decl
build_field_decl-FieldIsLegal_example =
    build_field_decl-FieldIsLegal no_text no_fields (codes "p") id_var id_decl id_is_quiet
      id_is_built

-- A struct that embeds a pointer to itself
abbrev node : GoType
node = named (codes "p") (codes "Node") true no_types struct_body

abbrev node_var : Var
node_var = record id_var { name = codes "Node"; anonymous = true; type = pointer node; tag = none }

abbrev node_bodies : List (Text × Body)
node_bodies = (codes "p.Node", record { fields = node_var ∷ id_var ∷ []; doc = none }) ∷ []

collect_returns_example : collect no_text (codes "p") node_bodies (node_var ∷ id_var ∷ []) ≢ none
collect_returns_example = collect_returns no_text (codes "p") node_bodies (node_var ∷ id_var ∷ [])

-- A promoted field, and a field of the struct itself, with the same tag
abbrev clashing : List FieldDecl
clashing = record id_decl { flattened_from = codes "Base" } ∷ id_decl ∷ []

promoted_is_dropped : (check_flattened_tag_collisions clashing).0 ≡ id_decl ∷ []
unfolding check_flattened_tag_collisions sweep first_at collide among_places keep_from
promoted_is_dropped = refl

check_flattened_tag_collisions-IsResolved_example :
    IsResolved clashing (check_flattened_tag_collisions clashing).0
check_flattened_tag_collisions-IsResolved_example =
    check_flattened_tag_collisions-IsResolved clashing
