-- ===== src/Tests/Schema.antt =====
-- A schema that gains a field, and one that takes a field off the wire.
use gsbm.Common.{◌≡◌, refl, true, false, none, some, [], ◌∷◌}
use gsbm.Reader.Header.{same_bytes}
use gsbm.Schema.{
  Text, TypeRef, type_ref, no_refs, no_underlying, ref_key, FieldDecl, StructDecl, Schema,
}
use gsbm.Schema.Width.{
  default_width, after_last, unclosed, basic_width, parse_override_width, fixed_bits,
}
use gsbm.Schema.Field.{classify_field, checks, join}
use gsbm.Schema.Classifier.{
  assign, find, index, index_by_key, previous_fields, previous_structs, new_fields, new_structs,
  missing, classify_struct, is_breaking, max_of, classify,
}

abbrev pub order_type : TypeRef
order_type = type_ref [] (79 ∷ []) no_refs no_underlying

abbrev pub id_field : FieldDecl
id_field = record {
  name = 73 ∷ [];
  tag = 1;
  shape = 105 ∷ [];
  wire = 118 ∷ [];
  optional = false;
  deprecated = false;
  compat_write = false;
  cycle_break = false;
  map_key = [];
  map_value = [];
  elem = [];
  map_key_underlying = [];
  custom = [];
  wire_override = [];
  alias_type = none;
  flattened_from = [];
  flattened_from_pointer = false;
}

abbrev pub before : StructDecl
before = record {
  type_of = order_type;
  fields = id_field ∷ [];
  reserved = [];
  opaque = false;
  generic = [];
  allow_breaking = [];
  track_presence = false;
  borrow_strings = false;
}

abbrev after : StructDecl
after = record before { fields = id_field ∷ record id_field { name = 74 ∷ []; tag = 2 } ∷ [] }

abbrev pub old_schema : Schema
old_schema = record { fmt_ver = 1; schema_hint = 0; roots = order_type ∷ []; structs = before ∷ [] }

abbrev pub new_schema : Schema
new_schema = record { fmt_ver = 1; schema_hint = 0; roots = order_type ∷ []; structs = after ∷ [] }

-- The other way round the removed field is breaking.
removing_is_breaking : is_breaking (classify new_schema old_schema).max_severity ≡ true
unfolding classify max_of missing find index assign ref_key previous_structs new_structs
    classify_struct previous_fields new_fields classify_field checks join
removing_is_breaking = refl

pub order_is_there : find same_bytes (index_by_key old_schema.structs) (79 ∷ []) ≡ some before
unfolding find index assign ref_key
order_is_there = refl

-- `UserID(int64)`
abbrev alias_text : Text
alias_text = b'U' ∷ b'(' ∷ b'i' ∷ b'n' ∷ b't' ∷ b'6' ∷ b'4' ∷ b')' ∷ []

alias_is_64 : default_width 9 alias_text ≡ some 64
unfolding default_width after_last unclosed basic_width parse_override_width fixed_bits
alias_is_64 = refl
