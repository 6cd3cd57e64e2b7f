-- ===== src/Schema/GoTypes/Shape.antt =====
-- tools/gsbmschema/discover.go: the shape and the wire type that a field's Go type is recorded with.
pub mod Paren
pub mod Default
use gsbm.Common.{ℕ, Bool, true, false, not, ◌&&◌, Option, none, some, List, [], ◌∷◌, ◌++◌}
use gsbm.Common.{if◌then◌else◌, codes, decimal}
use gsbm.Schema.{
  Text, TypeRef, type_ref, TypeRefs, no_refs, no_underlying, underlying, ref_key, FieldDecl,
}
use gsbm.Schema.GoTypes.{
  Kind, string_kind, float32_kind, float64_kind, GoType, basic, named, struct_body, slice, array,
  map_type, pointer, interface_type, channel, signature, other_type, underlying_type, is_struct,
  is_basic_byte, ref_of, key_of,
}

-- The wire-type labels of types.go
abbrev pub wire_varint : Text
wire_varint = codes "varint"

abbrev pub wire_fixed64 : Text
wire_fixed64 = codes "fixed64"

abbrev pub wire_fixed32 : Text
wire_fixed32 = codes "fixed32"

abbrev pub wire_length_delim : Text
wire_length_delim = codes "length-delim"

abbrev pub wire_for_kind : Kind → Text
wire_for_kind float32_kind = wire_fixed32
wire_for_kind float64_kind = wire_fixed64
wire_for_kind string_kind = wire_length_delim
wire_for_kind _ = wire_varint

-- wireFor
unfoldable pub wire_for : GoType → Text
wire_for (basic k n) = wire_for_kind k
wire_for (named pkg name exported args u) =
    let below = wire_for u in if is_struct u then wire_length_delim else below
wire_for (slice e) = wire_length_delim
wire_for (array n e) = wire_length_delim
wire_for (map_type k v) = wire_length_delim
wire_for (pointer e) = wire_for e
wire_for _ = wire_length_delim

module _ (type_string : GoType → Text) where
  -- shapeOf
  unfoldable pub shape_of : GoType → Text
  shape_of (basic k n) = n
  shape_of (named pkg name exported args u) =
      let below = shape_of u in
      let key = key_of type_string (named pkg name exported args u) in
      if is_struct u then key else key ++ b'(' ∷ (below ++ b')' ∷ [])
  shape_of (slice e) = codes "[]" ++ shape_of e
  shape_of (array n e) = b'[' ∷ (decimal n ++ b']' ∷ shape_of e)
  shape_of (map_type k v) = codes "map[" ++ (shape_of k ++ b']' ∷ shape_of v)
  shape_of (pointer e) = b'*' ∷ shape_of e
  shape_of (interface_type empty s) = if empty then codes "any" else s
  shape_of (channel e s) = s
  shape_of (signature s) = s
  shape_of (other_type s) = s
  shape_of struct_body = type_string struct_body

  -- The structs that shapeOf enqueues, in its order.
  unfoldable pub enqueued : GoType → List GoType
  enqueued (named pkg name exported args u) =
      let below = enqueued u in if is_struct u then named pkg name exported args u ∷ [] else below
  enqueued (slice e) = enqueued e
  enqueued (array n e) = enqueued e
  enqueued (map_type k v) = enqueued k ++ enqueued v
  enqueued (pointer e) = enqueued e
  enqueued _ = []

  abbrev pub basic_name : GoType → Text
  basic_name (basic k n) = n
  basic_name _ = []

  abbrev pub key_underlying : GoType → Text
  key_underlying (named pkg name exported args u) = basic_name u
  key_underlying _ = []

  -- What shapeOf records of the field's top type: the element, or the key and the value.
  abbrev pub record_parts : FieldDecl → GoType → FieldDecl
  record_parts fd (slice e) = record fd { elem = shape_of e }
  record_parts fd (map_type k v) = record fd {
    map_key = shape_of k;
    map_value = shape_of v;
    map_key_underlying = key_underlying k;
  }
  record_parts fd _ = fd

  abbrev pub pointer_key : GoType → GoType → TypeRef
  pointer_key t (named pkg name exported args u) =
      type_ref [] (b'*' ∷ key_of type_string (named pkg name exported args u)) no_refs no_underlying
  pointer_key t _ = type_ref [] (type_string t) no_refs no_underlying

  -- sliceElemRef
  abbrev pub slice_elem_ref : GoType → TypeRef
  slice_elem_ref (pointer e) = pointer_key (pointer e) e
  slice_elem_ref t = ref_of type_string t

  abbrev pub with_underlying : TypeRef → TypeRef → TypeRef
  with_underlying (type_ref pkg name args u) elem = type_ref pkg name args (underlying elem)

  -- aliasTypeRef
  abbrev pub alias_type_ref : GoType → GoType → TypeRef
  alias_type_ref alias elem = with_underlying (ref_of type_string alias) (slice_elem_ref elem)

  abbrev pub described : FieldDecl → GoType → FieldDecl
  described fd t = record (record_parts fd t) { shape = shape_of t; wire = wire_for t }

  -- A named slice other than of bytes is described as its slice, with the alias kept beside it.
  abbrev pub unaliased : FieldDecl → GoType → GoType → FieldDecl
  unaliased fd t (slice e) =
      if is_basic_byte e
      then described fd t
      else described (record fd { alias_type = some (alias_type_ref t e) }) (slice e)
  unaliased fd t _ = described fd t

  abbrev pub fill_named : FieldDecl → GoType → FieldDecl
  fill_named fd (named pkg name exported args u) = unaliased fd (named pkg name exported args u) u
  fill_named fd t = described fd t

  -- fillTypeShape
  unfoldable pub fill_type_shape : FieldDecl → GoType → FieldDecl
  fill_type_shape fd (pointer e) = fill_named (record fd { optional = true }) e
  fill_type_shape fd t = fill_named fd t
