-- ===== src/Schema/GoTypes.antt =====
-- The go/types values that tools/gsbmschema/discover.go looks at. A declared type carries its underlying
-- type, so a type that is its own element without a struct between (`type T []T`) is no value here;
-- a struct's body is kept apart, and the string form of a type is the type checker's.
pub mod Shape
pub mod Override
pub mod Supported
use gsbm.Common.{ℕ, Bool, true, false, ◌||◌, Option, none, some, List, [], ◌∷◌, ◌++◌, codes}
use gsbm.Schema.{Text, TypeRef, type_ref, TypeRefs, no_refs, refs, no_underlying, ref_key}

-- types.BasicKind; Byte is Uint8 and Rune is Int32.
pub data Kind : Type 0 where
  bool_kind string_kind : Kind
  int_kind int8_kind int16_kind int32_kind int64_kind : Kind
  uint_kind uint8_kind uint16_kind uint32_kind uint64_kind uintptr_kind : Kind
  float32_kind float64_kind : Kind
  complex_kind pointer_kind untyped_kind : Kind

mutual
  -- types.Type. A basic type has a name besides its kind, `byte` or `uint8`.
  pub data GoType : Type 0 where
    basic : Kind → Text → GoType
    named : Text → Text → Bool → GoTypes → GoType → GoType
    struct_body : GoType
    slice : GoType → GoType
    array : ℕ → GoType → GoType
    map_type : GoType → GoType → GoType
    pointer : GoType → GoType
    interface_type : Bool → Text → GoType
    channel : GoType → Text → GoType
    signature : Text → GoType
    other_type : Text → GoType

  pub data GoTypes : Type 0 where
    no_types : GoTypes
    types : GoType → GoTypes → GoTypes

-- Underlying()
abbrev pub underlying_type : GoType → GoType
underlying_type (named pkg name exported args u) = u
underlying_type (basic k n) = basic k n
underlying_type struct_body = struct_body
underlying_type (slice e) = slice e
underlying_type (array n e) = array n e
underlying_type (map_type k v) = map_type k v
underlying_type (pointer e) = pointer e
underlying_type (interface_type empty s) = interface_type empty s
underlying_type (channel e s) = channel e s
underlying_type (signature s) = signature s
underlying_type (other_type s) = other_type s

abbrev pub is_struct : GoType → Bool
is_struct struct_body = true
is_struct _ = false

-- isSupportedBasicKind
unfoldable pub is_supported_kind : Kind → Bool
is_supported_kind complex_kind = false
is_supported_kind pointer_kind = false
is_supported_kind untyped_kind = false
is_supported_kind _ = true

abbrev pub is_byte_kind : Kind → Bool
is_byte_kind uint8_kind = true
is_byte_kind _ = false

-- isBasicByte
unfoldable pub is_basic_byte : GoType → Bool
is_basic_byte (basic k n) = is_byte_kind k
is_basic_byte _ = false

abbrev pub is_supported_basic : GoType → Bool
is_supported_basic (basic k n) = is_supported_kind k
is_supported_basic _ = false

-- isLeafElementType
unfoldable pub is_leaf_element : GoType → Bool
is_leaf_element (basic k n) = is_supported_kind k
is_leaf_element (named pkg name exported args u) = is_struct u || is_supported_basic u
is_leaf_element _ = false

abbrev pub is_named_struct : GoType → Bool
is_named_struct (named pkg name exported args u) = is_struct u
is_named_struct _ = false

-- isPointerToStruct
unfoldable pub is_pointer_to_struct : GoType → Bool
is_pointer_to_struct (pointer e) = is_named_struct e
is_pointer_to_struct _ = false

-- isSliceElementType
unfoldable pub is_slice_element : GoType → Bool
unfolding is_pointer_to_struct
is_slice_element t = is_leaf_element t || is_pointer_to_struct t

abbrev pub is_id_kind : Kind → Bool
is_id_kind bool_kind = false
is_id_kind float32_kind = false
is_id_kind float64_kind = false
is_id_kind complex_kind = false
is_id_kind pointer_kind = false
is_id_kind untyped_kind = false
is_id_kind _ = true

-- isIDRefFieldType
unfoldable pub is_id_ref_field_type : GoType → Bool
is_id_ref_field_type (basic k n) = is_id_kind k
is_id_ref_field_type (named pkg name exported args u) = is_id_ref_field_type u
is_id_ref_field_type (slice e) = is_basic_byte e
is_id_ref_field_type _ = false

-- t.String(), the type checker's
module _ (type_string : GoType → Text) where
  unfoldable mutual
    -- refOfType
    pub ref_of : GoType → TypeRef
    ref_of (named pkg name exported args u) = type_ref pkg name (refs_of args) no_underlying
    ref_of t = type_ref [] (type_string t) no_refs no_underlying

    pub refs_of : GoTypes → TypeRefs
    refs_of no_types = no_refs
    refs_of (types t ts) = refs (ref_of t) (refs_of ts)

  -- keyOf
  abbrev pub key_of : GoType → Text
  key_of t = ref_key (ref_of t)
