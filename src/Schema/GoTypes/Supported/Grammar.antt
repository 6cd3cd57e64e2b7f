-- ===== src/Schema/GoTypes/Supported/Grammar.antt =====
-- The types that checkSupportedType accepts, as a grammar; it says nothing of the keys of maps.
use gsbm.Common.{ℕ, suc, ◌≡◌, ◌⊎◌, Bool, true}
use gsbm.Schema.{Text}
use gsbm.Schema.GoTypes.{
  Kind, GoType, GoTypes, no_types, basic, named, struct_body, slice, map_type, pointer,
  is_supported_kind, is_byte_kind,
}
use gsbm.Schema.GoTypes.Supported.{max_nesting_depth}

-- A struct by its name, which is not generic
pub data IsStructName : GoType → Type 0 where
  struct_name :
      (pkg name : Text) (exported : Bool)
      → IsStructName (named pkg name exported no_types struct_body)

-- A value of no more than `n` layers of slices and maps. The key of a map is any type: checkSupportedType
-- leaves it to validateStruct.
pub data IsValue : ℕ → GoType → Type 0 where
  plain : (n : ℕ) (k : Kind) (name : Text) → is_supported_kind k ≡ true → IsValue n (basic k name)
  renamed :
      (n : ℕ) (pkg name : Text) (exported : Bool) (k : Kind) (base : Text)
      → is_supported_kind k ≡ true
      → IsValue n (named pkg name exported no_types (basic k base))
  body : (n : ℕ) (t : GoType) → IsStructName t → IsValue n t
  list : (n : ℕ) (e : GoType) → IsValue n e → IsValue (suc n) (slice e)
  pointers : (n : ℕ) (p : GoType) → IsStructName p → IsValue (suc n) (slice (pointer p))
  table : (n : ℕ) (k v : GoType) → IsValue n v → IsValue (suc n) (map_type k v)

-- `type ID []byte`
pub data IsByteAlias : GoType → Type 0 where
  byte_alias :
      (pkg name : Text) (exported : Bool) (k : Kind) (base : Text)
      → is_byte_kind k ≡ true
      → IsByteAlias (named pkg name exported no_types (slice (basic k base)))

-- The type of a field: a value, a name for a slice, a struct instance, or a pointer to a value.
pub data IsField : GoType → Type 0 where
  value : (t : GoType) → IsValue max_nesting_depth t → IsField t
  bytes : (t : GoType) → IsByteAlias t → IsField t
  alias :
      (pkg name : Text) (exported : Bool) (e : GoType)
      → IsValue max_nesting_depth (slice e)
      → IsField (named pkg name exported no_types (slice e))
  instance_of :
      (pkg name : Text) (exported : Bool) (args : GoTypes)
      → IsField (named pkg name exported args struct_body)
  optional : (t : GoType) → IsValue max_nesting_depth t ⊎ IsByteAlias t → IsField (pointer t)
