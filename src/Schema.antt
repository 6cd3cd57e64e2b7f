-- ===== src/Schema.antt =====
-- tools/gsbmschema: the schema of types.go, and the names that its parts are compared by.
pub mod Width
pub mod Tag
pub mod Field
pub mod Classifier
pub mod Compatible
pub mod Diffs
pub mod Gate
pub mod Validate
pub mod GoTypes
pub mod Build
use gsbm.Common.{ℕ, Bool, true, false, not, Option, none, some, List, [], ◌∷◌, ◌++◌}
use gsbm.Common.{◌==◌, if◌then◌else◌}
use gsbm.Reader.Header.{same_bytes}

-- A Go string is its bytes.
abbrev pub Text : Type 0
Text = List ℕ

abbrev pub is_empty : Text → Bool
is_empty [] = true
is_empty (x ∷ xs) = false

-- `a != b` on strings
abbrev pub differs : Text → Text → Bool
differs a b = not (same_bytes a b)

mutual
  -- TypeRef: the package path, the name, the type arguments and the underlying type, if any.
  pub data TypeRef : Type 0 where
    type_ref : Text → Text → TypeRefs → Underlying → TypeRef

  pub data TypeRefs : Type 0 where
    no_refs : TypeRefs
    refs : TypeRef → TypeRefs → TypeRefs

  pub data Underlying : Type 0 where
    no_underlying : Underlying
    underlying : TypeRef → Underlying

abbrev pub base_name : Text → Text → Text
base_name pkg name = if is_empty pkg then name else pkg ++ b'.' ∷ name

-- refKey: `pkg.Name[arg,arg]`
unfoldable mutual
  pub ref_key : TypeRef → Text
  ref_key (type_ref pkg name no_refs u) = base_name pkg name
  ref_key (type_ref pkg name (refs a rest) u) =
      base_name pkg name ++ b'[' ∷ (ref_key a ++ (more_keys rest ++ b']' ∷ []))

  pub more_keys : TypeRefs → Text
  more_keys no_refs = []
  more_keys (refs a rest) = b',' ∷ (ref_key a ++ more_keys rest)

-- FieldDecl
pub record FieldDecl : Type 0 where
  pub name : Text
  pub tag : ℕ
  pub shape : Text
  pub wire : Text
  pub optional : Bool
  pub deprecated : Bool
  pub compat_write : Bool
  pub cycle_break : Bool
  pub map_key : Text
  pub map_value : Text
  pub elem : Text
  pub map_key_underlying : Text
  pub custom : Text
  pub wire_override : Text
  pub alias_type : Option TypeRef
  pub flattened_from : Text
  pub flattened_from_pointer : Bool

-- StructDecl
pub record StructDecl : Type 0 where
  pub type_of : TypeRef
  pub fields : List FieldDecl
  pub reserved : List ℕ
  pub opaque : Bool
  pub generic : List Text
  pub allow_breaking : Text
  pub track_presence : Bool
  pub borrow_strings : Bool

-- Schema
pub record Schema : Type 0 where
  pub fmt_ver : ℕ
  pub schema_hint : ℕ
  pub roots : List TypeRef
  pub structs : List StructDecl
