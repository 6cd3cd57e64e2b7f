-- ===== src/Schema/GoTypes/Shape/Default.antt =====
-- The width that the classifier reads off a snapshot, beside the one that the tag was checked against.
use gsbm.Common.{
  ℕ, suc, ◌+◌, ◌≡◌, refl, sym, ap, ◌∙◌, Bool, Bool-cases, inl, inr, some, [], ◌∷◌, ◌++◌, length,
  arith,
}
use gsbm.Common.{if◌then◌else◌, codes}
use gsbm.Common.Text.Split.{Lacks, lacks, lacks-Lacks}
use mathlib.Core.Path.{subst}
use gsbm.Schema.{Text, is_empty}
use gsbm.Schema.Width.{
  after_last, fixed_bits, basic_width, parse_override_width, default_width, effective_width,
}
use gsbm.Schema.GoTypes.{
  Kind, bool_kind, string_kind, int_kind, int8_kind, int16_kind, int32_kind, int64_kind, uint_kind,
  uint8_kind, uint16_kind, uint32_kind, uint64_kind, uintptr_kind, float32_kind, float64_kind,
  complex_kind, pointer_kind, untyped_kind, GoType, basic, named, struct_body, slice, array,
  map_type, pointer, interface_type, channel, signature, other_type, underlying_type, key_of,
}
use gsbm.Schema.GoTypes.Override.{legal, basic_int_shape, platform_sized, wire_override_compat}
use gsbm.Schema.GoTypes.Override.Contract.{wire_override_compat-IsContract}
use gsbm.Schema.GoTypes.Shape.{shape_of}
use gsbm.Schema.GoTypes.Shape.Paren.{default_width-paren}

-- The name that a basic type of the kind has, but for the aliases byte and rune.
abbrev pub kind_name : Kind → Text
kind_name bool_kind = codes "bool"
kind_name string_kind = codes "string"
kind_name int_kind = codes "int"
kind_name int8_kind = codes "int8"
kind_name int16_kind = codes "int16"
kind_name int32_kind = codes "int32"
kind_name int64_kind = codes "int64"
kind_name uint_kind = codes "uint"
kind_name uint8_kind = codes "uint8"
kind_name uint16_kind = codes "uint16"
kind_name uint32_kind = codes "uint32"
kind_name uint64_kind = codes "uint64"
kind_name uintptr_kind = codes "uintptr"
kind_name float32_kind = codes "float32"
kind_name float64_kind = codes "float64"
kind_name complex_kind = codes "complex128"
kind_name pointer_kind = codes "unsafe.Pointer"
kind_name untyped_kind = codes "untyped nil"

abbrev default_bits : Kind → ℕ → ℕ
default_bits k n = if platform_sized k then 32 else n

default_width-kind_name :
    (k : Kind) (n : ℕ) (s : Bool) (fuel : ℕ)
    → basic_int_shape k ≡ some (n, s)
    → default_width (suc fuel) (kind_name k) ≡ some (default_bits k n)
unfolding basic_int_shape default_width after_last basic_width parse_override_width fixed_bits
default_width-kind_name int_kind n s fuel e = ground arith
default_width-kind_name int8_kind n s fuel e = ground arith
default_width-kind_name int16_kind n s fuel e = ground arith
default_width-kind_name int32_kind n s fuel e = ground arith
default_width-kind_name int64_kind n s fuel e = ground arith
default_width-kind_name uint_kind n s fuel e = ground arith
default_width-kind_name uint8_kind n s fuel e = ground arith
default_width-kind_name uint16_kind n s fuel e = ground arith
default_width-kind_name uint32_kind n s fuel e = ground arith
default_width-kind_name uint64_kind n s fuel e = ground arith
default_width-kind_name uintptr_kind n s fuel e = ground arith
default_width-kind_name k n s fuel e = cc

kind_name-Lacks : (k : Kind) → Lacks b'(' (kind_name k)
unfolding lacks
kind_name-Lacks bool_kind = lacks-Lacks b'(' (codes "bool") refl
kind_name-Lacks string_kind = lacks-Lacks b'(' (codes "string") refl
kind_name-Lacks int_kind = lacks-Lacks b'(' (codes "int") refl
kind_name-Lacks int8_kind = lacks-Lacks b'(' (codes "int8") refl
kind_name-Lacks int16_kind = lacks-Lacks b'(' (codes "int16") refl
kind_name-Lacks int32_kind = lacks-Lacks b'(' (codes "int32") refl
kind_name-Lacks int64_kind = lacks-Lacks b'(' (codes "int64") refl
kind_name-Lacks uint_kind = lacks-Lacks b'(' (codes "uint") refl
kind_name-Lacks uint8_kind = lacks-Lacks b'(' (codes "uint8") refl
kind_name-Lacks uint16_kind = lacks-Lacks b'(' (codes "uint16") refl
kind_name-Lacks uint32_kind = lacks-Lacks b'(' (codes "uint32") refl
kind_name-Lacks uint64_kind = lacks-Lacks b'(' (codes "uint64") refl
kind_name-Lacks uintptr_kind = lacks-Lacks b'(' (codes "uintptr") refl
kind_name-Lacks float32_kind = lacks-Lacks b'(' (codes "float32") refl
kind_name-Lacks float64_kind = lacks-Lacks b'(' (codes "float64") refl
kind_name-Lacks complex_kind = lacks-Lacks b'(' (codes "complex128") refl
kind_name-Lacks pointer_kind = lacks-Lacks b'(' (codes "unsafe.Pointer") refl
kind_name-Lacks untyped_kind = lacks-Lacks b'(' (codes "untyped nil") refl

pos_length : (key s : Text) → (n : ℕ) × (length (key ++ b'(' ∷ s) ≡ suc n)
pos_length [] s = (length s, refl)
pos_length (c ∷ key) s = (length (key ++ b'(' ∷ s), refl)

paren_default :
    (key : Text) (k : Kind) (n : ℕ) (s : Bool)
    → Lacks b':' (key ++ b'(' ∷ (kind_name k ++ b')' ∷ []))
    → basic_int_shape k ≡ some (n, s)
    → default_width
        (length (key ++ b'(' ∷ (kind_name k ++ b')' ∷ [])) + 1)
        (key ++ b'(' ∷ (kind_name k ++ b')' ∷ []))
      ≡ some (default_bits k n)
paren_default key k n s c e =
    let (m, q) = pos_length key (kind_name k ++ b')' ∷ []) in
    subst (λ (f : ℕ). default_width (f + 1) w ≡ some (default_bits k n)) (sym q)
      (subst (λ (f : ℕ). default_width f w ≡ some (default_bits k n)) (omega arith)
        (default_width-paren key (kind_name k) (suc m) c (kind_name-Lacks k)
          ∙ default_width-kind_name k n s m e))
  where
    w : Text
    w = key ++ b'(' ∷ (kind_name k ++ b')' ∷ [])

module _ (type_string : GoType → Text) where
  abbrev HasDefault : GoType → ℕ → Type 0
  HasDefault t bits =
      Lacks b':' (shape_of type_string t)
      → default_width (length (shape_of type_string t) + 1) (shape_of type_string t) ≡ some bits

  shape-default :
      (t : GoType) (k : Kind) (n : ℕ) (s : Bool)
      → underlying_type t ≡ basic k (kind_name k)
      → Lacks b':' (shape_of type_string t)
      → basic_int_shape k ≡ some (n, s)
      → default_width (length (shape_of type_string t) + 1) (shape_of type_string t)
        ≡ some (default_bits k n)
  unfolding shape_of
  shape-default (basic j name) k n s u c e =
      let same : name ≡ kind_name k = ground (arith, basic_eq j k name (kind_name k) u) in
      subst (λ w. default_width (length w + 1) w ≡ some (default_bits k n)) (sym same)
        (subst (λ (f : ℕ). default_width f (kind_name k) ≡ some (default_bits k n)) (omega arith)
          (default_width-kind_name k n s (length (kind_name k)) e))
    where
      basic_eq : (j k : Kind) (a b : Text) → basic j a ≡ basic k b → a ≡ b
      basic_eq j k a b q = cc
  shape-default (named pkg name exported args v) k n s u c e =
      subst (λ x. HasDefault (named pkg name exported args x) (default_bits k n)) (sym u)
        (λ colon.
          paren_default (key_of type_string (named pkg name exported args (basic k (kind_name k))))
            k n s colon e)
        c
  shape-default struct_body k n s u c e = cc
  shape-default (slice d) k n s u c e = cc
  shape-default (array m d) k n s u c e = cc
  shape-default (map_type a b) k n s u c e = cc
  shape-default (pointer d) k n s u c e = cc
  shape-default (interface_type b d) k n s u c e = cc
  shape-default (channel d b) k n s u c e = cc
  shape-default (signature b) k n s u c e = cc
  shape-default (other_type b) k n s u c e = cc

-- The snapshot keeps the contract: for every width that WireOverrideCompat accepts on an integer type whose
-- basic name is its kind's, effectiveWireWidthFromSnapshot reads the same bits off the recorded shape
-- and option. The shape may hold no colon, which no import path and no type name has.
pub effective_width-wire_override_compat :
    (type_string : GoType → Text) (t : GoType) (k : Kind) (override : Text) (bits : ℕ) (sign : Bool)
    → underlying_type t ≡ basic k (kind_name k)
    → Lacks b':' (shape_of type_string t)
    → wire_override_compat (some t) override ≡ legal bits sign
    → effective_width (shape_of type_string t) override ≡ some bits
unfolding effective_width
effective_width-wire_override_compat type_string t k override bits sign u c h =
    let contract = wire_override_compat-IsContract t override bits sign h in
    let same : k ≡ contract.kind = kinds k contract.kind _ _ (sym u ∙ contract.integer) in
    let shape : basic_int_shape k ≡ some (contract.go_bits, sign) =
      subst (λ j. basic_int_shape j ≡ some (contract.go_bits, sign)) (sym same) contract.shape in
    elim (Bool-cases (is_empty override)) [
      | inl bare ↦ rw bare (
          shape-default type_string t k contract.go_bits sign u c shape
          ∙ ap some (
              subst (λ j. default_bits j contract.go_bits ≡ bits) (sym same)
                (sym (contract.default bare))))
      | inr given ↦ rw given (contract.declared given)
    ]
  where
    kinds : (j k : Kind) (a b : Text) → basic j a ≡ basic k b → j ≡ k
    kinds j k a b q = cc
