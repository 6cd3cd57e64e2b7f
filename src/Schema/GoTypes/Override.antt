-- ===== src/Schema/GoTypes/Override.antt =====
-- tools/gsbmschema/wireoverride.go: the wire width that a field's Go type and its type= option declare.
pub mod Contract
use gsbm.Common.{ℕ, Bool, true, false, not, Option, none, some, [], ◌∷◌, take}
use gsbm.Common.{ltb, if◌then◌else◌}
use gsbm.Reader.Header.{same_bytes}
use gsbm.Schema.{Text, is_empty}
use gsbm.Schema.Width.{parse_override_width}
use gsbm.Schema.GoTypes.{
  Kind, int_kind, int8_kind, int16_kind, int32_kind, int64_kind, uint_kind, uint8_kind, uint16_kind,
  uint32_kind, uint64_kind, uintptr_kind, GoType, basic, underlying_type,
}

-- The reasons of WireOverrideCompat
pub data Reason : Type 0 where
  nil_type not_an_integer override_on_other unknown_width cross_sign narrows_platform : Reason
  wider_than_type : Reason

pub data Compat : Type 0 where
  legal : ℕ → Bool → Compat
  illegal : Reason → Compat

-- basicIntShape: the bits and the sign of an integer kind
unfoldable pub basic_int_shape : Kind → Option (ℕ × Bool)
basic_int_shape int_kind = some (64, true)
basic_int_shape int8_kind = some (8, true)
basic_int_shape int16_kind = some (16, true)
basic_int_shape int32_kind = some (32, true)
basic_int_shape int64_kind = some (64, true)
basic_int_shape uint_kind = some (64, false)
basic_int_shape uintptr_kind = some (64, false)
basic_int_shape uint8_kind = some (8, false)
basic_int_shape uint16_kind = some (16, false)
basic_int_shape uint32_kind = some (32, false)
basic_int_shape uint64_kind = some (64, false)
basic_int_shape _ = none

abbrev pub platform_sized : Kind → Bool
platform_sized int_kind = true
platform_sized uint_kind = true
platform_sized uintptr_kind = true
platform_sized _ = false

-- parseOverrideWidth, the sign: the lexemes of signed widths begin with `i`.
unfoldable pub override_signed : Text → Bool
override_signed w = same_bytes (take 1 w) (b'i' ∷ [])

abbrev pub same_sign : Bool → Bool → Bool
same_sign true b = b
same_sign false b = not b

-- The checks on an override whose width is known
unfoldable pub override_compat : Bool → ℕ → Bool → Option ℕ → Bool → Compat
override_compat platform go_bits go_signed none signed = illegal unknown_width
override_compat platform go_bits go_signed (some bits) signed =
    if not (same_sign signed go_signed)
    then illegal cross_sign
    else if platform
    then if ltb bits 32 then illegal narrows_platform else legal bits signed
    else if ltb go_bits bits
    then illegal wider_than_type
    else legal bits signed

abbrev pub not_integer : Text → Compat
not_integer override =
    if is_empty override then illegal not_an_integer else illegal override_on_other

abbrev pub integer_compat : Kind → Option (ℕ × Bool) → Text → Compat
integer_compat k none override = not_integer override
integer_compat k (some (go_bits, go_signed)) override =
    if is_empty override
    then legal (if platform_sized k then 32 else go_bits) go_signed
    else override_compat (platform_sized k) go_bits go_signed (parse_override_width override)
        (override_signed override)

unfoldable pub basic_compat : GoType → Text → Compat
basic_compat (basic k n) override = integer_compat k (basic_int_shape k) override
basic_compat t override = not_integer override

-- WireOverrideCompat; none is the nil type.
unfoldable pub wire_override_compat : Option GoType → Text → Compat
wire_override_compat none override = illegal nil_type
wire_override_compat (some t) override = basic_compat (underlying_type t) override
