-- ===== src/Schema/Width.antt =====
-- tools/gsbmschema/wireoverride.go: the wire width of an integer field in a snapshot.
pub mod Fuel
use gsbm.Common.{
  ℕ, zero, suc, ◌+◌, Option, none, some, [], ◌∷◌, length, drop, take, ◌==◌, if◌then◌else◌,
}
use gsbm.Reader.Header.{same_bytes}
use gsbm.Schema.{Text, is_empty}

abbrev pub int_text : Text
int_text = b'i' ∷ b'n' ∷ b't' ∷ []

abbrev pub uint_text : Text
uint_text = b'u' ∷ b'i' ∷ b'n' ∷ b't' ∷ []

abbrev pub uintptr_text : Text
uintptr_text = b'u' ∷ b'i' ∷ b'n' ∷ b't' ∷ b'p' ∷ b't' ∷ b'r' ∷ []

abbrev pub id_text : Text
id_text = b'/' ∷ b'i' ∷ b'd' ∷ b':' ∷ []

abbrev pub or_else : {A : Type 0} → Option A → Option A → Option A
or_else (some a) o = some a
or_else none o = o

-- The bits that the digits of a fixed-width kind say.
unfoldable pub fixed_bits : Text → Option ℕ
fixed_bits s =
    if same_bytes s (b'8' ∷ [])
    then some 8
    else if same_bytes s (b'1' ∷ b'6' ∷ [])
    then some 16
    else if same_bytes s (b'3' ∷ b'2' ∷ [])
    then some 32
    else if same_bytes s (b'6' ∷ b'4' ∷ [])
    then some 64
    else none

-- parseOverrideWidth, the bits: one of the eight lexemes, or none where `ok` is false.
unfoldable pub parse_override_width : Text → Option ℕ
parse_override_width w =
    if same_bytes (take 3 w) int_text
    then fixed_bits (drop 3 w)
    else if same_bytes (take 4 w) uint_text
    then fixed_bits (drop 4 w)
    else none

-- `s[strings.LastIndex(s, pat)+len(pat):]`, for a pattern that is not empty.
unfoldable pub after_last : Text → Text → Option Text
after_last pat [] = none
after_last pat (x ∷ s) =
    or_else (after_last pat s) (
      if same_bytes (take (length pat) (x ∷ s)) pat then some (drop (length pat) (x ∷ s)) else none)

-- The text without the closing parenthesis that it ends with.
unfoldable pub unclosed : Text → Option Text
unclosed [] = none
unclosed (x ∷ []) = if x == b')' then some [] else none
unclosed (x ∷ y ∷ s) = elim (unclosed (y ∷ s)) [ some t ↦ some (x ∷ t) | none ↦ none ]

-- The switch of defaultIntWidthFromTypeString.
unfoldable pub basic_width : Text → Option ℕ
basic_width s =
    if same_bytes s int_text
    then some 32
    else if same_bytes s uint_text
    then some 32
    else if same_bytes s uintptr_text
    then some 32
    else parse_override_width s

abbrev pub match_text : Option Text → (Text → Option ℕ) → Option ℕ → Option ℕ
match_text none next otherwise = otherwise
match_text (some t) next otherwise = next t

-- defaultIntWidthFromTypeString; every call is on a shorter text, so its length is fuel enough.
unfoldable pub default_width : ℕ → Text → Option ℕ
default_width zero s = none
default_width (suc fuel) s =
    match_text (after_last id_text s) (λ t. default_width fuel t)
      (or_else (basic_width s) (
        match_text (after_last (b'(' ∷ []) s)
          (λ t. match_text (unclosed t) (λ inner. default_width fuel inner) none) none))

-- effectiveWireWidthFromSnapshot, the bits
unfoldable pub effective_width : Text → Text → Option ℕ
effective_width shape override =
    if is_empty override
    then default_width (length shape + 1) shape
    else parse_override_width override
