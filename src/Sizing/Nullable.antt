-- ===== src/Sizing/Nullable.antt =====
-- The SizeNullable functions against the calls that the generator emits for an optional field.
use gsbm.Common.{
  ℕ, ◌+◌, ◌^◌, ◌≡◌, refl, sym, ap, ◌∙◌, Bool, not, ◌||◌, Bool-cases, inl, inr, Option, none, some,
  List, length, arith,
}
use gsbm.Common.{◌==◌, if◌then◌else◌}
use gsbm.Writer.Calls.{
  Call, uvarint, svarint, fixed32, fixed64, bool, bytes, absent, present, zeroed, region, done,
  next,
}
use gsbm.Writer.Calls.{encode_call, IsLegalCall}
use gsbm.Sizing.{
  size_length_delim, size_nullable_bytes, size_nullable_bool, size_nullable_int64,
  size_nullable_uint64, size_nullable_float32, size_nullable_float64,
}
use gsbm.Sizing.Dual.{size, size_call, size_call-encode_call}

-- emitOptionalEncode on a builtin: the presence byte for nil and for the zero value, and otherwise
-- the presence byte and the value.
unfoldable pub optional_call : {A : Type 0} → (A → Bool) → (A → Call) → Option A → Call
optional_call zero write none = region (next absent done)
optional_call zero write (some a) =
    if zero a then region (next zeroed done) else region (next present (next (write a) done))

size_optional :
    {A : Type 0} (zero : A → Bool) (write : A → Call) (a : A)
    → size_call (optional_call zero write (some a))
      ≡ (if zero a then size_length_delim 1 else size_length_delim (1 + size_call (write a)))
unfolding optional_call size_call size
size_optional zero write a = elim (Bool-cases (zero a)) [
  | inl z ↦ rw z refl
  | inr n ↦ rw n (ap size_length_delim (omega arith))
]

-- On a legal value the sum is the length of what is written.
nullable-encode :
    {A : Type 0} (zero : A → Bool) (write : A → Call) (o : Option A)
    → IsLegalCall (optional_call zero write o)
    → size_call (optional_call zero write o) ≡ length (encode_call (optional_call zero write o))
nullable-encode zero write o h = size_call-encode_call (optional_call zero write o) h

abbrev pub empty : List ℕ → Bool
empty p = length p == 0

abbrev pub zero_word : ℕ → Bool
zero_word v = v == 0

-- `*p == 0` on the bits of a float32 and of a float64
abbrev pub zero_float32 : ℕ → Bool
zero_float32 bits = bits == 0 || bits == 2 ^ 31

abbrev pub zero_float64 : ℕ → Bool
zero_float64 bits = bits == 0 || bits == 2 ^ 63

-- nil has the presence byte alone.
size_none :
    {A : Type 0} (zero : A → Bool) (write : A → Call)
    → size_call (optional_call zero write none) ≡ size_length_delim 1
unfolding optional_call size_call size
size_none zero write = refl

size_nullable_bytes-call :
    (o : Option (List ℕ)) → size_nullable_bytes o ≡ size_call (optional_call empty bytes o)
unfolding size_nullable_bytes size_call
size_nullable_bytes-call none = sym (size_none empty bytes)
size_nullable_bytes-call (some a) = sym (size_optional empty bytes a)

size_nullable_bool-call :
    (o : Option Bool) → size_nullable_bool o ≡ size_call (optional_call not bool o)
unfolding size_nullable_bool size_call
size_nullable_bool-call none = sym (size_none not bool)
size_nullable_bool-call (some a) = sym (size_optional not bool a)

size_nullable_int64-call :
    (o : Option ℕ) → size_nullable_int64 o ≡ size_call (optional_call zero_word svarint o)
unfolding size_nullable_int64 size_call
size_nullable_int64-call none = sym (size_none zero_word svarint)
size_nullable_int64-call (some a) = sym (size_optional zero_word svarint a)

size_nullable_uint64-call :
    (o : Option ℕ) → size_nullable_uint64 o ≡ size_call (optional_call zero_word uvarint o)
unfolding size_nullable_uint64 size_call
size_nullable_uint64-call none = sym (size_none zero_word uvarint)
size_nullable_uint64-call (some a) = sym (size_optional zero_word uvarint a)

size_nullable_float32-call :
    (o : Option ℕ) → size_nullable_float32 o ≡ size_call (optional_call zero_float32 fixed32 o)
unfolding size_nullable_float32 size_call
size_nullable_float32-call none = sym (size_none zero_float32 fixed32)
size_nullable_float32-call (some a) = sym (size_optional zero_float32 fixed32 a)

size_nullable_float64-call :
    (o : Option ℕ) → size_nullable_float64 o ≡ size_call (optional_call zero_float64 fixed64 o)
unfolding size_nullable_float64 size_call
size_nullable_float64-call none = sym (size_none zero_float64 fixed64)
size_nullable_float64-call (some a) = sym (size_optional zero_float64 fixed64 a)

-- For an optional field of every builtin type SizeNullable is the number of bytes that the emitted
-- calls write, when the calls are legal: of a byte slice or string, of a bool, of 64-bit words read as int64
-- and as uint64, and of the bits of a float32 and of a float64.
pub size_nullable-encode :
    (p : Option (List ℕ)) (b : Option Bool) (v f g : Option ℕ)
    → IsLegalCall (optional_call empty bytes p)
    → IsLegalCall (optional_call zero_word svarint v)
    → IsLegalCall (optional_call zero_word uvarint v)
    → IsLegalCall (optional_call not bool b)
    → IsLegalCall (optional_call zero_float32 fixed32 f)
    → IsLegalCall (optional_call zero_float64 fixed64 g)
    → (size_nullable_bytes p ≡ length (encode_call (optional_call empty bytes p)))
      × (size_nullable_int64 v ≡ length (encode_call (optional_call zero_word svarint v)))
      × (size_nullable_uint64 v ≡ length (encode_call (optional_call zero_word uvarint v)))
      × (size_nullable_bool b ≡ length (encode_call (optional_call not bool b)))
      × (size_nullable_float32 f ≡ length (encode_call (optional_call zero_float32 fixed32 f)))
      × (size_nullable_float64 g ≡ length (encode_call (optional_call zero_float64 fixed64 g)))
size_nullable-encode p b v f g hp hv hu hb hf hg = (
  size_nullable_bytes-call p ∙ nullable-encode empty bytes p hp,
  size_nullable_int64-call v ∙ nullable-encode zero_word svarint v hv,
  size_nullable_uint64-call v ∙ nullable-encode zero_word uvarint v hu,
  size_nullable_bool-call b ∙ nullable-encode not bool b hb,
  size_nullable_float32-call f ∙ nullable-encode zero_float32 fixed32 f hf,
  size_nullable_float64-call g ∙ nullable-encode zero_float64 fixed64 g hg,
)
