-- ===== src/Errors.antt =====
-- The sentinel errors of storage/gsbm/gsbm.go and compress.go, and Go's `(value, error)` pair.
use gsbm.Common.{ℕ, ◌≡◌, refl, ◌⊎◌, inl, inr}

-- `external n` is an error that an `io.Reader`, an `io.Writer`, a codec or a caller's function
-- returns; the runtime hands it on as it is.
pub data Error : Type 0 where
  bad_magic unsupported_ver reserved_flags truncated trailing_bytes : Error
  varint_overflow zero_tag reserved_wire wrong_wire_type tag_overflow : Error
  invalid_map_key invalid_presence body_too_large integer_overflow : Error
  alloc_too_large body_len_mismatch corrupt_compressed_body unsupported_compression : Error
  gzip_too_large inflated_len_mismatch unreachable_codec : Error
  external : ℕ → Error

-- The value beside a nil error, or the error; the zero value beside an error is not modelled.
pub data Result {ℓ} (A : Type ℓ) : Type ℓ where
  ok : A → Result A
  err : Error → Result A

infixl 5 ◌>>=◌
abbrev pub ◌>>=◌ {ℓ κ} : {A : Type ℓ} {B : Type κ} → Result A → (A → Result B) → Result B
ok a >>= f = f a
err e >>= f = err e

pub Result-cases {ℓ} :
    {A : Type ℓ} (r : Result A) → ((a : A) × (r ≡ ok a)) ⊎ ((e : Error) × (r ≡ err e))
Result-cases (ok a) = inl (a, refl)
Result-cases (err e) = inr (e, refl)
