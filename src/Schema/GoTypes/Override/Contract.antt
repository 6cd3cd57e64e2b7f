-- ===== src/Schema/GoTypes/Override/Contract.antt =====
-- The contract of an accepted width.
use gsbm.Common.{
  ℕ, ◌≤◌, ◌≡◌, refl, sym, Bool, Bool-cases, true, false, inl, inr, Option, none, some, drop, arith,
}
use gsbm.Common.{if◌then◌else◌}
use gsbm.Schema.{Text, is_empty}
use gsbm.Schema.Width.{parse_override_width, fixed_bits}
use gsbm.Schema.GoTypes.{Kind, int_kind, uint_kind, uintptr_kind, GoType, basic, underlying_type}
use gsbm.Schema.GoTypes.Override.{
  legal, illegal, not_an_integer, override_on_other, basic_int_shape, platform_sized,
  override_signed, override_compat, integer_compat, basic_compat, wire_override_compat,
}

-- What an accepted width promises: the type is an integer of the same sign, whose own bound covers the
-- width; int, uint and uintptr have no less than the portable 32 bits; without an option the width
-- is the default, and with one it is the option's.
pub record IsContract (t : GoType) (override : Text) (bits : ℕ) (signed : Bool) : Type 0 where
  pub kind : Kind
  pub spelling : Text
  pub integer : underlying_type t ≡ basic kind spelling
  pub go_bits : ℕ
  pub shape : basic_int_shape kind ≡ some (go_bits, signed)
  pub within : bits ≤ go_bits
  pub portable : platform_sized kind ≡ true → 32 ≤ bits
  pub default : is_empty override ≡ true → bits ≡ (if platform_sized kind then 32 else go_bits)
  pub declared : is_empty override ≡ false → parse_override_width override ≡ some bits

fixed_bits-le : (s : Text) (n : ℕ) → fixed_bits s ≡ some n → n ≤ 64
unfolding fixed_bits
fixed_bits-le s n h = ground arith

parse_override_width-le : (w : Text) (n : ℕ) → parse_override_width w ≡ some n → n ≤ 64
unfolding parse_override_width
parse_override_width-le w n h =
    ground (arith, fixed_bits-le (drop 3 w) n, fixed_bits-le (drop 4 w) n)

platform_sized-bits :
    (k : Kind) (n : ℕ) (s : Bool)
    → platform_sized k ≡ true
    → basic_int_shape k ≡ some (n, s)
    → n ≡ 64
unfolding basic_int_shape
platform_sized-bits int_kind n s h e = ground arith
platform_sized-bits uint_kind n s h e = ground arith
platform_sized-bits uintptr_kind n s h e = ground arith
platform_sized-bits k n s h e = cc

override_compat-lem :
    (platform : Bool) (go_bits : ℕ) (go_signed : Bool) (o : Option ℕ) (signed : Bool) (bits : ℕ)
    (sign : Bool)
    → override_compat platform go_bits go_signed o signed ≡ legal bits sign
    → (o ≡ some bits)
      × (sign ≡ go_signed)
      × (platform ≡ true → 32 ≤ bits)
      × (platform ≡ false → bits ≤ go_bits)
unfolding override_compat
override_compat-lem platform go_bits go_signed none signed bits sign h = cc
override_compat-lem platform go_bits true (some n) true bits sign h = ground arith
override_compat-lem platform go_bits true (some n) false bits sign h = cc
override_compat-lem platform go_bits false (some n) true bits sign h = cc
override_compat-lem platform go_bits false (some n) false bits sign h = ground arith

integer_compat-IsContract :
    (t : GoType) (k : Kind) (n : Text) (o : Option (ℕ × Bool)) (override : Text) (bits : ℕ)
    (sign : Bool)
    → underlying_type t ≡ basic k n
    → basic_int_shape k ≡ o
    → integer_compat k o override ≡ legal bits sign
    → IsContract t override bits sign
integer_compat-IsContract t k n none override bits sign u e h =
    absurd (refused (is_empty override) h)
  where
    refused :
        (b : Bool)
        → (if b then illegal not_an_integer else illegal override_on_other) ≡ legal bits sign
        → ⊥
    refused true q = cc
    refused false q = cc
integer_compat-IsContract t k n (some (go_bits, go_signed)) override bits sign u e h =
    elim (Bool-cases (is_empty override)) [
      | inl bare ↦ plain bare (rw bare at h)
      | inr given ↦ with_option given (rw given at h)
    ]
  where
    covers : (if platform_sized k then 32 else go_bits) ≤ go_bits
    covers = elim (Bool-cases (platform_sized k)) [
      | inl p ↦ rw p (omega (arith, platform_sized-bits k go_bits go_signed p e))
      | inr p ↦ rw p (omega arith)
    ]

    plain :
        is_empty override ≡ true
        → legal (if platform_sized k then 32 else go_bits) go_signed ≡ legal bits sign
        → IsContract t override bits sign
    plain bare q =
        let same : (if platform_sized k then 32 else go_bits) ≡ bits = ground arith in
        let sign_same : go_signed ≡ sign = ground arith in
        record {
          kind = k;
          spelling = n;
          integer = u;
          go_bits = go_bits;
          shape = rw (← sign_same) e;
          within = rw (← same) covers;
          portable = λ p. let least : 32 ≡ bits = rw p at same in omega arith;
          default = λ _. sym same;
          declared = λ given. cc;
        }

    with_option :
        is_empty override ≡ false
        → override_compat
            (platform_sized k)
            go_bits
            go_signed
            (parse_override_width override)
            (override_signed override)
          ≡ legal bits sign
        → IsContract t override bits sign
    with_option given q =
        let (width, same, platform, fixed) =
          override_compat-lem (platform_sized k) go_bits go_signed (parse_override_width override)
            (override_signed override) bits sign q in
        record {
          kind = k;
          spelling = n;
          integer = u;
          go_bits = go_bits;
          shape = rw same e;
          within = elim (Bool-cases (platform_sized k)) [
            | inl p ↦ omega (
              arith,
              platform_sized-bits k go_bits go_signed p e,
              parse_override_width-le override bits width,
            )
            | inr p ↦ fixed p
          ];
          portable = platform;
          default = λ bare. cc;
          declared = λ _. width;
        }

basic_compat-IsContract :
    (t u : GoType) (override : Text) (bits : ℕ) (sign : Bool)
    → underlying_type t ≡ u
    → basic_compat u override ≡ legal bits sign
    → IsContract t override bits sign
unfolding basic_compat
basic_compat-IsContract t (basic k n) override bits sign e h =
    integer_compat-IsContract t k n (basic_int_shape k) override bits sign e refl h
basic_compat-IsContract t u override bits sign e h = absurd (refused (is_empty override) h)
  where
    refused :
        (b : Bool)
        → (if b then illegal not_an_integer else illegal override_on_other) ≡ legal bits sign
        → ⊥
    refused true q = cc
    refused false q = cc

-- What WireOverrideCompat accepts keeps the contract: the type, under its name, is an integer; the sign
-- is the type's and the width no more than the type's own; int, uint and uintptr have at least 32
-- bits; without an option the width is the default, 32 or the type's own, and with one the option's.
pub wire_override_compat-IsContract :
    (t : GoType) (override : Text) (bits : ℕ) (sign : Bool)
    → wire_override_compat (some t) override ≡ legal bits sign
    → IsContract t override bits sign
unfolding wire_override_compat
wire_override_compat-IsContract t override bits sign h =
    basic_compat-IsContract t (underlying_type t) override bits sign refl h
