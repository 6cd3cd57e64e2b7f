-- ===== src/Schema/GoTypes/Shape/Paren.antt =====
-- The width that is read off the recorded shape of a named type, `pkg.Name(basic)`.
use gsbm.Common.{
  ℕ, zero, suc, ◌≡◌, refl, sym, Bool, Bool-cases, true, false, inl, inr, Option-cases, none, some,
  [], ◌∷◌, ◌++◌, take, drop, take-append-drop,
}
use gsbm.Common.{if◌then◌else◌, codes}
use gsbm.Common.Text.Split.{Lacks, Lacks-append, lacks, lacks-Lacks}
use mathlib.Core.Path.{subst}
use gsbm.Reader.Header.{same_bytes}
use gsbm.Intern.Retained.{same_bytes_lem}
use gsbm.Schema.{Text}
use gsbm.Schema.Width.{
  after_last, unclosed, fixed_bits, basic_width, parse_override_width, default_width, id_text,
  int_text, uint_text, uintptr_text,
}

-- A pattern with a colon is not found in a text without one.
after_last-id_text : (s : Text) → Lacks b':' s → after_last id_text s ≡ none
unfolding after_last
after_last-id_text [] h = refl
after_last-id_text (x ∷ s) h =
    rw (after_last-id_text s h.1) (at (same_bytes (take 4 (x ∷ s)) id_text) refl)
  where
    colon : (s : Text) → Lacks b':' s → same_bytes (take 4 s) id_text ≡ true → ⊥
    colon s h e = missing (subst (Lacks b':') (same_bytes_lem (take 4 s) id_text e) (took 4 s h))
      where
        took : (n : ℕ) (s : Text) → Lacks b':' s → Lacks b':' (take n s)
        took zero s h = tt
        took (suc n) [] h = tt
        took (suc n) (c ∷ s) h = (h.0, took n s h.1)

        missing : Lacks b':' id_text → ⊥
        missing l = cc (l.1.1.1.0)

    at :
        (b : Bool)
        → same_bytes (take 4 (x ∷ s)) id_text ≡ b
        → (if b then some (drop 4 (x ∷ s)) else none) ≡ none
    at true e = absurd (colon (x ∷ s) h e)
    at false e = refl

after_last-paren : (key s : Text) → Lacks b'(' s → after_last (b'(' ∷ []) (key ++ b'(' ∷ s) ≡ some s
unfolding after_last
after_last-paren [] s h = rw (absent s h)
  where
    absent : (s : Text) → Lacks b'(' s → after_last (b'(' ∷ []) s ≡ none
    absent [] h = refl
    absent (c ∷ s) h = rw (absent s h.1) (rw h.0)
after_last-paren (c ∷ key) s h = rw (after_last-paren key s h)

unclosed-append : (s : Text) → unclosed (s ++ b')' ∷ []) ≡ some s
unfolding unclosed
unclosed-append [] = refl
unclosed-append (c ∷ []) = refl
unclosed-append (c ∷ d ∷ s) = rw (unclosed-append (d ∷ s))

literal-Lacks : (s t : Text) → lacks b'(' t ≡ true → same_bytes s t ≡ true → Lacks b'(' s
literal-Lacks s t h e = subst (Lacks b'(') (sym (same_bytes_lem s t e)) (lacks-Lacks b'(' t h)

fixed_bits-Lacks : (s : Text) (n : ℕ) → fixed_bits s ≡ some n → Lacks b'(' s
unfolding fixed_bits lacks
fixed_bits-Lacks s n e = elim (Bool-cases (same_bytes s (codes "8"))) [
  | inl h ↦ literal-Lacks s (codes "8") refl h
  | inr no8 ↦ elim (Bool-cases (same_bytes s (codes "16"))) [
    | inl h ↦ literal-Lacks s (codes "16") refl h
    | inr no16 ↦ elim (Bool-cases (same_bytes s (codes "32"))) [
      | inl h ↦ literal-Lacks s (codes "32") refl h
      | inr no32 ↦ elim (Bool-cases (same_bytes s (codes "64"))) [
        | inl h ↦ literal-Lacks s (codes "64") refl h
        | inr no64 ↦ absurd (nothing (rw (no8, no16, no32, no64) at e))
      ]
    ]
  ]
]
  where
    nothing : none ≡ some n → ⊥
    nothing q = cc

prefixed-Lacks :
    (k : ℕ) (w t : Text) (n : ℕ)
    → lacks b'(' t ≡ true
    → same_bytes (take k w) t ≡ true
    → fixed_bits (drop k w) ≡ some n
    → Lacks b'(' w
prefixed-Lacks k w t n h e f = subst (Lacks b'(') (take-append-drop k w) (
    Lacks-append b'(' (take k w) (drop k w) (literal-Lacks (take k w) t h e)
      (fixed_bits-Lacks (drop k w) n f))

parse_override_width-Lacks : (w : Text) (n : ℕ) → parse_override_width w ≡ some n → Lacks b'(' w
unfolding parse_override_width lacks
parse_override_width-Lacks w n e = elim (Bool-cases (same_bytes (take 3 w) int_text)) [
  | inl i ↦ prefixed-Lacks 3 w int_text n refl i (rw i at e)
  | inr no_int ↦ elim (Bool-cases (same_bytes (take 4 w) uint_text)) [
    | inl u ↦ prefixed-Lacks 4 w uint_text n refl u (rw (no_int, u) at e)
    | inr no_uint ↦ absurd (nothing (rw (no_int, no_uint) at e))
  ]
]
  where
    nothing : none ≡ some n → ⊥
    nothing q = cc

basic_width-Lacks : (s : Text) (n : ℕ) → basic_width s ≡ some n → Lacks b'(' s
unfolding basic_width lacks
basic_width-Lacks s n e = elim (Bool-cases (same_bytes s int_text)) [
  | inl h ↦ literal-Lacks s int_text refl h
  | inr a ↦ elim (Bool-cases (same_bytes s uint_text)) [
    | inl h ↦ literal-Lacks s uint_text refl h
    | inr b ↦ elim (Bool-cases (same_bytes s uintptr_text)) [
      | inl h ↦ literal-Lacks s uintptr_text refl h
      | inr c ↦ parse_override_width-Lacks s n (rw (a, b, c) at e)
    ]
  ]
]

-- The text of a named type is none of the basic names.
basic_width-paren : (key s : Text) → basic_width (key ++ b'(' ∷ s) ≡ none
basic_width-paren key s = elim (Option-cases (basic_width (key ++ b'(' ∷ s))) [
  | inl e ↦ e
  | inr (n, e) ↦ absurd (has_one key (basic_width-Lacks (key ++ b'(' ∷ s) n e))
]
  where
    has_one : (key : Text) → Lacks b'(' (key ++ b'(' ∷ s) → ⊥
    has_one [] l = cc (l.0)
    has_one (c ∷ key) l = has_one key l.1

-- A named type has the default of its underlying basic type.
pub default_width-paren :
    (key inner : Text) (fuel : ℕ)
    → Lacks b':' (key ++ b'(' ∷ (inner ++ b')' ∷ []))
    → Lacks b'(' inner
    → default_width (suc fuel) (key ++ b'(' ∷ (inner ++ b')' ∷ [])) ≡ default_width fuel inner
unfolding default_width
default_width-paren key inner fuel colon paren =
    rw
      (
        after_last-id_text (key ++ b'(' ∷ (inner ++ b')' ∷ [])) colon,
        basic_width-paren key (inner ++ b')' ∷ []),
        after_last-paren key (inner ++ b')' ∷ [])
            (Lacks-append b'(' inner (b')' ∷ []) paren (refl, tt)),
        unclosed-append inner,
      )
      refl
