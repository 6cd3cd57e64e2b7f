-- ===== src/Schema/GoTypes/Supported/Accepted.antt =====
-- The types that checkSupportedType accepts, against the grammar.
use gsbm.Common.{
  ℕ, suc, ◌+◌, ◌≡◌, ◌⊎◌, refl, sym, Bool-cases, true, false, ◌||◌, inl, inr, List, [], ◌∷◌, arith,
}
use gsbm.Common.{ltb}
use mathlib.Core.Path.{subst}
use gsbm.Schema.GoTypes.{
  GoType, GoTypes, no_types, types, basic, named, struct_body, slice, array, map_type, pointer,
  interface_type, channel, signature, other_type, is_struct, is_basic_byte, is_slice_element,
}
use gsbm.Schema.GoTypes.Supported.{
  TypeIssue, unsupported, generic_instance, nested_pointer, nesting_too_deep, is_nested, too_deep,
  alias_rule, named_rule, generic_rule, check_supported_type,
}
use gsbm.Schema.GoTypes.Supported.Grammar.{
  struct_name, IsValue, plain, renamed, body, list, pointers, table, IsByteAlias, IsField, value,
  bytes, alias, instance_of, optional,
}
use gsbm.Schema.GoTypes.Supported.Cases.{
  clash, element_rule-nil, generic_rule-nil, supported_or, byte_name, alias_no_element,
  alias_no_leaf, room, struct_pointee, slice-IsValue, slice_element_pointer, alias_deep,
  map_rule-deep, map_rule-nil,
}

deeper : (d : ℕ) → ltb 0 (d + 1) ≡ true
deeper d = ground arith

one_in : (c n m : ℕ) → c + n ≡ 3 → n ≡ suc m → c + 1 + m ≡ 3
one_in c n m sum fits = omega arith

-- Below the top of a field, `n` layers are left when `c` were entered.
inner :
    (t : GoType) (d c n : ℕ)
    → ltb 0 d ≡ true
    → c + n ≡ 3
    → check_supported_type d c t ≡ []
    → IsValue n t ⊎ IsByteAlias t
unfolding check_supported_type
inner (basic k name) d c n deep sum h = inl (plain n k name (supported_or k h))
inner (named pkg name x args (slice (pointer p))) d c n deep sum h = absurd (
    byteless (
      alias_deep d (pointer p) (below_of p) deep
        (generic_rule-nil d args (slice (pointer p)) (alias_rule d (pointer p) (below_of p)) deep
          h).1))
  where
    below_of : GoType → List TypeIssue
    below_of q = check_supported_type (d + 1) (c + 1) q

    byteless : is_basic_byte (pointer p) ≡ true → ⊥
    byteless q = unfold is_basic_byte in cc
inner (named pkg name x args (slice e)) d c n deep sum h =
    let below = check_supported_type (d + 1) (c + 1) e in
    let (none_left, rest) = generic_rule-nil d args (slice e) (alias_rule d e below) deep h in
    subst
      (λ a. IsValue n (named pkg name x a (slice e)) ⊎ IsByteAlias (named pkg name x a (slice e)))
      (sym none_left) (inr (byte_name pkg name x e (alias_deep d e below deep rest)))
inner (named pkg name x args struct_body) d c n deep sum h =
    subst
      (λ a.
        IsValue n (named pkg name x a struct_body) ⊎ IsByteAlias (named pkg name x a struct_body))
      (sym (generic_rule-nil d args struct_body [] deep h).0)
      (inl (body n _ (struct_name pkg name x)))
inner (named pkg name x args (basic k base)) d c n deep sum h =
    let (none_left, rest) = generic_rule-nil d args (basic k base) _ deep h in
    subst
      (λ a.
        IsValue n (named pkg name x a (basic k base))
        ⊎ IsByteAlias (named pkg name x a (basic k base)))
      (sym none_left) (inl (renamed n pkg name x k base (supported_or k rest)))
inner (named pkg name x args u) d c n deep sum h =
    clash unsupported (generic_rule-nil d args u _ deep h).1
inner (pointer e) d c n deep sum h = clash nested_pointer (rw deep at h)
inner (slice (pointer p)) d c n deep sum h = inl (
    slice-IsValue c n (pointer p) _ sum
      (λ m fits below kind.
        subst (λ k. IsValue k (slice (pointer p))) (sym fits)
          (pointers m p
            (struct_pointee (d + 1) (c + 1) p (deeper d) (slice_element_pointer p kind) below)))
      h)
inner (slice e) d c n deep sum h = inl (
    slice-IsValue c n e _ sum
      (λ m fits below kind.
        subst (λ k. IsValue k (slice e)) (sym fits)
          (list m e (
            alias_no_element e m
              (inner e (d + 1) (c + 1) m (deeper d) (one_in c n m sum fits) below) kind)))
      h)
inner (map_type k v) d c n deep sum h = elim (Bool-cases (too_deep c)) [
  | inl full ↦ clash nesting_too_deep (map_rule-deep c v _ full h)
  | inr shallow ↦
      let (m, fits) = room c n sum shallow in
      let (below, kind) = map_rule-nil c v _ shallow h in
      inl (
        subst (λ j. IsValue j (map_type k v)) (sym fits)
          (table m k v (
            alias_no_leaf v m (inner v (d + 1) (c + 1) m (deeper d) (one_in c n m sum fits) below)
              kind)))
]
inner (array m e) d c n deep sum h = clash unsupported h
inner struct_body d c n deep sum h = clash unsupported h
inner (interface_type b s) d c n deep sum h = clash unsupported h
inner (channel e s) d c n deep sum h = clash unsupported h
inner (signature s) d c n deep sum h = clash unsupported h
inner (other_type s) d c n deep sum h = clash unsupported h

top_args :
    (args : GoTypes) (u : GoType) (rest : List TypeIssue)
    → is_struct u ≡ false
    → generic_rule 0 args u rest ≡ []
    → (args ≡ no_types) × (rest ≡ [])
top_args no_types u rest s h = (refl, h)
top_args (types t ts) u rest s h = clash generic_instance (rw s at h)

alias_top :
    (e : GoType) (below : List TypeIssue)
    → alias_rule 0 e below ≡ []
    → (is_basic_byte e ≡ true) ⊎ ((below ≡ []) × ((is_nested e || is_slice_element e) ≡ true))
unfolding alias_rule
alias_top e below h = elim (Bool-cases (is_basic_byte e)) [
  | inl byte ↦ inl byte
  | inr other ↦ inr (element_rule-nil (is_slice_element e) e below (rw other at h))
]

-- A field's type that checkSupportedType has nothing to say of has one of these forms: a value, which nests
-- slices and maps three deep at most, over supported basic types, names for them, structs by name and,
-- in a slice, pointers to such structs; a name for a slice of that kind or for bytes; any struct
-- instance; or a pointer to a value or to a name for bytes. A map's key is any type at all, since the
-- check does not look at it; outside of such keys and of type arguments the type holds no array,
-- channel, function, interface, anonymous struct or complex number, and no pointer elsewhere.
pub check_supported_type-IsField : (t : GoType) → check_supported_type 0 0 t ≡ [] → IsField t
unfolding check_supported_type
check_supported_type-IsField (basic k name) h = value _ (plain 3 k name (supported_or k h))
check_supported_type-IsField (named pkg name x args (slice (pointer p))) h =
    let below = check_supported_type 1 1 p in
    let (none_left, rest) =
      top_args args (slice (pointer p)) (alias_rule 0 (pointer p) below) refl h in
    subst (λ a. IsField (named pkg name x a (slice (pointer p)))) (sym none_left)
      (elim (alias_top (pointer p) below rest) [
        | inl byte ↦ bytes _ (byte_name pkg name x (pointer p) byte)
        | inr (nil, kind) ↦
            alias pkg name x (pointer p)
              (pointers 2 p (struct_pointee 1 1 p refl (slice_element_pointer p kind) nil))
      ])
check_supported_type-IsField (named pkg name x args (slice e)) h =
    let below = check_supported_type 1 1 e in
    let (none_left, rest) = top_args args (slice e) (alias_rule 0 e below) refl h in
    subst (λ a. IsField (named pkg name x a (slice e))) (sym none_left)
      (elim (alias_top e below rest) [
        | inl byte ↦ bytes _ (byte_name pkg name x e byte)
        | inr (nil, kind) ↦
            alias pkg name x e (list 2 e (alias_no_element e 2 (inner e 1 1 2 refl refl nil) kind))
      ])
check_supported_type-IsField (named pkg name x args struct_body) h = instance_of pkg name x args
check_supported_type-IsField (named pkg name x args (basic k base)) h =
    let (none_left, rest) = top_args args (basic k base) (named_rule (basic k base)) refl h in
    subst (λ a. IsField (named pkg name x a (basic k base))) (sym none_left)
      (value _ (renamed 3 pkg name x k base (supported_or k rest)))
check_supported_type-IsField (named pkg name x args u) h =
    clash unsupported (top_args args u (unsupported ∷ []) refl h).1
check_supported_type-IsField (pointer e) h = optional e (inner e 1 0 3 refl refl h)
check_supported_type-IsField (slice (pointer p)) h = value _ (
    slice-IsValue 0 3 (pointer p) (check_supported_type 1 1 p) refl
      (λ m fits below kind.
        subst (λ k. IsValue k (slice (pointer p))) (sym fits)
          (pointers m p (struct_pointee 1 1 p refl (slice_element_pointer p kind) below)))
      h)
check_supported_type-IsField (slice e) h = value _ (
    slice-IsValue 0 3 e (check_supported_type 1 1 e) refl
      (λ m fits below kind.
        subst (λ k. IsValue k (slice e)) (sym fits)
          (list m e
            (alias_no_element e m (inner e 1 1 m refl (one_in 0 3 m refl fits) below) kind)))
      h)
check_supported_type-IsField (map_type k v) h =
    let (below, kind) = map_rule-nil 0 v (check_supported_type 1 1 v) refl h in
    value _ (table 2 k v (alias_no_leaf v 2 (inner v 1 1 2 refl refl below) kind))
check_supported_type-IsField (array m e) h = clash unsupported h
check_supported_type-IsField struct_body h = clash unsupported h
check_supported_type-IsField (interface_type b s) h = clash unsupported h
check_supported_type-IsField (channel e s) h = clash unsupported h
check_supported_type-IsField (signature s) h = clash unsupported h
check_supported_type-IsField (other_type s) h = clash unsupported h
