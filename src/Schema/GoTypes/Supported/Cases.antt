-- ===== src/Schema/GoTypes/Supported/Cases.antt =====
-- The rules of checkSupportedType case by case, where they have nothing to say.
use gsbm.Common.{
  ℕ, zero, suc, ◌+◌, ◌≡◌, ◌⊎◌, refl, sym, Bool, Bool-cases, true, false, ◌||◌, inl, inr, List, [],
  ◌∷◌, arith,
}
use gsbm.Common.{ltb, if◌then◌else◌}
use mathlib.Core.Path.{subst}
use gsbm.Schema.{Text}
use gsbm.Schema.GoTypes.{
  Kind, uint8_kind, GoType, GoTypes, no_types, types, basic, named, struct_body, slice, pointer,
  is_supported_kind, is_byte_kind, is_basic_byte, is_leaf_element, is_named_struct,
  is_pointer_to_struct, is_slice_element,
}
use gsbm.Schema.GoTypes.Supported.{
  TypeIssue, unsupported, generic_instance, nesting_too_deep, is_nested, too_deep, element_rule,
  slice_rule, map_rule, alias_rule, named_rule, generic_rule, check_supported_type,
}
use gsbm.Schema.GoTypes.Supported.Grammar.{
  IsStructName, struct_name, IsValue, plain, list, IsByteAlias, byte_alias,
}

abbrev is_pointer : GoType → Bool
is_pointer (pointer e) = true
is_pointer _ = false

pointer_cases : (e : GoType) → ((p : GoType) × (e ≡ pointer p)) ⊎ (is_pointer e ≡ false)
pointer_cases (pointer p) = inl (p, refl)
pointer_cases e = inr refl

-- The clauses of the check on an element that is no pointer.
check-slice :
    (d c : ℕ) (e : GoType)
    → is_pointer e ≡ false
    → check_supported_type d c (slice e) ≡ slice_rule c e (check_supported_type (d + 1) (c + 1) e)
unfolding check_supported_type
check-slice d c (pointer p) h = cc
check-slice d c e h = refl

check-alias :
    (d c : ℕ) (pkg name : Text) (x : Bool) (args : GoTypes) (e : GoType)
    → is_pointer e ≡ false
    → check_supported_type d c (named pkg name x args (slice e))
      ≡ generic_rule d args (slice e) (alias_rule d e (check_supported_type (d + 1) (c + 1) e))
unfolding check_supported_type
check-alias d c pkg name x args (pointer p) h = cc
check-alias d c pkg name x args e h = refl

pub clash : {A : Type 0} (i : TypeIssue) → i ∷ [] ≡ [] → A
clash i e = absurd (no_list e)
  where
    no_list : i ∷ [] ≡ [] → ⊥
    no_list q = cc

-- A nested element passes if what is below it does; another one must be of the right kind too.
pub element_rule-nil :
    (ok : Bool) (e : GoType) (below : List TypeIssue)
    → element_rule ok e below ≡ []
    → (below ≡ []) × ((is_nested e || ok) ≡ true)
element_rule-nil ok e below h = ground arith

pub generic_rule-nil :
    (d : ℕ) (args : GoTypes) (u : GoType) (rest : List TypeIssue)
    → ltb 0 d ≡ true
    → generic_rule d args u rest ≡ []
    → (args ≡ no_types) × (rest ≡ [])
generic_rule-nil d no_types u rest p h = (refl, h)
generic_rule-nil d (types t ts) u rest p h = clash generic_instance (rw p at h)

byte_is_supported : (k : Kind) → is_byte_kind k ≡ true → is_supported_kind k ≡ true
unfolding is_supported_kind
byte_is_supported uint8_kind h = refl
byte_is_supported k h = cc

pub supported_or :
    (k : Kind)
    → (if is_supported_kind k then [] else unsupported ∷ []) ≡ []
    → is_supported_kind k ≡ true
supported_or k h = elim (Bool-cases (is_supported_kind k)) [
  | inl e ↦ e
  | inr e ↦ clash unsupported (rw e at h)
]

byte_value : (n : ℕ) (e : GoType) → is_basic_byte e ≡ true → IsValue n e
unfolding is_basic_byte
byte_value n (basic k name) h = plain n k name (byte_is_supported k h)
byte_value n e h = cc

pub byte_name :
    (pkg name : Text) (x : Bool) (e : GoType)
    → is_basic_byte e ≡ true
    → IsByteAlias (named pkg name x no_types (slice e))
unfolding is_basic_byte
byte_name pkg name x (basic k base) h = byte_alias pkg name x k base h
byte_name pkg name x e h = cc

-- A name for bytes is no element.
pub alias_no_element :
    (e : GoType) (n : ℕ)
    → IsValue n e ⊎ IsByteAlias e
    → (is_nested e || is_slice_element e) ≡ true
    → IsValue n e
unfolding is_slice_element is_leaf_element is_pointer_to_struct
alias_no_element e n (inl v) h = v
alias_no_element e n (inr (byte_alias pkg name x k base b)) h = cc

pub alias_no_leaf :
    (e : GoType) (n : ℕ)
    → IsValue n e ⊎ IsByteAlias e
    → (is_nested e || is_leaf_element e) ≡ true
    → IsValue n e
unfolding is_leaf_element
alias_no_leaf e n (inl v) h = v
alias_no_leaf e n (inr (byte_alias pkg name x k base b)) h = cc

pub room : (c n : ℕ) → c + n ≡ 3 → too_deep c ≡ false → (m : ℕ) × (n ≡ suc m)
room c zero e h = absurd (ground arith)
room c (suc m) e h = (m, refl)

pub struct_pointee :
    (d c : ℕ) (p : GoType)
    → ltb 0 d ≡ true
    → is_named_struct p ≡ true
    → check_supported_type d c p ≡ []
    → IsStructName p
unfolding check_supported_type
struct_pointee d c (named pkg name x args struct_body) deep h e =
    subst (λ a. IsStructName (named pkg name x a struct_body))
      (sym (generic_rule-nil d args struct_body (named_rule struct_body) deep e).0)
      (struct_name pkg name x)
struct_pointee d c p deep h e = cc

pub slice-IsValue :
    (c n : ℕ) (e : GoType) (below : List TypeIssue)
    → c + n ≡ 3
    → ((m : ℕ)
        → n ≡ suc m
        → below ≡ []
        → (is_nested e || is_slice_element e) ≡ true
        → IsValue n (slice e))
    → slice_rule c e below ≡ []
    → IsValue n (slice e)
unfolding slice_rule
slice-IsValue c n e below sum go h = elim (Bool-cases (too_deep c)) [
  | inl deep ↦ clash nesting_too_deep (rw deep at h)
  | inr shallow ↦
      let (m, fits) = room c n sum shallow in
      elim (Bool-cases (is_basic_byte e)) [
        | inl byte ↦ subst (λ k. IsValue k (slice e)) (sym fits) (list m e (byte_value m e byte))
        | inr other ↦
            let (rest, kind) =
              element_rule-nil (is_slice_element e) e below (rw (shallow, other) at h) in
            go m fits rest kind
      ]
]

pub slice_element_pointer :
    (p : GoType)
    → (is_nested (pointer p) || is_slice_element (pointer p)) ≡ true
    → is_named_struct p ≡ true
unfolding is_slice_element is_leaf_element is_pointer_to_struct
slice_element_pointer p h = h

pub alias_deep :
    (d : ℕ) (e : GoType) (below : List TypeIssue)
    → ltb 0 d ≡ true
    → alias_rule d e below ≡ []
    → is_basic_byte e ≡ true
unfolding alias_rule
alias_deep d e below deep h = elim (Bool-cases (is_basic_byte e)) [
  | inl byte ↦ byte
  | inr other ↦ clash unsupported (rw (other, deep) at h)
]

pub map_rule-deep :
    (c : ℕ) (v : GoType) (below : List TypeIssue)
    → too_deep c ≡ true
    → map_rule c v below ≡ []
    → nesting_too_deep ∷ [] ≡ []
unfolding map_rule
map_rule-deep c v below full h = rw full at h

pub map_rule-nil :
    (c : ℕ) (v : GoType) (below : List TypeIssue)
    → too_deep c ≡ false
    → map_rule c v below ≡ []
    → (below ≡ []) × ((is_nested v || is_leaf_element v) ≡ true)
unfolding map_rule
map_rule-nil c v below shallow h = element_rule-nil (is_leaf_element v) v below (rw shallow at h)
