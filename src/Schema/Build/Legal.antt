-- ===== src/Schema/Build/Legal.antt =====
-- What a field that is built without an issue keeps of its tag, its markers and its type.
use gsbm.Common.{
  ◌≤◌, ◌≡◌, refl, sym, ap, ◌∙◌, Bool, Bool-cases, true, false, not, ◌&&◌, ◌||◌, inl, inr, none,
  some, List, [], ◌∷◌, map, arith,
}
use gsbm.Common.{if◌then◌else◌}
use mathlib.Core.Path.{subst}
use gsbm.Schema.{Text, is_empty, FieldDecl}
use gsbm.Schema.Compatible.{out_of_some}
use gsbm.Schema.Tag.{FieldTag, Parsed, good, bad, max_field_tag, parse_field_tag}
use gsbm.Schema.Tag.Legal.{IsLegal, parse_field_tag-IsLegal}
use gsbm.Schema.Tag.Markers.{Markers, Walk, parse_markers}
use gsbm.Schema.Validate.Cycles.Search.{nil_parts}
use gsbm.Schema.GoTypes.{GoType, pointer, is_pointer_to_struct}
use gsbm.Schema.GoTypes.Override.{wire_override_compat}
use gsbm.Schema.GoTypes.Shape.{fill_type_shape}
use gsbm.Schema.GoTypes.Supported.{TypeIssue, check_supported_type}
use gsbm.Schema.GoTypes.Supported.Grammar.{IsField}
use gsbm.Schema.GoTypes.Supported.Accepted.{check_supported_type-IsField}
use gsbm.Schema.Build.{
  Var, BuildIssue, type_issue, Built, refuse, also, marker_issues, blank_decl, IdLookup, id_field,
  no_id, compat_ok, resolved_id, checked_id, lookup_id_fields, resolve_id_ref_field, typed_field,
  custom_value, custom_field, tagged_field, nothing_built, marked_field, parsed_field,
  build_field_decl,
}
use gsbm.Schema.Build.Keeps.{Keeps, Keeps-trans, named-Keeps}

-- A field of the schema, against the Go field that it describes.
pub record FieldIsLegal (v : Var) (fd : FieldDecl) : Type 0 where
  pub name : fd.name ≡ v.name
  pub low : 1 ≤ fd.tag
  pub high : fd.tag ≤ max_field_tag
  pub window : fd.compat_write ≡ true → fd.deprecated ≡ true
  pub reference : fd.cycle_break ≡ true → is_pointer_to_struct v.type ≡ true
  pub one_codec : fd.cycle_break ≡ true → is_empty fd.custom ≡ true
  pub accepted : is_empty fd.custom ≡ true → IsField v.type

-- No issue, and this field
abbrev Gives : FieldDecl → Built → Type 0
Gives fd b = (b.issues ≡ []) × (b.decl ≡ some fd)

no_refusal : (i : BuildIssue) (fd : FieldDecl) → Gives fd (refuse i) → ⊥
no_refusal i fd h = no_list h.0
  where
    no_list : i ∷ [] ≡ [] → ⊥
    no_list e = cc

past_refusal :
    (fd : FieldDecl) (b : Bool) (i : BuildIssue) (y : Built)
    → Gives fd (if b then refuse i else y)
    → (b ≡ false) × Gives fd y
past_refusal fd true i y h = absurd (no_refusal i fd h)
past_refusal fd false i y h = (refl, h)

module _ (type_string : GoType → Text) (fields_of : GoType → List Var) (owner_pkg : Text) where
  resolved_id-Keeps :
      (id : Var) (override : Text) (fd gd : FieldDecl)
      → (resolved_id type_string fields_of owner_pkg id override fd).decl ≡ some gd
      → Keeps fd gd
  unfolding resolved_id
  resolved_id-Keeps id override fd gd h = ground arith

  checked_id-Keeps :
      (target : GoType) (found : IdLookup) (fd gd : FieldDecl)
      → (checked_id type_string fields_of owner_pkg target found fd).decl ≡ some gd
      → Keeps fd gd
  unfolding checked_id
  checked_id-Keeps target no_id fd gd h = ground arith
  checked_id-Keeps target (id_field id override) fd gd h =
      ground (arith, resolved_id-Keeps id override fd gd)

  resolve-Keeps :
      (t : GoType) (fd gd : FieldDecl)
      → (resolve_id_ref_field type_string fields_of owner_pkg t fd).decl ≡ some gd
      → Keeps fd gd
  unfolding resolve_id_ref_field
  resolve-Keeps (pointer target) fd gd h =
      checked_id-Keeps target (lookup_id_fields (fields_of target)) fd gd h
  resolve-Keeps t fd gd h = ground arith

  nil_map : (is : List TypeIssue) → map type_issue is ≡ [] → is ≡ []
  nil_map [] e = refl
  nil_map (i ∷ is) e = absurd (no_list e)
    where
      no_list : type_issue i ∷ map type_issue is ≡ [] → ⊥
      no_list q = cc

  typed_field-Keeps :
      (v : Var) (fd gd : FieldDecl)
      → Gives gd (typed_field type_string fields_of owner_pkg v fd)
      → Keeps fd gd × IsField v.type
  unfolding typed_field
  typed_field-Keeps v fd gd (quiet, gives) =
      let (first, rest) = nil_parts _ (map type_issue (check_supported_type 0 0 v.type)) quiet in
      (
        kept (fd.cycle_break) (fill_type_shape type_string fd v.type)
            (named-Keeps type_string fd v.type) gives,
        check_supported_type-IsField v.type (nil_map (check_supported_type 0 0 v.type) rest),
      )
    where
      kept :
          (b : Bool) (filled : FieldDecl)
          → Keeps fd filled
          → (if b
              then resolve_id_ref_field type_string fields_of owner_pkg v.type filled
              else record { issues = []; decl = some filled }).decl
            ≡ some gd
          → Keeps fd gd
      kept true filled k q = Keeps-trans fd filled gd k (resolve-Keeps v.type filled gd q)
      kept false filled k q = subst (λ x. Keeps fd x) (out_of_some filled gd q) k

  custom_value-Keeps :
      (t : GoType) (fd gd : FieldDecl)
      → Gives gd (custom_value type_string fields_of owner_pkg t fd)
      → Keeps fd gd
  custom_value-Keeps t fd gd (quiet, gives) = ground arith

  custom_field-Keeps :
      (t : GoType) (fd gd : FieldDecl)
      → Gives gd (custom_field type_string fields_of owner_pkg t fd)
      → Keeps fd gd
  unfolding custom_field
  custom_field-Keeps (pointer e) fd gd h =
      Keeps-trans fd (record fd { optional = true }) gd (ground arith)
        (custom_value-Keeps e (record fd { optional = true }) gd h)
  custom_field-Keeps t fd gd h = custom_value-Keeps t fd gd h

  tagged_field-FieldIsLegal :
      (v : Var) (ft : FieldTag) (m : Markers) (gd : FieldDecl)
      → IsLegal ft
      → Gives gd (tagged_field type_string fields_of owner_pkg v ft m)
      → FieldIsLegal v gd
  unfolding tagged_field
  tagged_field-FieldIsLegal v ft m gd legal_tag h =
      let (marker_alone, h1) =
        past_refusal gd (m.cycle_break_via_id && not (is_empty ft.custom)) _ _ h in
      let (_, h2) =
        past_refusal gd (m.cycle_break_via_id && not (is_empty ft.wire_override)) _ _ h1 in
      let (to_struct, h3) =
        past_refusal gd
          ((m.cycle_break_via_id || ft.cycle_break_via_id) && not (is_pointer_to_struct v.type)) _ _
          h2 in
      let (_, h4) =
        past_refusal gd
          (not (is_empty ft.wire_override)
            && not (compat_ok (wire_override_compat (some v.type) ft.wire_override)))
          _ _ h3 in
      elim (Bool-cases (is_empty ft.custom)) [
        | inl bare ↦
            let (k, accepted) = typed_field-Keeps v fd gd (rw bare at h4) in
            assemble marker_alone to_struct k (λ _. accepted)
        | inr codec ↦
            assemble marker_alone to_struct (custom_field-Keeps v.type fd gd (rw codec at h4))
              (λ bare. absurd (both bare codec))
      ]
    where
      fd : FieldDecl
      fd = blank_decl v.name ft (m.cycle_break_via_id || ft.cycle_break_via_id)

      both : is_empty ft.custom ≡ true → is_empty ft.custom ≡ false → ⊥
      both a b = cc

      points : (b p : Bool) → (b && not p) ≡ false → b ≡ true → p ≡ true
      points b p q e = ground arith

      alone :
          (a b c : Bool) → (a && not c) ≡ false → (b ≡ true → c ≡ true) → (a || b) ≡ true → c ≡ true
      alone a b c q tag e = ground arith

      assemble :
          (m.cycle_break_via_id && not (is_empty ft.custom)) ≡ false
          → ((m.cycle_break_via_id || ft.cycle_break_via_id) && not (is_pointer_to_struct v.type))
            ≡ false
          → Keeps fd gd
          → (is_empty ft.custom ≡ true → IsField v.type)
          → FieldIsLegal v gd
      assemble one ptr k accepted = record {
        name = k.name;
        low = omega (arith, k.tag, legal_tag.low);
        high = omega (arith, k.tag, legal_tag.high);
        window = λ c. k.deprecated ∙ legal_tag.window (sym k.compat_write ∙ c);
        reference = λ c.
            points (m.cycle_break_via_id || ft.cycle_break_via_id) (is_pointer_to_struct v.type) ptr
              (sym k.cycle_break ∙ c);
        one_codec = λ c.
            ap is_empty k.custom
            ∙ alone m.cycle_break_via_id ft.cycle_break_via_id (is_empty ft.custom) one
                legal_tag.one_codec (sym k.cycle_break ∙ c);
        accepted = λ c. accepted (sym (ap is_empty k.custom) ∙ c);
      }

  marked_field-FieldIsLegal :
      (v : Var) (ft : FieldTag) (m : Markers) (gd : FieldDecl)
      → parse_field_tag v.tag ≡ good ft
      → Gives gd (marked_field type_string fields_of owner_pkg v ft m)
      → FieldIsLegal v gd
  unfolding marked_field
  marked_field-FieldIsLegal v ft m gd parsed h =
      let (_, h1) = past_refusal gd m.track_presence _ _ h in
      let (_, h2) = past_refusal gd m.borrow_strings _ _ h1 in
      let (has_tag, h3) = past_refusal gd (not ft.set) _ _ h2 in taken_or has_tag ft.skip refl h3
    where
      set_of : (b : Bool) → not b ≡ false → b ≡ true
      set_of b e = ground arith

      unbuilt : Gives gd nothing_built → ⊥
      unbuilt (quiet, gives) = nothing gives
        where
          nothing : none ≡ some gd → ⊥
          nothing q = cc

      taken_or :
          not ft.set ≡ false
          → (b : Bool) → ft.skip ≡ b
          → Gives gd
              (if b then nothing_built else tagged_field type_string fields_of owner_pkg v ft m)
          → FieldIsLegal v gd
      taken_or has_tag true e k = absurd (unbuilt k)
      taken_or has_tag false e k =
          tagged_field-FieldIsLegal v ft m gd
            (parse_field_tag-IsLegal v.tag ft parsed (set_of ft.set has_tag) e) k

  parsed_field-FieldIsLegal :
      (v : Var) (p : Parsed) (w : Walk) (gd : FieldDecl)
      → parse_field_tag v.tag ≡ p
      → Gives gd (parsed_field type_string fields_of owner_pkg v p w)
      → FieldIsLegal v gd
  parsed_field-FieldIsLegal v (bad e) w gd q h = absurd (no_refusal _ gd h)
  parsed_field-FieldIsLegal v (good ft) w gd q h =
      marked_field-FieldIsLegal v ft w.so_far gd q (behind (marker_issues w.error) _ h)
    where
      behind : (is : List BuildIssue) (b : Built) → Gives gd (also is b) → Gives gd b
      behind is b k = ((nil_parts is b.issues k.0).1, k.1)

-- A field that buildFieldDecl returns without an issue has the name of the Go field; its tag is from 1 to
-- 2^29-1; compat_write stands only with deprecated; an id reference is a pointer to a struct and has
-- no custom codec; and without a codec the field's type has one of the forms that checkSupportedType
-- accepts, in which the keys of maps are any types at all.
pub build_field_decl-FieldIsLegal :
    (type_string : GoType → Text) (fields_of : GoType → List Var) (owner_pkg : Text) (v : Var)
    (fd : FieldDecl)
    → (build_field_decl type_string fields_of owner_pkg v).issues ≡ []
    → (build_field_decl type_string fields_of owner_pkg v).decl ≡ some fd
    → FieldIsLegal v fd
unfolding build_field_decl
build_field_decl-FieldIsLegal type_string fields_of owner_pkg v fd quiet gives =
    parsed_field-FieldIsLegal type_string fields_of owner_pkg v (parse_field_tag v.tag)
      (parse_markers v.doc) fd refl (quiet, gives)
