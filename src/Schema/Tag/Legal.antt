-- ===== src/Schema/Tag/Legal.antt =====
-- What ParseFieldTag accepts.
use gsbm.Common.{
  ℕ, ◌≤◌, ◌≡◌, ◌≢◌, refl, Bool, true, false, ◌||◌, Option, none, some, List, [], ◌∷◌, drop, arith,
}
use gsbm.Common.{if◌then◌else◌, codes, has_prefix, split, parse_uint32}
use gsbm.Reader.Header.{same_bytes}
use gsbm.Schema.{Text, is_empty}
use gsbm.Schema.Tag.{
  FieldTag, TagError, unknown_option, Parsed, good, bad, and_then, max_field_tag, no_tag, widths,
  among, deprecated_option, compat_write_option, id_ref_option, custom_option, type_option,
  tag_option, tag_options, tag_conflicts, numbered_tag, tag_parts, parse_field_tag,
}

-- What every round of the option loop keeps.
record IsNumbered (ft : FieldTag) : Type 0 where
  set : ft.set ≡ true
  taken : ft.skip ≡ false
  low : 1 ≤ ft.tag
  high : ft.tag ≤ max_field_tag
  width : (is_empty ft.wire_override || among ft.wire_override widths) ≡ true

-- A field that is in the schema: its number is a tag, and its options do not contradict each other.
pub record IsLegal (ft : FieldTag) : Type 0 where
  pub low : 1 ≤ ft.tag
  pub high : ft.tag ≤ max_field_tag
  pub window : ft.compat_write ≡ true → ft.deprecated ≡ true
  pub width : (is_empty ft.wire_override || among ft.wire_override widths) ≡ true
  pub one_codec : ft.cycle_break_via_id ≡ true → is_empty ft.custom ≡ true
  pub one_width :
      is_empty ft.wire_override ≡ false
      → (is_empty ft.custom ≡ true) × (ft.cycle_break_via_id ≡ false)

module _ (ft gt : FieldTag) (h : IsNumbered ft) where
  deprecated_option-IsNumbered : deprecated_option ft ≡ good gt → IsNumbered gt
  unfolding deprecated_option
  deprecated_option-IsNumbered e = ground arith

  compat_write_option-IsNumbered : compat_write_option ft ≡ good gt → IsNumbered gt
  unfolding compat_write_option
  compat_write_option-IsNumbered e = ground arith

  id_ref_option-IsNumbered : id_ref_option ft ≡ good gt → IsNumbered gt
  unfolding id_ref_option
  id_ref_option-IsNumbered e = ground arith

  custom_option-IsNumbered : (name : Text) → custom_option ft name ≡ good gt → IsNumbered gt
  unfolding custom_option
  custom_option-IsNumbered name e = ground arith

  type_option-IsNumbered : (width : Text) → type_option ft width ≡ good gt → IsNumbered gt
  unfolding type_option
  type_option-IsNumbered width e = ground arith

bad-ne-good : (x : TagError) (gt : FieldTag) → bad x ≢ good gt
bad-ne-good x gt e = cc

-- A test both of whose results keep the promise.
if-IsNumbered :
    (gt : FieldTag) (b : Bool) (x y : Parsed)
    → (x ≡ good gt → IsNumbered gt)
    → (y ≡ good gt → IsNumbered gt)
    → (if b then x else y) ≡ good gt
    → IsNumbered gt
if-IsNumbered gt true x y hx hy = hx
if-IsNumbered gt false x y hx hy = hy

tag_option-IsNumbered :
    (ft gt : FieldTag) (p : Text) → IsNumbered ft → tag_option ft p ≡ good gt → IsNumbered gt
unfolding tag_option
tag_option-IsNumbered ft gt p h =
    if-IsNumbered gt (same_bytes p (codes "deprecated")) _ _ (deprecated_option-IsNumbered ft gt h)
      (if-IsNumbered gt (same_bytes p (codes "compat_write")) _ _
        (compat_write_option-IsNumbered ft gt h)
        (if-IsNumbered gt (same_bytes p (codes "id_ref")) _ _ (id_ref_option-IsNumbered ft gt h) (
          if-IsNumbered gt (has_prefix p (codes "custom=")) _ _
            (custom_option-IsNumbered ft gt h (drop 7 p))
            (if-IsNumbered gt (has_prefix p (codes "type=")) _ (bad unknown_option)
              (type_option-IsNumbered ft gt h (drop 5 p))
              (λ e. absurd (bad-ne-good unknown_option gt e))))))

pub and_then-good :
    (m : Parsed) (f : FieldTag → Parsed) (gt : FieldTag)
    → and_then m f ≡ good gt
    → (ft : FieldTag) × (m ≡ good ft) × (f ft ≡ good gt)
and_then-good (good ft) f gt e = (ft, refl, e)
and_then-good (bad x) f gt e = cc

tag_options-IsNumbered :
    (ps : List Text) (ft gt : FieldTag)
    → IsNumbered ft
    → tag_options ft ps ≡ good gt
    → IsNumbered gt
unfolding tag_options
tag_options-IsNumbered [] ft gt h e = ground arith
tag_options-IsNumbered (p ∷ ps) ft gt h e =
    let (t, first, rest) = and_then-good (tag_option ft p) _ gt e in
    tag_options-IsNumbered ps t gt (tag_option-IsNumbered ft t p h first) rest

tag_conflicts-IsLegal :
    (ft gt : FieldTag) → IsNumbered ft → tag_conflicts ft ≡ good gt → IsLegal gt × (gt.skip ≡ false)
unfolding tag_conflicts
tag_conflicts-IsLegal ft gt h e = ground arith

numbered_tag-IsLegal :
    (o : Option ℕ) (ps : List Text) (gt : FieldTag)
    → numbered_tag o ps ≡ good gt
    → IsLegal gt × (gt.skip ≡ false)
unfolding numbered_tag
numbered_tag-IsLegal none ps gt e = cc
numbered_tag-IsLegal (some n) ps gt e =
    let (t, options, conflicts) =
      and_then-good (tag_options start ps) tag_conflicts gt (ground arith) in
    tag_conflicts-IsLegal t gt (tag_options-IsNumbered ps start t fresh options) conflicts
  where
    start : FieldTag
    start = record no_tag { set = true; tag = n }

    fresh : IsNumbered start
    fresh = ground arith

tag_parts-IsLegal :
    (ps : List Text) (gt : FieldTag) → tag_parts ps ≡ good gt → IsLegal gt × (gt.skip ≡ false)
unfolding tag_parts
tag_parts-IsLegal [] gt e = cc
tag_parts-IsLegal (p ∷ ps) gt e = ground (arith, numbered_tag-IsLegal (parse_uint32 p) ps gt)

-- A struct tag that parses, is present and does not skip the field numbers it from 1 to 2^29-1; its
-- type= is one of the eight widths; compat_write stands only with deprecated; and at most one of
-- id_ref, custom= and type= is given.
pub parse_field_tag-IsLegal :
    (raw : Option Text) (ft : FieldTag)
    → parse_field_tag raw ≡ good ft
    → ft.set ≡ true
    → ft.skip ≡ false
    → IsLegal ft
unfolding parse_field_tag
parse_field_tag-IsLegal none ft e set skip = cc
parse_field_tag-IsLegal (some raw) ft e set skip =
    ground (arith, tag_parts-IsLegal (split b',' raw) ft)
