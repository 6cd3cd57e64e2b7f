-- ===== src/Schema/Tag/Print.antt =====
-- The tag that states a field tag, which ParseFieldTag reads back.
use gsbm.Common.{
  ℕ, ◌^◌, ◌≤◌, ◌<◌, ◌≡◌, ◌≢◌, ◌∙◌, refl, sym, Bool, Bool-cases, true, false, ◌||◌, inl, inr, some,
  List, [], ◌∷◌, ◌++◌, append-nil, arith,
}
use gsbm.Common.{codes, has_prefix, join_text, decimal}
use gsbm.Common.Text.Split.{
  Lacks, Lacks-append, AllLack, lacks, all_lack, lacks-Lacks, all_lack-AllLack, split-join_text,
  parse_uint32-decimal, decimal-Lacks, decimal-ne-nil,
}
use gsbm.Intern.Retained.{same_bytes_lem}
use mathlib.Core.Path.{subst}
use gsbm.Reader.Header.{same_bytes}
use gsbm.Schema.{Text, is_empty}
use gsbm.Schema.Tag.{
  FieldTag, good, max_field_tag, no_tag, widths, among, deprecated_option, compat_write_option,
  id_ref_option, custom_option, type_option, tag_option, tag_options, tag_conflicts, numbered_tag,
  tag_parts, parse_field_tag,
}
use gsbm.Schema.Tag.Legal.{IsLegal, and_then-good}

abbrev flag : Bool → Text → List Text
flag true t = t ∷ []
flag false t = []

abbrev valued : Text → Text → List Text
valued key [] = []
valued key (c ∷ s) = (key ++ c ∷ s) ∷ []

-- The options that a field tag is written with.
pub option_texts : FieldTag → List Text
option_texts ft =
    flag ft.deprecated (codes "deprecated")
    ++ (flag ft.compat_write (codes "compat_write")
        ++ (flag ft.cycle_break_via_id (codes "id_ref")
            ++ (valued (codes "custom=") ft.custom ++ valued (codes "type=") ft.wire_override)))

pub print_tag : FieldTag → Text
print_tag ft = join_text (b',' ∷ []) (decimal ft.tag ∷ option_texts ft)

tag_options-append :
    (ft gt : FieldTag) (xs ys : List Text)
    → tag_options ft xs ≡ good gt
    → tag_options ft (xs ++ ys) ≡ tag_options gt ys
unfolding tag_options
tag_options-append ft gt [] ys h = ground arith
tag_options-append ft gt (x ∷ xs) ys h =
    let (t, first, rest) = and_then-good (tag_option ft x) _ gt h in
    rw first (tag_options-append t gt xs ys rest)

write_deprecated :
    (ft : FieldTag) (b : Bool)
    → ft.deprecated ≡ false
    → tag_options ft (flag b (codes "deprecated")) ≡ good (record ft { deprecated = b })
unfolding tag_options tag_option deprecated_option
write_deprecated ft true h = rw h
write_deprecated ft false h = ground arith

write_compat_write :
    (ft : FieldTag) (b : Bool)
    → ft.compat_write ≡ false
    → tag_options ft (flag b (codes "compat_write")) ≡ good (record ft { compat_write = b })
unfolding tag_options tag_option compat_write_option
write_compat_write ft true h = rw h
write_compat_write ft false h = ground arith

write_id_ref :
    (ft : FieldTag) (b : Bool)
    → ft.cycle_break_via_id ≡ false
    → tag_options ft (flag b (codes "id_ref")) ≡ good (record ft { cycle_break_via_id = b })
unfolding tag_options tag_option id_ref_option
write_id_ref ft true h = rw h
write_id_ref ft false h = ground arith

write_custom :
    (ft : FieldTag) (name : Text)
    → ft.custom ≡ []
    → tag_options ft (valued (codes "custom=") name) ≡ good (record ft { custom = name })
unfolding tag_options tag_option custom_option has_prefix
write_custom ft [] h = ground arith
write_custom ft (c ∷ s) h = rw h

write_type :
    (ft : FieldTag) (width : Text)
    → ft.wire_override ≡ []
    → (is_empty width || among width widths) ≡ true
    → tag_options ft (valued (codes "type=") width) ≡ good (record ft { wire_override = width })
unfolding tag_options tag_option type_option has_prefix
write_type ft [] h k = ground arith
write_type ft (c ∷ s) h k = rw (h, k)

-- The options of a tag whose number is `n`, read from a tag that has only its number.
read_options :
    (ft : FieldTag)
    → (is_empty ft.wire_override || among ft.wire_override widths) ≡ true
    → tag_options (record no_tag { set = true; tag = ft.tag }) (option_texts ft)
      ≡ good (record ft { set = true; skip = false })
unfolding option_texts
read_options ft h =
    tag_options-append t0 t1 _ _ (write_deprecated t0 ft.deprecated refl)
    ∙ (tag_options-append t1 t2 _ _ (write_compat_write t1 ft.compat_write refl)
        ∙ (tag_options-append t2 t3 _ _ (write_id_ref t2 ft.cycle_break_via_id refl)
            ∙ (tag_options-append t3 t4 _ _ (write_custom t3 ft.custom refl)
                ∙ write_type t4 ft.wire_override refl h)))
  where
    t0 : FieldTag
    t0 = record no_tag { set = true; tag = ft.tag }

    t1 : FieldTag
    t1 = record t0 { deprecated = ft.deprecated }

    t2 : FieldTag
    t2 = record t1 { compat_write = ft.compat_write }

    t3 : FieldTag
    t3 = record t2 { cycle_break_via_id = ft.cycle_break_via_id }

    t4 : FieldTag
    t4 = record t3 { custom = ft.custom }

no_conflicts : (ft : FieldTag) → IsLegal ft → tag_conflicts ft ≡ good ft
unfolding tag_conflicts
no_conflicts ft h = ground (arith, h.window, h.one_codec, h.one_width)

among-Lacks : (b : ℕ) (s : Text) (ts : List Text) → AllLack b ts → among s ts ≡ true → Lacks b s
unfolding among
among-Lacks b s [] h e = cc
among-Lacks b s (t ∷ ts) h e = elim (Bool-cases (same_bytes s t)) [
  | inl here ↦ subst (Lacks b) (sym (same_bytes_lem s t here)) h.0
  | inr later ↦ among-Lacks b s ts h.1 (rw later at e)
]

width-Lacks : (w : Text) → (is_empty w || among w widths) ≡ true → Lacks b',' w
unfolding all_lack
width-Lacks [] h = tt
width-Lacks (c ∷ s) h = among-Lacks b',' (c ∷ s) widths (all_lack-AllLack b',' widths refl) h

flag-AllLack : (sep : ℕ) (b : Bool) (t : Text) → Lacks sep t → AllLack sep (flag b t)
flag-AllLack sep true t h = (h, tt)
flag-AllLack sep false t h = tt

valued-AllLack : (sep : ℕ) (key s : Text) → Lacks sep key → Lacks sep s → AllLack sep (valued key s)
valued-AllLack sep key [] h k = tt
valued-AllLack sep key (c ∷ s) h k = (Lacks-append sep key (c ∷ s) h k, tt)

AllLack-append :
    (sep : ℕ) (xs ys : List Text) → AllLack sep xs → AllLack sep ys → AllLack sep (xs ++ ys)
AllLack-append sep [] ys h k = k
AllLack-append sep (x ∷ xs) ys h k = (h.0, AllLack-append sep xs ys h.1 k)

option_texts-AllLack :
    (ft : FieldTag)
    → (is_empty ft.wire_override || among ft.wire_override widths) ≡ true
    → Lacks b',' ft.custom
    → AllLack b',' (option_texts ft)
unfolding option_texts lacks
option_texts-AllLack ft w h =
    AllLack-append b',' (flag ft.deprecated _) _
      (flag-AllLack b',' ft.deprecated _ (lacks-Lacks b',' (codes "deprecated") refl))
      (AllLack-append b',' (flag ft.compat_write _) _
        (flag-AllLack b',' ft.compat_write _ (lacks-Lacks b',' (codes "compat_write") refl))
        (AllLack-append b',' (flag ft.cycle_break_via_id _) _
          (flag-AllLack b',' ft.cycle_break_via_id _ (lacks-Lacks b',' (codes "id_ref") refl))
          (AllLack-append b',' (valued (codes "custom=") ft.custom) _
            (valued-AllLack b',' (codes "custom=") ft.custom
              (lacks-Lacks b',' (codes "custom=") refl) h)
            (valued-AllLack b',' (codes "type=") ft.wire_override
              (lacks-Lacks b',' (codes "type=") refl) (width-Lacks ft.wire_override w)))))

not_a_dash : (b : ℕ) (s t : Text) → s ≢ [] → Lacks b s → same_bytes (s ++ t) (b ∷ []) ≡ false
not_a_dash b [] t h k = absurd (h refl)
not_a_dash b (c ∷ s) t h k = rw k.0

join_text-head : (sep p : Text) (ps : List Text) → (t : Text) × (join_text sep (p ∷ ps) ≡ p ++ t)
unfolding join_text
join_text-head sep p [] = ([], sym (append-nil p))
join_text-head sep p (q ∷ ps) = (sep ++ join_text sep (q ∷ ps), refl)

not_empty : (s : Text) → s ≢ [] → is_empty s ≡ false
not_empty [] h = absurd (h refl)
not_empty (c ∷ s) h = refl

read_number :
    (ft : FieldTag)
    → IsLegal ft
    → ft.set ≡ true
    → ft.skip ≡ false
    → numbered_tag (some ft.tag) (option_texts ft) ≡ good ft
unfolding numbered_tag
read_number ft h set taken =
    ground (arith, h.low, h.high, read_options ft h.width, no_conflicts ft h)

-- Every legal field tag can be written: its number, then its options, joined by commas, parse back to
-- it. Only a codec's name must hold no comma.
pub parse_field_tag-print_tag :
    (ft : FieldTag)
    → IsLegal ft
    → ft.set ≡ true
    → ft.skip ≡ false
    → Lacks b',' ft.custom
    → parse_field_tag (some (print_tag ft)) ≡ good ft
unfolding parse_field_tag print_tag tag_parts
parse_field_tag-print_tag ft h set taken c =
    let (rest, head) = join_text-head (b',' ∷ []) (decimal ft.tag) (option_texts ft) in
    let parts =
      split-join_text b',' (decimal ft.tag) (option_texts ft)
        (decimal-Lacks b',' ft.tag (omega arith), option_texts-AllLack ft h.width c) in
    let no_dash : same_bytes (join_text (b',' ∷ []) (decimal ft.tag ∷ option_texts ft)) (codes "-")
        ≡ false =
      rw head (
        not_a_dash b'-' (decimal ft.tag) rest (decimal-ne-nil ft.tag)
          (decimal-Lacks b'-' ft.tag (omega arith))) in
    rw
      (
        no_dash,
        parts,
        not_empty (decimal ft.tag) (decimal-ne-nil ft.tag),
        parse_uint32-decimal ft.tag (number h.high),
      )
      (read_number ft h set taken)
  where
    number : ft.tag ≤ max_field_tag → ft.tag < 2 ^ 32
    number k = omega arith
