-- ===== src/Schema/Tag/Markers/Reserved.antt =====
-- What the directives of a comment group may reserve.
use gsbm.Common.{
  ℕ, ◌≤◌, Bool, Bool-cases, Option-cases, true, false, not, ◌||◌, inl, inr, Option, none, some,
  List, [], ◌∷◌, ◌++◌, arith,
}
use gsbm.Common.{◌==◌, ltb, if◌then◌else◌, codes, has_prefix, trim_space, split, parse_uint32}
use gsbm.Reader.Header.{same_bytes}
use gsbm.Schema.{Text, is_empty}
use gsbm.Schema.Tag.{max_field_tag}
use gsbm.Schema.Tag.Markers.{
  Markers, no_markers, reserved_tag, number_or_zero, ReservedList, tags, refused, next_tag,
  reserved_tags, parse_reserved_list, Walk, reserve, justify, directive, comment_line, marker_line,
  walk_on, marker_lines, parse_markers,
}

-- Every reserved tag is one that a field could carry.
abbrev pub AllTags : List ℕ → Type 0
AllTags [] = Unit
AllTags (t ∷ ts) = (1 ≤ t) × (t ≤ max_field_tag) × AllTags ts

AllTags-append : (xs ys : List ℕ) → AllTags xs → AllTags ys → AllTags (xs ++ ys)
AllTags-append [] ys h k = k
AllTags-append (x ∷ xs) ys (low, high, h) k = (low, high, AllTags-append xs ys h k)

abbrev ListOk : ReservedList → Type 0
ListOk (tags ts) = AllTags ts
ListOk (refused e) = Unit

next_tag-ListOk :
    (o : Option ℕ) (r : ReservedList)
    → ListOk r
    → ListOk (next_tag (reserved_tag o) (number_or_zero o) r)
unfolding reserved_tag
next_tag-ListOk none r h = tt
next_tag-ListOk (some n) (tags ts) h = elim (Bool-cases (n == 0 || ltb max_field_tag n)) [
  | inl out ↦ rw out tt
  | inr within ↦ rw within (ground arith, ground arith, h)
]
next_tag-ListOk (some n) (refused e) h = elim (Bool-cases (n == 0 || ltb max_field_tag n)) [
  | inl out ↦ rw out tt
  | inr within ↦ rw within tt
]

reserved_tags-ListOk : (ps : List Text) → ListOk (reserved_tags ps)
unfolding reserved_tags
reserved_tags-ListOk [] = tt
reserved_tags-ListOk (p ∷ ps) =
    next_tag-ListOk (parse_uint32 (trim_space p)) (reserved_tags ps) (reserved_tags-ListOk ps)

parse_reserved_list-ListOk : (arg : Text) → ListOk (parse_reserved_list arg)
unfolding parse_reserved_list
parse_reserved_list-ListOk arg = elim (Bool-cases (is_empty arg)) [
  | inl e ↦ rw e tt
  | inr e ↦ rw e (reserved_tags-ListOk (split b',' arg))
]

reserve-AllTags :
    (m : Markers) (r : ReservedList)
    → AllTags m.reserved
    → ListOk r
    → AllTags (reserve m r).so_far.reserved
unfolding reserve
reserve-AllTags m (tags ts) h k = AllTags-append m.reserved ts h k
reserve-AllTags m (refused e) h k = h

if-AllTags :
    (b : Bool) (x y : Walk)
    → AllTags x.so_far.reserved
    → AllTags y.so_far.reserved
    → AllTags (if b then x else y).so_far.reserved
if-AllTags true x y h k = h
if-AllTags false x y h k = k

directive-AllTags :
    (m : Markers) (name arg : Text)
    → AllTags m.reserved
    → AllTags (directive m name arg).so_far.reserved
unfolding directive justify
directive-AllTags m name arg h = if-AllTags (same_bytes name (codes "root")) _ _ h (
    if-AllTags (same_bytes name (codes "opaque")) _ _ h (
      if-AllTags (same_bytes name (codes "cycle_break_via_id")) _ _ h (
        if-AllTags (same_bytes name (codes "reserved")) _ _
          (reserve-AllTags m (parse_reserved_list arg) h (parse_reserved_list-ListOk arg))
          (if-AllTags (same_bytes name (codes "allow-breaking")) _ _
            (if-AllTags (is_empty arg) _ _ h h)
            (if-AllTags (same_bytes name (codes "presence")) _ _ h (
              if-AllTags (same_bytes name (codes "track-presence")) _ _ h
                (if-AllTags (same_bytes name (codes "borrow-strings")) _ _ h h)))))))

marker_line-AllTags :
    (m : Markers) (line : Text) → AllTags m.reserved → AllTags (marker_line m line).so_far.reserved
unfolding marker_line
marker_line-AllTags m line h =
    if-AllTags (not (has_prefix line (codes "gsbm:"))) _ _ h (directive-AllTags m _ _ h)

walk_on-AllTags :
    (w : Walk) (next : Markers → Walk)
    → AllTags w.so_far.reserved
    → ((m : Markers) → AllTags m.reserved → AllTags (next m).so_far.reserved)
    → AllTags (walk_on w next).so_far.reserved
walk_on-AllTags w next h k = elim (Option-cases w.error) [
  | inl none_left ↦ rw none_left (k w.so_far h)
  | inr (e, left) ↦ rw left h
]

marker_lines-AllTags :
    (cs : List Text) (m : Markers)
    → AllTags m.reserved
    → AllTags (marker_lines m cs).so_far.reserved
unfolding marker_lines
marker_lines-AllTags [] m h = h
marker_lines-AllTags (c ∷ cs) m h =
    walk_on-AllTags (marker_line m (comment_line c)) (λ n. marker_lines n cs)
      (marker_line-AllTags m (comment_line c) h) (λ n k. marker_lines-AllTags cs n k)

-- Whatever the comments say, and also when a directive is refused, every tag that they reserve is one
-- that a field could carry: from 1 to 2^29-1.
pub parse_markers-AllTags : (doc : Option (List Text)) → AllTags (parse_markers doc).so_far.reserved
unfolding parse_markers
parse_markers-AllTags none = tt
parse_markers-AllTags (some cs) = marker_lines-AllTags cs no_markers tt
