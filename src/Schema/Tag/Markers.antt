-- ===== src/Schema/Tag/Markers.antt =====
-- tools/gsbmschema/parse.go: the //gsbm: directives of a comment group, given as its comments' texts, or
-- none for a missing group.
pub mod Reserved
use gsbm.Common.{
  ℕ, ◌≤◌, ◌≡◌, refl, Bool, Bool-cases, Option-cases, true, false, not, ◌&&◌, ◌||◌, inl, inr, Option,
  none, some, List, [], ◌∷◌, ◌++◌, arith,
}
use gsbm.Common.{
  ◌==◌, ltb, if◌then◌else◌, codes, has_prefix, trim_prefix, trim_suffix, trim_space, split, cut,
  parse_uint32,
}
use gsbm.Reader.Header.{same_bytes}
use gsbm.Schema.{Text, is_empty}
use gsbm.Schema.Tag.{max_field_tag}

-- markers
pub record Markers : Type 0 where
  pub root : Bool
  pub opaque : Bool
  pub cycle_break_via_id : Bool
  pub track_presence : Bool
  pub borrow_strings : Bool
  pub reserved : List ℕ
  pub allow_breaking : Text

abbrev pub no_markers : Markers
no_markers = record {
  root = false;
  opaque = false;
  cycle_break_via_id = false;
  track_presence = false;
  borrow_strings = false;
  reserved = [];
  allow_breaking = [];
}

pub data MarkerError : Type 0 where
  reserved_empty reserved_bad_number reserved_out_of_range : MarkerError
  no_justification unknown_directive : MarkerError

-- One round of parseReservedList
unfoldable pub reserved_tag : Option ℕ → Option MarkerError
reserved_tag none = some reserved_bad_number
reserved_tag (some n) = if n == 0 || ltb max_field_tag n then some reserved_out_of_range else none

abbrev pub number_or_zero : Option ℕ → ℕ
number_or_zero none = 0
number_or_zero (some n) = n

pub data ReservedList : Type 0 where
  tags : List ℕ → ReservedList
  refused : MarkerError → ReservedList

abbrev pub add_tag : ℕ → ReservedList → ReservedList
add_tag n (tags ts) = tags (n ∷ ts)
add_tag n (refused e) = refused e

abbrev pub next_tag : Option MarkerError → ℕ → ReservedList → ReservedList
next_tag none n rest = add_tag n rest
next_tag (some e) n rest = refused e

unfoldable pub reserved_tags : List Text → ReservedList
reserved_tags [] = tags []
reserved_tags (p ∷ ps) =
    let o = parse_uint32 (trim_space p) in
    next_tag (reserved_tag o) (number_or_zero o) (reserved_tags ps)

-- parseReservedList
unfoldable pub parse_reserved_list : Text → ReservedList
parse_reserved_list arg =
    if is_empty arg then refused reserved_empty else reserved_tags (split b',' arg)

-- The markers so far, and the error that ended the walk, if any.
pub record Walk : Type 0 where
  pub so_far : Markers
  pub error : Option MarkerError

abbrev pub went : Markers → Walk
went m = record { so_far = m; error = none }

abbrev pub stopped : Markers → MarkerError → Walk
stopped m e = record { so_far = m; error = some e }

unfoldable pub reserve : Markers → ReservedList → Walk
reserve m (tags ts) = went (record m { reserved = m.reserved ++ ts })
reserve m (refused e) = stopped m e

unfoldable pub justify : Markers → Text → Walk
justify m arg =
    if is_empty arg then stopped m no_justification else went (record m { allow_breaking = arg })

-- The switch on a directive's name
unfoldable pub directive : Markers → Text → Text → Walk
directive m name arg =
    if same_bytes name (codes "root")
    then went (record m { root = true })
    else if same_bytes name (codes "opaque")
    then went (record m { opaque = true })
    else if same_bytes name (codes "cycle_break_via_id")
    then went (record m { cycle_break_via_id = true })
    else if same_bytes name (codes "reserved")
    then reserve m (parse_reserved_list arg)
    else if same_bytes name (codes "allow-breaking")
    then justify m arg
    else if same_bytes name (codes "presence")
    then went m
    else if same_bytes name (codes "track-presence")
    then went (record m { track_presence = true })
    else if same_bytes name (codes "borrow-strings")
    then went (record m { borrow_strings = true })
    else stopped m unknown_directive

-- A comment without its delimiters and outer white space
unfoldable pub comment_line : Text → Text
comment_line text = trim_space (
    trim_suffix (trim_space (trim_prefix (trim_prefix text (codes "//")) (codes "/*")))
      (codes "*/"))

abbrev pub tail_text : Option Text → Text
tail_text none = []
tail_text (some s) = s

-- One round of the loop over the comments
unfoldable pub marker_line : Markers → Text → Walk
marker_line m line =
    if not (has_prefix line (codes "gsbm:"))
    then went m
    else let parts = cut 32 (trim_prefix line (codes "gsbm:")) in
      directive m (trim_space parts.0) (trim_space (tail_text parts.1))

abbrev pub walk_on : Walk → (Markers → Walk) → Walk
walk_on w next = elim w.error [ none ↦ next w.so_far | some e ↦ w ]

unfoldable pub marker_lines : Markers → List Text → Walk
marker_lines m [] = went m
marker_lines m (c ∷ cs) = walk_on (marker_line m (comment_line c)) (λ n. marker_lines n cs)

-- parseMarkers; on an error the markers so far are returned with it.
unfoldable pub parse_markers : Option (List Text) → Walk
parse_markers none = went no_markers
parse_markers (some cs) = marker_lines no_markers cs
