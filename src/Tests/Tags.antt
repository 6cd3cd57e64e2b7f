-- ===== src/Tests/Tags.antt =====
-- Field tags and comments, as a schema author writes them.
use gsbm.Common.{◌++◌, ◌≡◌, refl, true, some, List, [], ◌∷◌}
use gsbm.Common.{codes, has_prefix, split, parse_uint32, trim_space}
use gsbm.Common.Text.Split.{lacks, lacks-Lacks}
use gsbm.Schema.{Text}
use gsbm.Schema.Tag.{
  FieldTag, good, no_tag, among, tag_option, tag_options, tag_conflicts, numbered_tag, tag_parts,
  parse_field_tag, deprecated_option, compat_write_option, type_option,
}
use gsbm.Schema.Tag.Legal.{IsLegal, parse_field_tag-IsLegal}
use gsbm.Schema.Tag.Print.{print_tag, parse_field_tag-print_tag}
use gsbm.Schema.Tag.Markers.{parse_markers}
use gsbm.Schema.Tag.Markers.Reserved.{AllTags, parse_markers-AllTags}

-- 5,deprecated,compat_write,type=int32
abbrev retiring : FieldTag
retiring = record no_tag {
  set = true;
  tag = 5;
  deprecated = true;
  compat_write = true;
  wire_override = codes "int32";
}

retiring_parses :
    parse_field_tag (some (codes "5,deprecated,compat_write,type=int32")) ≡ good retiring
unfolding parse_field_tag tag_parts numbered_tag tag_options tag_option tag_conflicts
    deprecated_option compat_write_option type_option among split parse_uint32 has_prefix
retiring_parses = refl

retiring-IsLegal : IsLegal retiring
retiring-IsLegal =
    parse_field_tag-IsLegal (some (codes "5,deprecated,compat_write,type=int32")) retiring
      retiring_parses refl refl

parse_field_tag-IsLegal_example : IsLegal retiring
parse_field_tag-IsLegal_example =
    parse_field_tag-IsLegal (some (codes "5,deprecated,compat_write,type=int32")) retiring
      retiring_parses refl refl

parse_field_tag-print_tag_example : parse_field_tag (some (print_tag retiring)) ≡ good retiring
unfolding lacks
parse_field_tag-print_tag_example =
    parse_field_tag-print_tag retiring retiring-IsLegal refl refl (lacks-Lacks b',' [] refl)

-- A comment with a reserved list
abbrev reserving : List Text
reserving = codes "// An order." ∷ codes "//gsbm:reserved 3, 7" ∷ []

parse_markers-AllTags_example : AllTags (parse_markers (some reserving)).so_far.reserved
parse_markers-AllTags_example = parse_markers-AllTags (some reserving)

-- A no-break space in front, an ideographic one behind
space_is_cut : trim_space (194 ∷ 160 ∷ codes "7 " ++ 227 ∷ 128 ∷ 128 ∷ []) ≡ codes "7"
unfolding trim_space
space_is_cut = refl
