-- ===== src/Schema/Build/Embed.antt =====
-- tools/gsbmschema/discover.go: collectStructFields and flattenAnonymous. The structs that can be embedded
-- are given by their keys, each with its fields and its comment.
pub mod Ends
use gsbm.Common.{
  ℕ, zero, suc, ◌+◌, Bool, true, false, not, ◌&&◌, ◌||◌, Option, none, some, List, [], ◌∷◌, ◌++◌,
  map, length,
}
use gsbm.Common.{if◌then◌else◌, codes, join_text}
use gsbm.Reader.Header.{same_bytes}
use gsbm.Schema.{Text, is_empty, differs, FieldDecl}
use gsbm.Schema.Tag.{among}
use gsbm.Schema.Tag.Markers.{Markers, Walk, parse_markers}
use gsbm.Schema.Classifier.{find}
use gsbm.Schema.GoTypes.{
  GoType, GoTypes, no_types, types, basic, named, struct_body, slice, array, map_type, pointer,
  interface_type, channel, signature, other_type, is_struct, key_of,
}
use gsbm.Schema.GoTypes.Supported.{has_args}
use gsbm.Schema.Build.{
  Var, BuildIssue, track_presence_misplaced, borrow_strings_misplaced, anonymous_non_struct,
  anonymous_generic, embed_cycle, anonymous_opaque, anonymous_unexported_type,
  anonymous_unexported_field, Built, marker_issues, build_field_decl,
}

-- What the package set holds of a struct
pub record Body : Type 0 where
  pub fields : List Var
  pub doc : Option (List Text)

-- The issues, the flattened fields and the reserved tags that a struct's fields add.
pub record Collected : Type 0 where
  pub issues : List BuildIssue
  pub fields : List FieldDecl
  pub reserved : List ℕ

abbrev pub nothing_collected : Collected
nothing_collected = record { issues = []; fields = []; reserved = [] }

abbrev pub only_issues : List BuildIssue → Collected
only_issues is = record { issues = is; fields = []; reserved = [] }

abbrev pub both : Collected → Collected → Collected
both a b = record {
  issues = a.issues ++ b.issues;
  fields = a.fields ++ b.fields;
  reserved = a.reserved ++ b.reserved;
}

-- A walk of collectForeignUnexportedNamed: the named types visited, and those found.
pub record Foreign : Type 0 where
  pub visited : List Text
  pub out : List GoType

abbrev pub is_unwrapped : GoType → Bool
is_unwrapped (slice e) = true
is_unwrapped (array n e) = true
is_unwrapped (map_type k v) = true
is_unwrapped (channel e s) = true
is_unwrapped (pointer e) = true
is_unwrapped _ = false

abbrev pub issue_for : GoType → BuildIssue
issue_for t = anonymous_unexported_type

abbrev pub fields_in : Option Body → List Var
fields_in none = []
fields_in (some b) = b.fields

abbrev pub doc_in : Option Body → Option (List Text)
doc_in none = none
doc_in (some b) = b.doc

abbrev pub Inner : Type 0
Inner = List Text → Bool → List Text → List Var → Option Collected

abbrev pub with_own : List BuildIssue → List ℕ → Option Collected → Option Collected
with_own is rs none = none
with_own is rs (some c) = some (both (record { issues = is; fields = []; reserved = rs }) c)

abbrev pub misplaced : Markers → Option BuildIssue
misplaced m =
    if m.track_presence
    then some track_presence_misplaced
    else if m.borrow_strings
    then some borrow_strings_misplaced
    else none

abbrev pub embed_or : List BuildIssue → Option BuildIssue → Option Collected → Option Collected
embed_or is (some i) o = some (only_issues (is ++ i ∷ []))
embed_or is none o = with_own is [] o

abbrev pub both_of : Option Collected → Option Collected → Option Collected
both_of none o = none
both_of (some a) none = none
both_of (some a) (some b) = some (both a b)

module _ (type_string : GoType → Text) (owner_pkg : Text) where
  abbrev pub is_foreign : Text → Bool → Bool
  is_foreign pkg exported = not (is_empty pkg) && (differs pkg owner_pkg && not exported)

  unfoldable mutual
    -- collectForeignUnexportedNamed
    pub foreign : GoType → Foreign → Foreign
    foreign (named pkg name exported args u) s =
        let key = key_of type_string (named pkg name exported args u) in
        let entered : Foreign = record {
          visited = key ∷ s.visited;
          out =
              if is_foreign pkg exported
              then s.out ++ named pkg name exported args u ∷ []
              else s.out;
        } in
        let walked = foreign_all args entered in
        let below = foreign u walked in
        if among key s.visited then s else if is_unwrapped u then below else walked
    foreign (pointer e) s = foreign e s
    foreign (slice e) s = foreign e s
    foreign (array n e) s = foreign e s
    foreign (map_type k v) s = foreign v (foreign k s)
    foreign (channel e t) s = foreign e s
    foreign t s = s

    pub foreign_all : GoTypes → Foreign → Foreign
    foreign_all no_types s = s
    foreign_all (types t ts) s = foreign_all ts (foreign t s)

  -- checkFlattenedFieldAccessible
  unfoldable pub accessible_issues : Var → List BuildIssue
  accessible_issues v =
      (if is_foreign v.pkg v.exported then anonymous_unexported_field ∷ [] else [])
      ++ map issue_for (foreign v.type (record { visited = []; out = [] })).out

  -- checkIntermediateEmbedAccessible
  abbrev pub segment_issues : Text → Bool → List BuildIssue
  segment_issues pkg exported =
      if is_foreign pkg exported then anonymous_unexported_type ∷ [] else []

  abbrev pub promoted : List Text → Bool → FieldDecl → FieldDecl
  promoted chain pointer_embed fd = record fd {
    flattened_from = join_text (codes ".") chain;
    flattened_from_pointer = pointer_embed;
  }

  abbrev pub placed : List Text → Bool → Var → Built → Option FieldDecl → Collected
  placed chain pointer_embed v b none = only_issues b.issues
  placed [] pointer_embed v b (some fd) = record {
    issues = b.issues;
    fields = fd ∷ [];
    reserved = [];
  }
  placed (c ∷ chain) pointer_embed v b (some fd) = record {
    issues = b.issues ++ accessible_issues v;
    fields = promoted (c ∷ chain) pointer_embed fd ∷ [];
    reserved = [];
  }

  module _ (bodies : List (Text × Body)) where
    abbrev pub body_of : GoType → Option Body
    body_of t = find same_bytes bodies (key_of type_string t)

    -- A field with a name
    unfoldable pub direct_field : List Text → Bool → Var → Collected
    direct_field chain pointer_embed v =
        let b = build_field_decl type_string (λ t. fields_in (body_of t)) owner_pkg v in
        placed chain pointer_embed v b b.decl

    -- The embedded struct, once it is known to be one that flattens
    abbrev pub enter_embed :
        Inner → List Text → Bool → List Text → GoType → Text → Text → Bool → Walk → Option Collected
    enter_embed go chain pointer_embed visited t pkg name exported w =
        let inside =
          go (chain ++ name ∷ []) pointer_embed (key_of type_string t ∷ visited)
            (fields_in (body_of t)) in
        if w.so_far.opaque
        then some (only_issues (marker_issues w.error ++ anonymous_opaque ∷ []))
        else with_own (marker_issues w.error ++ segment_issues pkg exported) w.so_far.reserved
            inside

    -- flattenAnonymous, its pointer unwrapped
    unfoldable pub flatten_named : Inner → List Text → Bool → List Text → GoType → Option Collected
    flatten_named go chain pointer_embed visited (named pkg name exported args u) =
        let t = named pkg name exported args u in
        if not (is_struct u)
        then some (only_issues (anonymous_non_struct ∷ []))
        else if has_args args
        then some (only_issues (anonymous_generic ∷ []))
        else if among (key_of type_string t) visited
        then some (only_issues (embed_cycle ∷ []))
        else enter_embed go chain pointer_embed visited t pkg name exported
            (parse_markers (doc_in (body_of t)))
    flatten_named go chain pointer_embed visited t = some (only_issues (anonymous_non_struct ∷ []))

    -- flattenAnonymous
    unfoldable pub flatten_anonymous :
        Inner → List Text → Bool → List Text → GoType → Option Collected
    flatten_anonymous go chain pointer_embed visited (pointer e) =
        flatten_named go chain true visited e
    flatten_anonymous go chain pointer_embed visited t =
        flatten_named go chain pointer_embed visited t

    -- One round of the loop over the fields
    unfoldable pub collect_field : Inner → List Text → Bool → List Text → Var → Option Collected
    collect_field go chain pointer_embed visited v =
        let w = parse_markers v.doc in
        if v.anonymous
        then embed_or (marker_issues w.error) (misplaced w.so_far)
            (flatten_anonymous go chain pointer_embed visited v.type)
        else some (direct_field chain pointer_embed v)

    unfoldable pub collect_fields :
        Inner → List Text → Bool → List Text → List Var → Option Collected
    collect_fields go chain pointer_embed visited [] = some nothing_collected
    collect_fields go chain pointer_embed visited (v ∷ vs) =
        both_of (collect_field go chain pointer_embed visited v)
          (collect_fields go chain pointer_embed visited vs)

    -- collectStructFields: an embed enters a struct that is not on the chain, so the number of structs is
    -- fuel enough.
    unfoldable pub collect_struct_fields : ℕ → Inner
    collect_struct_fields zero chain pointer_embed visited vs = none
    collect_struct_fields (suc fuel) chain pointer_embed visited vs =
        collect_fields (collect_struct_fields fuel) chain pointer_embed visited vs

    -- The call of collectStructFields in flatten, for a struct of the schema.
    unfoldable pub collect : List Var → Option Collected
    collect vs = collect_struct_fields (length bodies + 2) [] false [] vs
