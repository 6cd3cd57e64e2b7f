-- ===== src/Schema/Build/Embed/Ends.antt =====
-- Flattening structs that embed each other through pointers, and its fuel.
use gsbm.Common.{
  ℕ, zero, suc, ◌+◌, ◌≤◌, ◌<◌, ◌≡◌, ◌≢◌, refl, sym, Bool, Bool-cases, true, false, not, inl, inr,
  Option, none, some, List, [], ◌∷◌, ◌++◌, length, arith,
}
use gsbm.Common.{if◌then◌else◌}
use mathlib.Core.Path.{subst}
use gsbm.Reader.Header.{same_bytes}
use gsbm.Intern.Retained.{same_bytes_lem}
use gsbm.Schema.{Text}
use gsbm.Schema.Tag.{among}
use gsbm.Schema.Tag.Markers.{parse_markers}
use gsbm.Schema.Classifier.{find}
use gsbm.Schema.GoTypes.{GoType, named, pointer, is_struct, key_of}
use gsbm.Schema.GoTypes.Supported.{has_args}
use gsbm.Schema.Build.{Var, BuildIssue}
use gsbm.Schema.Build.Embed.{
  Body, Collected, fields_in, doc_in, body_of, Inner, with_own, flatten_named, flatten_anonymous,
  embed_or, collect_field, both_of, collect_fields, collect_struct_fields, collect,
}

-- The structs that are not on the chain
rest : List (Text × Body) → List Text → ℕ
rest [] visited = 0
rest ((k, b) ∷ bodies) visited =
    let others = rest bodies visited in if among k visited then others else suc others

rest-le :
    (bodies : List (Text × Body)) (key : Text) (visited : List Text)
    → rest bodies (key ∷ visited) ≤ rest bodies visited
unfolding rest among
rest-le [] key visited = omega arith
rest-le ((k, b) ∷ bodies) key visited = ground (arith, rest-le bodies key visited)

rest-lt :
    (bodies : List (Text × Body)) (key : Text) (visited : List Text) (b : Body)
    → find same_bytes bodies key ≡ some b
    → among key visited ≡ false
    → rest bodies (key ∷ visited) < rest bodies visited
unfolding rest find
rest-lt [] key visited b e h = cc
rest-lt ((k, c) ∷ bodies) key visited b e h = elim (Bool-cases (same_bytes k key)) [
  | inl here ↦
      let absent : among k visited ≡ false =
        subst (λ x. among x visited ≡ false) (sym (same_bytes_lem k key here)) h in
      let entered : among k (key ∷ visited) ≡ true = unfold among in rw here in
      rw (absent, entered) (omega (arith, rest-le bodies key visited))
  | inr there ↦
      let less = rest-lt bodies key visited b (rw there at e) h in
      let same : among k (key ∷ visited) ≡ among k visited = unfold among in rw there in
      rw same (step (among k visited) less)
]
  where
    step :
        (m : Bool)
        → rest bodies (key ∷ visited) < rest bodies visited
        → (if m then rest bodies (key ∷ visited) else suc (rest bodies (key ∷ visited)))
          < (if m then rest bodies visited else suc (rest bodies visited))
    step true less = less
    step false less = omega arith

rest-le-length :
    (bodies : List (Text × Body)) (visited : List Text) → rest bodies visited ≤ length bodies
unfolding rest
rest-le-length [] visited = omega arith
rest-le-length ((k, b) ∷ bodies) visited = ground (arith, rest-le-length bodies visited)

if-ends :
    (b : Bool) (x y : Option Collected)
    → x ≢ none
    → (b ≡ false → y ≢ none)
    → (if b then x else y) ≢ none
if-ends true x y h k = h
if-ends false x y h k = k refl

ends : (c : Collected) → some c ≢ none
ends c e = cc

with_own-ends :
    (is : List BuildIssue) (rs : List ℕ) (o : Option Collected) → o ≢ none → with_own is rs o ≢ none
with_own-ends is rs none h = absurd (h refl)
with_own-ends is rs (some c) h = ends _

embed_or-ends :
    (is : List BuildIssue) (i : Option BuildIssue) (o : Option Collected)
    → o ≢ none
    → embed_or is i o ≢ none
embed_or-ends is (some i) o h = ends _
embed_or-ends is none o h = with_own-ends is [] o h

both_of-ends : (a b : Option Collected) → a ≢ none → b ≢ none → both_of a b ≢ none
both_of-ends none b h k = absurd (h refl)
both_of-ends (some a) none h k = absurd (k refl)
both_of-ends (some a) (some b) h k = ends _

module _ (type_string : GoType → Text) (owner_pkg : Text) (bodies : List (Text × Body)) where
  -- The recursive call ends for every struct that is not on the chain.
  abbrev GoEnds : Inner → List Text → Type 0
  GoEnds go visited =
      (chain : List Text) (pe : Bool) (t : GoType)
      → among (key_of type_string t) visited ≡ false
      → go chain pe (key_of type_string t ∷ visited)
          (fields_in (body_of type_string owner_pkg bodies t))
        ≢ none

  flatten_named-ends :
      (go : Inner) (chain : List Text) (pe : Bool) (visited : List Text) (t : GoType)
      → GoEnds go visited
      → flatten_named type_string owner_pkg bodies go chain pe visited t ≢ none
  unfolding flatten_named
  flatten_named-ends go chain pe visited (named pkg name x args u) h =
      if-ends (not (is_struct u)) _ _ (ends _) (λ _. if-ends (has_args args) _ _ (ends _) (λ _.
        if-ends (among (key_of type_string (named pkg name x args u)) visited) _ _ (ends _)
          (λ fresh.
            if-ends
              (parse_markers (
                doc_in
                  (body_of type_string owner_pkg bodies (named pkg name x args u)))).so_far.opaque
              _ _ (ends _)
              (λ _.
                with_own-ends _ _ _ (h (chain ++ name ∷ []) pe (named pkg name x args u) fresh)))))
  flatten_named-ends go chain pe visited t h = ends _

  flatten_anonymous-ends :
      (go : Inner) (chain : List Text) (pe : Bool) (visited : List Text) (t : GoType)
      → GoEnds go visited
      → flatten_anonymous type_string owner_pkg bodies go chain pe visited t ≢ none
  unfolding flatten_anonymous
  flatten_anonymous-ends go chain pe visited (pointer e) h =
      flatten_named-ends go chain true visited e h
  flatten_anonymous-ends go chain pe visited t h = flatten_named-ends go chain pe visited t h

  collect_fields-ends :
      (go : Inner) (chain : List Text) (pe : Bool) (visited : List Text) (vs : List Var)
      → GoEnds go visited
      → collect_fields type_string owner_pkg bodies go chain pe visited vs ≢ none
  unfolding collect_fields collect_field
  collect_fields-ends go chain pe visited [] h = ends _
  collect_fields-ends go chain pe visited (v ∷ vs) h =
      both_of-ends _ _
        (if-ends v.anonymous _ _
          (embed_or-ends _ _ _ (flatten_anonymous-ends go chain pe visited v.type h)) (λ _. ends _))
        (collect_fields-ends go chain pe visited vs h)

  collect_struct_fields-ends :
      (fuel : ℕ) (chain : List Text) (pe : Bool) (visited : List Text) (vs : List Var)
      → rest bodies visited + 1 < fuel
      → collect_struct_fields type_string owner_pkg bodies fuel chain pe visited vs ≢ none
  unfolding collect_struct_fields
  collect_struct_fields-ends zero chain pe visited vs h = absurd (omega arith)
  collect_struct_fields-ends (suc fuel) chain pe visited vs h =
      collect_fields-ends (collect_struct_fields type_string owner_pkg bodies fuel) chain pe visited
        vs
        (λ chain' pe' t fresh.
          inner fuel (omega arith) chain' pe' t (body_of type_string owner_pkg bodies t) refl
            (λ b e.
              collect_struct_fields-ends fuel chain' pe' (key_of type_string t ∷ visited) b.fields
                (omega (arith, rest-lt bodies (key_of type_string t) visited b e fresh))))
    where
      inner :
          (fuel : ℕ)
          → 0 < fuel
          → (chain : List Text) (pe : Bool) (t : GoType) (o : Option Body)
          → find same_bytes bodies (key_of type_string t) ≡ o
          → ((b : Body)
              → find same_bytes bodies (key_of type_string t) ≡ some b
              → collect_struct_fields type_string owner_pkg bodies fuel chain pe
                  (key_of type_string t ∷ visited)
                  b.fields
                ≢ none)
          → collect_struct_fields type_string owner_pkg bodies fuel chain pe
              (key_of type_string t ∷ visited)
              (fields_in o)
            ≢ none
      inner zero p chain pe t o e k = absurd (omega arith)
      inner (suc f) p chain pe t none e k = unfold collect_fields in ends _
      inner (suc f) p chain pe t (some b) e k = k b e

-- Over fields whose types are finite, so that none is its own element as in `type T []T`, on which the
-- source's shapeOf does not end, flattening ends: however the structs embed each other, also through
-- pointers, an embedded struct is entered only when it is not on the chain of embeds, so two levels more
-- than there are structs are never exceeded.
pub collect_returns :
    (type_string : GoType → Text) (owner_pkg : Text) (bodies : List (Text × Body)) (vs : List Var)
    → collect type_string owner_pkg bodies vs ≢ none
unfolding collect
collect_returns type_string owner_pkg bodies vs =
    collect_struct_fields-ends type_string owner_pkg bodies (length bodies + 2) [] false [] vs
      (omega (arith, rest-le-length bodies []))
