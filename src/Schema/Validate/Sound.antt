-- ===== src/Schema/Validate/Sound.antt =====
-- A struct that passes the rules.
use gsbm.Common.{
  ℕ, ◌<◌, ◌≡◌, ◌≢◌, ◌⊎◌, refl, sym, Bool, true, false, not, ◌&&◌, inl, inr, Option, none, some,
  List, [], ◌∷◌, arith,
}
use gsbm.Common.{◌==◌, ==_iff, if◌then◌else◌}
use mathlib.Core.Path.{subst}
use gsbm.Schema.{Text, is_empty, FieldDecl, StructDecl}
use gsbm.Schema.Tag.{among}
use gsbm.Schema.Classifier.{assign, find, index, tag_set}
use gsbm.Schema.Validate.{
  is_acceptable_map_key, IssueCode, issue_if, pkg_of, name_of, is_composite, is_byte_slice,
  has_bad_key, is_optional_composite, is_custom_composite, present, field_issues, fields_issues,
  is_nil, is_external, validate_struct,
}
use gsbm.Schema.Validate.Cycles.Marks.{In}
use gsbm.Schema.Validate.Cycles.Search.{nil_parts}

-- A field by itself, in a struct with this reserved set.
pub record FieldIsSound (reserved : List ℕ) (fd : FieldDecl) : Type 0 where
  pub numbered : 0 < fd.tag
  pub free : In fd.tag reserved → ⊥
  pub key : is_empty fd.map_key ≡ false → is_acceptable_map_key fd.map_key ≡ true
  pub value_form :
      fd.optional ≡ true
      → is_empty fd.custom ≡ true
      → is_composite fd.shape ≡ true
      → is_byte_slice fd.shape ≡ true
  pub scalar : is_empty fd.custom ≡ false → is_composite fd.shape ≡ false

-- Every field is sound, and none has the tag of an earlier one.
pub AreSound : List ℕ → List ℕ → List FieldDecl → Type 0
AreSound reserved before [] = Unit
AreSound reserved before (fd ∷ fds) =
    FieldIsSound reserved fd × (In fd.tag before → ⊥) × AreSound reserved (fd.tag ∷ before) fds

-- What the rules ask of a struct.
pub record StructIsSound (allowed : List Text) (sd : StructDecl) : Type 0 where
  pub inside :
      is_nil allowed ≡ false
      → is_empty (pkg_of sd.type_of) ≡ false
      → among (pkg_of sd.type_of) allowed ≡ true
  pub plain : sd.opaque ≡ true → (sd.track_presence ≡ false) × (sd.borrow_strings ≡ false)
  pub closed : sd.opaque ≡ false → is_nil sd.generic ≡ true
  pub fields : sd.opaque ≡ false → AreSound sd.reserved [] sd.fields

no_issue : (b : Bool) (c : IssueCode) (o m : Text) → issue_if b c o m ≡ [] → b ≡ false
no_issue true c o m e = cc
no_issue false c o m e = refl

find-assign :
    {V : Type 0} (k j : ℕ) (v : V) (m : List (ℕ × V))
    → find ◌==◌ (assign ◌==◌ k v m) j ≡ (if k == j then some v else find ◌==◌ m j)
unfolding find assign
find-assign k j v [] = refl
find-assign k j v ((i, w) ∷ m) = ground (arith, find-assign k j v m)

not_present : {A : Type 0} (o : Option A) → present o ≡ false → o ≡ none
not_present none e = refl
not_present (some a) e = cc

-- A tag that is listed is in the set that the list fills.
index-In :
    (ts : List ℕ) (t : ℕ) (m : List (ℕ × Bool))
    → In t ts ⊎ (find ◌==◌ m t ≢ none)
    → find ◌==◌ (index ◌==◌ (λ x. x) (λ _. true) m ts) t ≢ none
unfolding index
index-In [] t m (inl h) = absurd h
index-In [] t m (inr h) = h
index-In (x ∷ ts) t m (inl (inl here)) =
    index-In ts t (assign ◌==◌ x true m)
      (inr (rw (find-assign x t true m, (==_iff x t).1 (sym here)) (λ e. cc)))
index-In (x ∷ ts) t m (inl (inr later)) = index-In ts t (assign ◌==◌ x true m) (inl later)
index-In (x ∷ ts) t m (inr h) =
    index-In ts t (assign ◌==◌ x true m) (inr (rw (find-assign x t true m) (kept (x == t))))
  where
    kept : (b : Bool) → (if b then some true else find ◌==◌ m t) ≢ none
    kept true e = cc
    kept false e = h e

-- Every tag before the field is in the map of the tags seen.
Covers : List (ℕ × Text) → List ℕ → Type 0
Covers seen [] = Unit
Covers seen (t ∷ ts) = (find ◌==◌ seen t ≢ none) × Covers seen ts

Covers-In :
    (seen : List (ℕ × Text)) (ts : List ℕ) (t : ℕ)
    → Covers seen ts
    → In t ts
    → find ◌==◌ seen t ≢ none
unfolding Covers
Covers-In seen [] t c i = absurd i
Covers-In seen (x ∷ ts) t c (inl here) = subst (λ k. find ◌==◌ seen k ≢ none) (sym here) c.0
Covers-In seen (x ∷ ts) t c (inr later) = Covers-In seen ts t c.1 later

Covers-assign :
    (seen : List (ℕ × Text)) (k : ℕ) (name : Text) (ts : List ℕ)
    → Covers seen ts
    → Covers (assign ◌==◌ k name seen) ts
unfolding Covers
Covers-assign seen k name [] c = tt
Covers-assign seen k name (t ∷ ts) c =
    (rw (find-assign k t name seen) (kept (k == t)), Covers-assign seen k name ts c.1)
  where
    kept : (b : Bool) → (if b then some name else find ◌==◌ seen t) ≢ none
    kept true e = cc
    kept false e = c.0 e

field_issues-FieldIsSound :
    (owner : Text) (reserved : List ℕ) (seen : List (ℕ × Text)) (before : List ℕ) (fd : FieldDecl)
    → Covers seen before
    → field_issues owner (tag_set reserved) seen fd ≡ []
    → FieldIsSound reserved fd × (In fd.tag before → ⊥)
unfolding field_issues
field_issues-FieldIsSound owner reserved seen before fd c e =
    let (zero, e1) = nil_parts (issue_if (fd.tag == 0) _ owner fd.name) _ e in
    let (twice, e2) = nil_parts (issue_if (present (find ◌==◌ seen fd.tag)) _ owner fd.name) _ e1 in
    let (held, e3) =
      nil_parts (issue_if (present (find ◌==◌ (tag_set reserved) fd.tag)) _ owner fd.name) _ e2 in
    let (bad, e4) = nil_parts (issue_if (has_bad_key fd) _ owner fd.name) _ e3 in
    let (wrapped, custom) = nil_parts (issue_if (is_optional_composite fd) _ owner fd.name) _ e4 in
    let k0 = no_issue (fd.tag == 0) _ owner fd.name zero in
    let k1 = no_issue (present (find ◌==◌ seen fd.tag)) _ owner fd.name twice in
    let k2 = no_issue (present (find ◌==◌ (tag_set reserved) fd.tag)) _ owner fd.name held in
    let k3 = no_issue (has_bad_key fd) _ owner fd.name bad in
    let k4 = no_issue (is_optional_composite fd) _ owner fd.name wrapped in
    let k5 = no_issue (is_custom_composite fd) _ owner fd.name custom in
    (
      record {
        numbered = positive k0;
        free = λ i. index-In reserved fd.tag [] (inl i) (not_present _ k2);
        key = λ named. key_ok (is_empty fd.map_key) (is_acceptable_map_key fd.map_key) named k3;
        value_form = λ o u s.
            value_ok fd.optional (is_empty fd.custom) (is_byte_slice fd.shape)
              (is_composite fd.shape) o u s k4;
        scalar = λ u. scalar_ok (is_empty fd.custom) (is_composite fd.shape) u k5;
      },
      λ i. Covers-In seen before fd.tag c i (not_present _ k1),
    )
  where
    positive : (fd.tag == 0) ≡ false → 0 < fd.tag
    positive h = ground arith

    key_ok : (a b : Bool) → a ≡ false → (not a && not b) ≡ false → b ≡ true
    key_ok a b p q = ground arith

    value_ok :
        (o u b s : Bool)
        → o ≡ true
        → u ≡ true
        → s ≡ true
        → ((o && (u && not b)) && s) ≡ false
        → b ≡ true
    value_ok o u b s p q r h = ground arith

    scalar_ok : (u s : Bool) → u ≡ false → (not u && s) ≡ false → s ≡ false
    scalar_ok u s p h = ground arith

fields_issues-AreSound :
    (owner : Text) (reserved : List ℕ) (seen : List (ℕ × Text)) (before : List ℕ)
    (fds : List FieldDecl)
    → Covers seen before
    → fields_issues owner (tag_set reserved) seen fds ≡ []
    → AreSound reserved before fds
unfolding fields_issues AreSound Covers
fields_issues-AreSound owner reserved seen before [] c e = tt
fields_issues-AreSound owner reserved seen before (fd ∷ fds) c e =
    let (first, rest) = nil_parts (field_issues owner (tag_set reserved) seen fd) _ e in
    let (sound, fresh) = field_issues-FieldIsSound owner reserved seen before fd c first in
    (
      sound,
      fresh,
      fields_issues-AreSound owner reserved (assign ◌==◌ fd.tag fd.name seen) (fd.tag ∷ before) fds
          (
            rw (find-assign fd.tag fd.tag fd.name seen, (==_iff fd.tag fd.tag).1 refl) (λ q. cc),
            Covers-assign seen fd.tag fd.name before c,
          )
          rest,
    )

-- A struct that validateStruct has nothing to say of is in the input's packages, when there are any. If
-- it is opaque it tracks no presence and borrows no strings. If not, it is not generic, and each of its
-- fields has a positive tag that no earlier field has and that is not reserved; a map's key is
-- acceptable; an optional field without a codec is no composite but a byte slice; and a field
-- with a codec is no composite.
pub validate_struct-StructIsSound :
    (allowed : List Text) (sd : StructDecl)
    → validate_struct allowed sd ≡ []
    → StructIsSound allowed sd
unfolding validate_struct Covers
validate_struct-StructIsSound allowed sd e =
    let (out, rest) = nil_parts (issue_if (is_external allowed sd) _ (name_of sd.type_of) []) _ e in
    let k = no_issue (is_external allowed sd) _ (name_of sd.type_of) [] out in
    record {
      inside = λ some_allowed named.
          inside_ok (is_nil allowed) (is_empty (pkg_of sd.type_of))
            (among (pkg_of sd.type_of) allowed) some_allowed named k;
      plain = λ o.
          let (t, b) =
            nil_parts (issue_if sd.track_presence _ (name_of sd.type_of) []) _ (rw o at rest) in
          (
            no_issue sd.track_presence _ (name_of sd.type_of) [] t,
            no_issue sd.borrow_strings _ (name_of sd.type_of) [] b,
          );
      closed = λ o.
          let (g, f) =
            nil_parts (issue_if (not (is_nil sd.generic)) _ (name_of sd.type_of) []) _
              (rw o at rest) in
          not_not (is_nil sd.generic)
            (no_issue (not (is_nil sd.generic)) _ (name_of sd.type_of) [] g);
      fields = λ o.
          let (g, f) =
            nil_parts (issue_if (not (is_nil sd.generic)) _ (name_of sd.type_of) []) _
              (rw o at rest) in
          fields_issues-AreSound (name_of sd.type_of) sd.reserved [] [] sd.fields tt f;
    }
  where
    inside_ok :
        (n e a : Bool) → n ≡ false → e ≡ false → (not n && (not e && not a)) ≡ false → a ≡ true
    inside_ok n e a p q h = ground arith

    not_not : (b : Bool) → not b ≡ false → b ≡ true
    not_not b h = ground arith
