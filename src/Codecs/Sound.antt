-- ===== src/Codecs/Sound.antt =====
-- What a registry holds after any number of registrations.
use gsbm.Common.{
  ◌≡◌, ◌≢◌, refl, sym, ◌∙◌, Bool, Bool-cases, true, false, inl, inr, Option, none, some, List, [],
  ◌∷◌, arith,
}
use gsbm.Common.{if◌then◌else◌}
use mathlib.Core.Path.{subst}
use gsbm.Reader.Header.{same_bytes}
use gsbm.Intern.Retained.{same_bytes_lem}
use gsbm.Schema.{Text, is_empty}
use gsbm.Schema.Compatible.{out_of_some}
use gsbm.Schema.Classifier.{find}
use gsbm.Schema.Validate.Cycles.Marks.{find-assign}
use gsbm.Codecs.{
  no_kind, CodecDecl, kind_of, is_known_wire_type, RegisterError, unknown_wire_type, Registry,
  shape_error, decl_error, same_decl, insert_decl, checked_insert, register, stop_at, register_all,
}

-- A decl that the emitter can call: it has a name, a decoder, one shape and a wire type.
pub record IsUsable (c : CodecDecl) : Type 0 where
  pub named : is_empty c.name ≡ false
  pub decodes : is_empty c.decode_fn ≡ false
  pub shaped : kind_of c ≢ no_kind
  pub typed : is_known_wire_type c.wire_type ≡ true

-- Every codec stands under its own name and is usable.
pub IsSound : Registry → Type 0
IsSound r =
    (name : Text) (c : CodecDecl) → find same_bytes r name ≡ some c → (c.name ≡ name) × IsUsable c

shaped : (c : CodecDecl) → shape_error c ≡ none → kind_of c ≢ no_kind
unfolding shape_error kind_of
shaped c h = ground arith

decl_error-IsUsable : (c : CodecDecl) → decl_error c ≡ none → IsUsable c
unfolding decl_error
decl_error-IsUsable c h = elim (Bool-cases (is_empty c.name)) [
  | inl e ↦ absurd (something _ (rw e at h))
  | inr named ↦ elim (Bool-cases (is_empty c.decode_fn)) [
    | inl e ↦ absurd (something _ (rw (named, e) at h))
    | inr decodes ↦ behind named decodes (shape_error c) refl (rw (named, decodes) at h)
  ]
]
  where
    something : (e : RegisterError) → some e ≡ none → ⊥
    something e q = cc

    known : (b : Bool) → (if b then none else some unknown_wire_type) ≡ none → b ≡ true
    known true q = refl
    known false q = cc

    behind :
        is_empty c.name ≡ false
        → is_empty c.decode_fn ≡ false
        → (o : Option RegisterError) → shape_error c ≡ o
        → (elim o [
          | some e ↦ some e
          | none ↦ if is_known_wire_type c.wire_type then none else some unknown_wire_type
        ])
          ≡ none
        → IsUsable c
    behind named decodes (some e) q k = cc
    behind named decodes none q k = record {
      named = named;
      decodes = decodes;
      shaped = shaped c q;
      typed = known (is_known_wire_type c.wire_type) k;
    }

if-true :
    (v : CodecDecl) (o : Option CodecDecl) (b : Bool)
    → b ≡ true
    → (if b then some v else o) ≡ some v
if-true v o b q = rw q refl

if-false :
    (v : CodecDecl) (o : Option CodecDecl) (b : Bool) → b ≡ false → (if b then some v else o) ≡ o
if-false v o b q = rw q refl

insert_decl-IsSound :
    (r : Registry) (c : CodecDecl)
    → IsSound r
    → IsUsable c
    → (o : Option CodecDecl) → IsSound (insert_decl r c o).registry
unfolding IsSound
insert_decl-IsSound r c sound fit none name d h = elim (Bool-cases (same_bytes c.name name)) [
  | inl e ↦
      let here = out_of_some c d (
        sym (if-true c (find same_bytes r name) (same_bytes c.name name) e)
        ∙ (sym (find-assign c.name name c r) ∙ h)) in
      (
        subst (λ x. x.name ≡ name) here (same_bytes_lem c.name name e),
        subst (λ x. IsUsable x) here fit,
      )
  | inr e ↦ sound name d (
      sym (if-false c (find same_bytes r name) (same_bytes c.name name) e)
      ∙ (sym (find-assign c.name name c r) ∙ h))
]
insert_decl-IsSound r c sound fit (some old) name d h = elim (Bool-cases (same_decl old c)) [
  | inl e ↦ sound name d (rw e at h)
  | inr e ↦ sound name d (rw e at h)
]

register-IsSound : (r : Registry) (c : CodecDecl) → IsSound r → IsSound (register r c).registry
unfolding register
register-IsSound r c sound = checked (decl_error c) refl
  where
    checked :
        (o : Option RegisterError) → decl_error c ≡ o → IsSound (checked_insert r c o).registry
    checked (some e) q = sound
    checked none q =
        insert_decl-IsSound r c sound (decl_error-IsUsable c q) (find same_bytes r c.name)

grown : (r : Registry) (cs : List CodecDecl) → IsSound r → IsSound (register_all r cs).registry
unfolding register_all
grown r [] sound = sound
grown r (c ∷ cs) sound =
    onward (register r c).error (register-IsSound r c sound)
      (grown (register r c).registry cs (register-IsSound r c sound))
  where
    onward :
        (o : Option RegisterError)
        → IsSound (register r c).registry
        → IsSound (register_all (register r c).registry cs).registry
        → IsSound (stop_at (register r c) (register_all (register r c).registry cs) o).registry
    onward (some e) known rest = known
    onward none known rest = rest

-- Whatever codecs a build registers, accepted or rejected, every codec that a lookup then finds is the
-- one of that name, has a decoder and a known wire type, and has one of the three shapes.
pub register_all-IsSound : (cs : List CodecDecl) → IsSound (register_all [] cs).registry
unfolding find IsSound
register_all-IsSound cs = grown [] cs (λ name c h. absurd (missing c name h))
  where
    missing : (c : CodecDecl) (name : Text) → find same_bytes [] name ≡ some c → ⊥
    missing c name e = clash c e
      where
        clash : (c : CodecDecl) → none ≡ some c → ⊥
        clash c e = cc
