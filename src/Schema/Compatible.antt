-- ===== src/Schema/Compatible.antt =====
-- What a diff without a breaking change promises of the wire.
use gsbm.Common.{
  ℕ, ◌≡◌, ◌⊎◌, refl, sym, Bool, true, false, not, ◌&&◌, Bool-cases, inl, inr, Option, none, some,
  List, [], ◌∷◌, ◌++◌, arith,
}
use gsbm.Common.{◌==◌, ==_iff}
use mathlib.Core.Path.{subst}
use gsbm.Intern.Retained.{same_bytes_lem}
use gsbm.Schema.{Text, is_empty, differs, FieldDecl}
use gsbm.Schema.Field.{
  breaking, Code, Subject, field, tagged, Change, report, flipped, shape_frozen, classify_field,
  checks, join, when, plain, cycle_change, custom_change,
}
use gsbm.Schema.Classifier.{find, previous_field, previous_fields, is_breaking}

-- No change of the list is breaking.
unfoldable pub calm : List Change → Bool
calm [] = true
calm (c ∷ cs) = not (is_breaking c.severity) && calm cs

pub calm-append :
    (xs ys : List Change) → calm (xs ++ ys) ≡ true → (calm xs ≡ true) × (calm ys ≡ true)
unfolding calm
calm-append [] ys h = (refl, h)
calm-append (x ∷ xs) ys h = ground (arith, calm-append xs ys)

-- Old and new code agree on how the field is laid out.
pub record SameWire (pf cf : FieldDecl) : Type 0 where
  pub shape : pf.shape ≡ cf.shape
  pub optional : pf.optional ≡ cf.optional
  pub cycle_break : pf.cycle_break ≡ cf.cycle_break
  pub wire : is_empty pf.custom ≡ true → is_empty cf.custom ≡ true → pf.wire ≡ cf.wire
  pub custom : is_empty pf.custom ≡ false → pf.custom ≡ cf.custom

-- The tag is still a field of the new struct, which is off the wire in both or laid out as before.
pub record Survives (curr : List (ℕ × FieldDecl)) (tag : ℕ) (pf : FieldDecl) : Type 0 where
  pub now : FieldDecl
  pub there : find ◌==◌ curr tag ≡ some now
  pub kept : (shape_frozen pf now ≡ true) ⊎ SameWire pf now

not_differs : (a b : Text) → differs b a ≡ false → a ≡ b
not_differs a b h = sym (same_bytes_lem b a (ground arith))

calm-report : (b : Bool) (c : Code) (x : Subject) → calm (report b breaking c x) ≡ true → b ≡ false
unfolding calm
calm-report true c x h = cc
calm-report false c x h = refl

not_flipped : (a b : Bool) → flipped b a ≡ false → a ≡ b
not_flipped true true h = refl
not_flipped true false h = cc
not_flipped false true h = cc
not_flipped false false h = refl

AllCalm : List (List Change) → Type 0
AllCalm [] = Unit
AllCalm (cs ∷ css) = (calm cs ≡ true) × AllCalm css

calm-join : (css : List (List Change)) → calm (join css) ≡ true → AllCalm css
unfolding join AllCalm
calm-join [] h = tt
calm-join (cs ∷ css) h = let (a, b) = calm-append cs (join css) h in (a, calm-join css b)

calm-cycle_change : (b c : Bool) (x : Subject) → calm (when b (cycle_change c x)) ≡ true → b ≡ false
unfolding calm
calm-cycle_change true true x h = cc
calm-cycle_change true false x h = cc
calm-cycle_change false c x h = refl

calm-custom_change :
    (b : Bool) (p c : Text) (x : Subject)
    → calm (when b (custom_change p c x)) ≡ true
    → is_empty p ≡ false
    → b ≡ false
unfolding calm
calm-custom_change true p c x h e = ground arith
calm-custom_change false p c x h e = refl

checks-SameWire :
    (pf cf : FieldDecl) (was now slot : Subject)
    → AllCalm (checks true pf cf was now slot)
    → SameWire pf cf
unfolding checks AllCalm
checks-SameWire pf cf was now slot h = record {
  shape = not_differs pf.shape cf.shape (calm-report _ _ _ h.0);
  optional = not_flipped pf.optional cf.optional (calm-report _ _ _ h.1.1.1.1.0);
  cycle_break =
      not_flipped pf.cycle_break cf.cycle_break (calm-cycle_change _ _ _ h.1.1.1.1.1.1.1.0);
  wire = λ p c.
      let e : (plain pf cf && differs cf.wire pf.wire) ≡ false = calm-report _ _ _ h.1.1.1.0 in
      not_differs pf.wire cf.wire (rw (p, c) at e);
  custom = λ p.
      not_differs pf.custom cf.custom
        (calm-custom_change _ pf.custom cf.custom now h.1.1.1.1.1.1.1.1.1.1.0 p);
}

classify_field-SameWire :
    (key : Text) (tag : ℕ) (pf cf : FieldDecl)
    → calm (classify_field key tag pf cf) ≡ true
    → (shape_frozen pf cf ≡ true) ⊎ SameWire pf cf
unfolding classify_field
classify_field-SameWire key tag pf cf h = elim (Bool-cases (shape_frozen pf cf)) [
  | inl frozen ↦ inl frozen
  | inr live ↦ inr (
      checks-SameWire pf cf _ _ _ (
        calm-join
          (checks true pf cf (field key pf.name tag) (field key cf.name tag) (tagged key tag))
          (rw live at h)))
]

previous_field-Survives :
    (key : Text) (curr : List (ℕ × FieldDecl)) (tag : ℕ) (pf : FieldDecl) (o : Option FieldDecl)
    → find ◌==◌ curr tag ≡ o
    → calm (previous_field key tag pf o) ≡ true
    → Survives curr tag pf
unfolding calm
previous_field-Survives key curr tag pf none e h = cc
previous_field-Survives key curr tag pf (some cf) e h = record {
  now = cf;
  there = e;
  kept = classify_field-SameWire key tag pf cf h;
}

pub out_of_some : {A : Type 0} (a b : A) → some a ≡ some b → a ≡ b
out_of_some a b e = cc

pub previous_fields-Survives :
    (key : Text) (curr prev : List (ℕ × FieldDecl)) (tag : ℕ) (pf : FieldDecl)
    → calm (previous_fields key curr prev) ≡ true
    → find ◌==◌ prev tag ≡ some pf
    → Survives curr tag pf
unfolding previous_fields find
previous_fields-Survives key curr [] tag pf h e = cc
previous_fields-Survives key curr ((t, f) ∷ prev) tag pf h e =
    let (first, rest) =
      calm-append (previous_field key t f (find ◌==◌ curr t)) (previous_fields key curr prev) h in
    elim (Bool-cases (t == tag)) [
      | inl here ↦
          let moved : Survives curr tag f =
            subst (λ x. Survives curr x f) ((==_iff t tag).0 here)
              (previous_field-Survives key curr t f (find ◌==◌ curr t) refl first) in
          subst (λ x. Survives curr tag x) (out_of_some f pf (rw here at e)) moved
      | inr later ↦ previous_fields-Survives key curr prev tag pf rest (rw later at e)
    ]
