-- ===== src/Schema/Validate/Whole.antt =====
-- tools/gsbmschema/validate.go: Validate, the rules on every struct and then the search for cycles. An
-- issue is one of a struct's, or a cycle's message.
use gsbm.Common.{◌≡◌, ◌⊎◌, refl, inl, inr, Option, none, some, List, [], ◌∷◌, ◌++◌, map, sym}
use mathlib.Core.Path.{subst}
use gsbm.Schema.{Text, TypeRef, ref_key, StructDecl, Schema}
use gsbm.Schema.Classifier.{index_by_key}
use gsbm.Schema.Compatible.{out_of_some}
use gsbm.Schema.Validate.{Issue, validate_struct}
use gsbm.Schema.Validate.Sound.{StructIsSound, validate_struct-StructIsSound}
use gsbm.Schema.Validate.Cycles.{Cycle, Visit, validate_no_cycles}
use gsbm.Schema.Validate.Cycles.Marks.{In}
use gsbm.Schema.Validate.Cycles.Search.{nil_parts}
use gsbm.Schema.Validate.Cycles.Graph.{Walk}
use gsbm.Schema.Validate.Cycles.Acyclic.{validate_no_cycles_sound}
use gsbm.Schema.Validate.Cycles.Diagnostic.{format_cycle_diagnostic}

pub data Finding : Type 0 where
  rule : Issue → Finding
  cycle : Text → Finding

-- The loop over s.Structs; `allowed` are the package paths, none for a nil package set.
unfoldable pub structs_findings : List Text → List StructDecl → List Finding
structs_findings allowed [] = []
structs_findings allowed (sd ∷ sds) =
    map rule (validate_struct allowed sd) ++ structs_findings allowed sds

-- The issues of validateNoCycles
unfoldable pub cycle_findings : List Cycle → List Finding
cycle_findings [] = []
cycle_findings (c ∷ cs) = cycle (format_cycle_diagnostic c) ∷ cycle_findings cs

abbrev pub with_cycles : List Finding → Option Visit → Option (List Finding)
with_cycles fs none = none
with_cycles fs (some v) = some (fs ++ cycle_findings v.found)

-- Validate; none if the fuel of the search ran out, which does not happen.
unfoldable pub validate : List Text → Schema → Option (List Finding)
validate allowed s = with_cycles (structs_findings allowed s.structs) (validate_no_cycles s)

-- What a schema without issues has.
pub record IsValid (allowed : List Text) (s : Schema) : Type 0 where
  pub structs : (sd : StructDecl) → In sd s.structs → StructIsSound allowed sd
  pub acyclic :
      (r : TypeRef) (k : Text)
      → In r s.roots
      → (k ≡ ref_key r) ⊎ Walk (index_by_key s.structs) (ref_key r) k
      → ¬ Walk (index_by_key s.structs) k k

rule-nil : (is : List Issue) → map rule is ≡ [] → is ≡ []
rule-nil [] e = refl
rule-nil (i ∷ is) e = cc

cycle_findings-nil : (cs : List Cycle) → cycle_findings cs ≡ [] → cs ≡ []
unfolding cycle_findings
cycle_findings-nil [] e = refl
cycle_findings-nil (c ∷ cs) e = cc

structs_findings-StructIsSound :
    (allowed : List Text) (sds : List StructDecl) (sd : StructDecl)
    → structs_findings allowed sds ≡ []
    → In sd sds
    → StructIsSound allowed sd
unfolding structs_findings
structs_findings-StructIsSound allowed [] sd e i = absurd i
structs_findings-StructIsSound allowed (x ∷ xs) sd e (inl here) =
    let (first, _) =
      nil_parts (map rule (validate_struct allowed x)) (structs_findings allowed xs) e in
    let silent : validate_struct allowed sd ≡ [] =
      subst (λ d. validate_struct allowed d ≡ []) (sym here)
        (rule-nil (validate_struct allowed x) first) in
    validate_struct-StructIsSound allowed sd silent
structs_findings-StructIsSound allowed (x ∷ xs) sd e (inr there) =
    let (_, rest) =
      nil_parts (map rule (validate_struct allowed x)) (structs_findings allowed xs) e in
    structs_findings-StructIsSound allowed xs sd rest there

-- A schema that Validate has nothing to say of is valid: every struct meets the rules, and no struct that
-- a root leads to, the root included, leads back to itself by fields that are neither id references nor
-- under a custom codec.
pub validate-IsValid :
    (allowed : List Text) (s : Schema) → validate allowed s ≡ some [] → IsValid allowed s
unfolding validate
validate-IsValid allowed s h = searched (validate_no_cycles s) refl h
  where
    searched :
        (o : Option Visit)
        → validate_no_cycles s ≡ o
        → with_cycles (structs_findings allowed s.structs) o ≡ some []
        → IsValid allowed s
    searched none q e = cc
    searched (some v) q e =
        let all = out_of_some (structs_findings allowed s.structs ++ cycle_findings v.found) [] e in
        let (rules, cycles) =
          nil_parts (structs_findings allowed s.structs) (cycle_findings v.found) all in
        record {
          structs = λ sd i. structs_findings-StructIsSound allowed s.structs sd rules i;
          acyclic = λ r k i below.
              validate_no_cycles_sound s v r k q (cycle_findings-nil v.found cycles) i below;
        }
