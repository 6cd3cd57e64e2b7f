-- ===== src/Schema/Diffs.antt =====
-- What a whole diff below the severity breaking leaves of structs and fields.
use gsbm.Common.{ℕ, ◌≡◌, true, some, List}
use gsbm.Common.{◌==◌}
use gsbm.Reader.Header.{same_bytes}
use gsbm.Schema.{Text, FieldDecl, StructDecl, Schema}
use gsbm.Schema.Classifier.{find, index_fields, previous_fields, classify_struct}
use gsbm.Schema.Compatible.{calm, calm-append, Survives, previous_fields-Survives}

-- A struct diff without a breaking change keeps every field of the old struct: its tag is still there,
-- and the field is off the wire in both snapshots or laid out on the wire as before.
pub classify_struct-Survives :
    (key : Text) (prev curr : StructDecl) (tag : ℕ) (pf : FieldDecl)
    → calm (classify_struct key prev curr) ≡ true
    → find ◌==◌ (index_fields prev.fields) tag ≡ some pf
    → Survives (index_fields curr.fields) tag pf
unfolding classify_struct
classify_struct-Survives key prev curr tag pf h e =
    previous_fields-Survives key (index_fields curr.fields) (index_fields prev.fields) tag pf
      (calm-append (previous_fields key (index_fields curr.fields) (index_fields prev.fields)) _
        h).0
      e

-- The struct is still in the schema, with every field of the old one.
pub record StructSurvives (curr : List (Text × StructDecl)) (key : Text) (p : StructDecl)
    : Type 0 where
  pub now : StructDecl
  pub there : find same_bytes curr key ≡ some now
  pub fields :
      (tag : ℕ) (pf : FieldDecl)
      → find ◌==◌ (index_fields p.fields) tag ≡ some pf
      → Survives (index_fields now.fields) tag pf
