-- ===== src/Schema/Gate/Verdict.antt =====
-- What a gate that lets a schema change pass has checked.
use gsbm.Common.{ℕ, ◌≡◌, true, false, ◌&&◌, some, List}
use gsbm.Common.{◌==◌}
use gsbm.Reader.Header.{same_bytes}
use gsbm.Schema.{Text, is_empty, FieldDecl, StructDecl, Schema}
use gsbm.Schema.Classifier.{find, index_fields}
use gsbm.Schema.Compatible.{Survives}
use gsbm.Schema.Gate.{DiffOptions}

-- The dual write of a field is kept up: its tag is still there, and the new field is not plainly
-- deprecated unless the operator said so.
pub record IsDualWritten (opts : DiffOptions) (curr : List (ℕ × FieldDecl)) (tag : ℕ) : Type 0 where
  pub now : FieldDecl
  pub there : find ◌==◌ curr tag ≡ some now
  pub still : opts.allow_stop_compat_write ≡ false → now.deprecated ≡ true → now.compat_write ≡ true

-- The struct is still there; without a justification of its own and without the operator's flag all of
-- its fields survive; and with them a field in its compat_write window is still not removed.
pub record IsAdmitted (opts : DiffOptions) (curr : List (Text × StructDecl)) (key : Text)
    (p : StructDecl) : Type 0 where
  pub now : StructDecl
  pub there : find same_bytes curr key ≡ some now
  pub fields :
      opts.allow_stop_compat_write ≡ false
      → is_empty now.allow_breaking ≡ true
      → (tag : ℕ) (pf : FieldDecl) → find ◌==◌ (index_fields p.fields) tag ≡ some pf
      → Survives (index_fields now.fields) tag pf
  pub window :
      (tag : ℕ) (pf : FieldDecl)
      → find ◌==◌ (index_fields p.fields) tag ≡ some pf
      → (pf.deprecated && pf.compat_write) ≡ true
      → IsDualWritten opts (index_fields now.fields) tag
