-- ===== src/Schema/Gate.antt =====
-- tools/gsbmschema/runner.go: the verdict of a continuous-integration diff.
pub mod Fresh
pub mod Quiet
pub mod Verdict
use gsbm.Common.{Bool, true, false, not, ◌&&◌, ◌||◌, List, [], ◌∷◌, map, codes}
use gsbm.Common.{if◌then◌else◌}
use gsbm.Schema.{Text, is_empty, Schema}
use gsbm.Schema.Field.{Code, compat_write_removed, Change}
use gsbm.Schema.Classifier.{is_breaking, Diff, classify}

-- DiffOptions
pub record DiffOptions : Type 0 where
  pub allow_stop_compat_write : Bool

-- CIDiffReport
pub record CiDiffReport : Type 0 where
  pub diff : Diff
  pub gate_blocks : Bool

abbrev pub stops_compat_write : Code → Bool
stops_compat_write compat_write_removed = true
stops_compat_write _ = false

abbrev pub flag_text : Text
flag_text = codes "--allow-stop-compat-write"

-- The body of the loop under AllowStopCompatWrite
abbrev pub admit : Change → Change
admit c =
    if stops_compat_write c.code && is_empty c.acknowledged
    then record c { acknowledged = flag_text }
    else c

abbrev pub admit_all : DiffOptions → List Change → List Change
admit_all opts cs = if opts.allow_stop_compat_write then map admit cs else cs

-- A breaking change that nobody acknowledged
abbrev pub is_open : Change → Bool
is_open c = is_breaking c.severity && is_empty c.acknowledged

-- The loop that sets GateBlocks
unfoldable pub blocks : List Change → Bool
blocks [] = false
blocks (c ∷ cs) = is_open c || blocks cs

-- CIDiffWithOptions
unfoldable pub ci_diff_with_options : Schema → Schema → DiffOptions → CiDiffReport
ci_diff_with_options prev curr opts =
    let d = classify prev curr in
    let changes = admit_all opts d.changes in
    record { diff = record d { changes = changes }; gate_blocks = blocks changes }

-- CIDiff
unfoldable pub ci_diff : Schema → Schema → CiDiffReport
ci_diff prev curr = ci_diff_with_options prev curr (record { allow_stop_compat_write = false })
