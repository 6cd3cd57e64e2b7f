-- ===== src/Schema/Field.antt =====
-- tools/gsbmschema/classifier.go: the changes of one field whose tag is in both snapshots. The text of
-- Change.Detail, which is for people only, is left out; Change.Subject is the data it is printed from.
use gsbm.Common.{ℕ, Bool, true, false, not, ◌&&◌, Option, none, some, List, [], ◌∷◌, ◌++◌}
use gsbm.Common.{ltb, if◌then◌else◌}
use gsbm.Reader.Header.{same_bytes}
use gsbm.Schema.{
  Text, is_empty, differs, TypeRef, Underlying, type_ref, no_underlying, underlying, ref_key,
  FieldDecl,
}
use gsbm.Schema.Width.{effective_width}

-- Severity
pub data Severity : Type 0 where
  safe warning breaking : Severity

-- The strings of Change.Code
pub data Code : Type 0 where
  root_removed root_added struct_removed struct_added opaque_changed : Code
  reserved_removed reserved_added : Code
  field_removed field_removed_compat_write field_removed_deprecated : Code
  type_changed alias_added alias_removed alias_renamed : Code
  flattened_from_added flattened_from_removed flattened_from_changed : Code
  wire_changed optional_changed : Code
  compat_write_added deprecated compat_write_removed resurrected : Code
  renamed cycle_break_added cycle_break_removed map_key_underlying_changed : Code
  wire_widened wire_narrowed wire_intent_changed : Code
  custom_added custom_removed custom_changed tag_changed field_added : Code

-- A root or struct, a field by its name and tag, a field by its name, or a tag.
pub data Subject : Type 0 where
  whole : Text → Subject
  field : Text → Text → ℕ → Subject
  named : Text → Text → Subject
  tagged : Text → ℕ → Subject

-- Change, without Detail
pub record Change : Type 0 where
  pub severity : Severity
  pub code : Code
  pub subject : Subject
  pub acknowledged : Text

abbrev pub change : Severity → Code → Subject → Change
change s c x = record { severity = s; code = c; subject = x; acknowledged = [] }

abbrev pub report : Bool → Severity → Code → Subject → List Change
report b s c x = if b then change s c x ∷ [] else []

-- `a != b` on bools
abbrev pub flipped : Bool → Bool → Bool
flipped true b = not b
flipped false b = b

-- A deprecated field that is not in its compat_write window is off the wire.
abbrev pub off_wire : FieldDecl → Bool
off_wire f = f.deprecated && not f.compat_write

abbrev pub shape_frozen : FieldDecl → FieldDecl → Bool
shape_frozen pf cf = off_wire pf && off_wire cf

abbrev underlying_of : TypeRef → Underlying
underlying_of (type_ref pkg name args u) = u

-- underlyingEqual
abbrev pub underlying_equal : Underlying → Underlying → Bool
underlying_equal no_underlying no_underlying = true
underlying_equal no_underlying (underlying b) = false
underlying_equal (underlying a) no_underlying = false
underlying_equal (underlying a) (underlying b) = same_bytes (ref_key a) (ref_key b)

abbrev pub alias_change : Option TypeRef → Option TypeRef → Subject → List Change
alias_change none none x = []
alias_change none (some c) x = change safe alias_added x ∷ []
alias_change (some p) none x = change safe alias_removed x ∷ []
alias_change (some p) (some c) x =
    report (differs (ref_key p) (ref_key c) && underlying_equal (underlying_of p) (underlying_of c))
      safe alias_renamed x

abbrev pub flattened_change : Text → Text → Subject → List Change
flattened_change p c x =
    if is_empty p && is_empty c
    then []
    else if is_empty p
    then change safe flattened_from_added x ∷ []
    else if is_empty c
    then change safe flattened_from_removed x ∷ []
    else report (differs p c) safe flattened_from_changed x

-- fieldState
pub data FieldState : Type 0 where
  active in_compat_write off : FieldState

-- lifecycleState
abbrev pub lifecycle_state : FieldDecl → FieldState
lifecycle_state f =
    if f.deprecated && f.compat_write then in_compat_write else if f.deprecated then off else active

abbrev pub lifecycle_change : FieldState → FieldState → Subject → List Change
lifecycle_change active active x = []
lifecycle_change active in_compat_write x = change safe compat_write_added x ∷ []
lifecycle_change active off x = change warning deprecated x ∷ []
lifecycle_change in_compat_write active x = change warning resurrected x ∷ []
lifecycle_change in_compat_write in_compat_write x = []
lifecycle_change in_compat_write off x = change breaking compat_write_removed x ∷ []
lifecycle_change off active x = change warning resurrected x ∷ []
lifecycle_change off in_compat_write x = change safe compat_write_added x ∷ []
lifecycle_change off off x = []

abbrev pub width_change : Option ℕ → Option ℕ → Subject → List Change
width_change none c x = []
width_change (some p) none x = []
width_change (some p) (some c) x =
    if ltb p c
    then change safe wire_widened x ∷ []
    else if ltb c p
    then change breaking wire_narrowed x ∷ []
    else change safe wire_intent_changed x ∷ []

abbrev pub custom_change : Text → Text → Subject → List Change
custom_change p c x =
    if is_empty p && not (is_empty c)
    then change warning custom_added x ∷ []
    else if not (is_empty p) && is_empty c
    then change breaking custom_removed x ∷ []
    else change breaking custom_changed x ∷ []

abbrev pub plain : FieldDecl → FieldDecl → Bool
plain pf cf = is_empty pf.custom && is_empty cf.custom

abbrev pub when : Bool → List Change → List Change
when b cs = if b then cs else []

abbrev pub cycle_change : Bool → Subject → List Change
cycle_change c x =
    if c
    then change breaking cycle_break_added x ∷ []
    else change breaking cycle_break_removed x ∷ []

abbrev pub map_key_changes : FieldDecl → FieldDecl → Bool
map_key_changes pf cf =
    not (is_empty pf.map_key_underlying)
    && (not (is_empty cf.map_key_underlying) && differs cf.map_key_underlying pf.map_key_underlying)

abbrev pub override_change : FieldDecl → FieldDecl → Subject → List Change
override_change pf cf x =
    width_change (effective_width pf.shape pf.wire_override)
      (effective_width cf.shape cf.wire_override) x

-- The checks of one field, in the order of the source; `live` is `!shapeFrozen`.
unfoldable pub checks :
    Bool → FieldDecl → FieldDecl → Subject → Subject → Subject → List (List Change)
checks live pf cf was now slot =
    report (live && differs cf.shape pf.shape) breaking type_changed was
    ∷ when (live && same_bytes pf.shape cf.shape) (alias_change pf.alias_type cf.alias_type now)
    ∷ when (live && (same_bytes pf.shape cf.shape && same_bytes pf.wire cf.wire))
        (flattened_change pf.flattened_from cf.flattened_from now)
    ∷ report (live && (plain pf cf && differs cf.wire pf.wire)) breaking wire_changed was
    ∷ report (live && flipped cf.optional pf.optional) breaking optional_changed was
    ∷ lifecycle_change (lifecycle_state pf) (lifecycle_state cf) now
    ∷ report (differs cf.name pf.name) safe renamed slot
    ∷ when (live && flipped cf.cycle_break pf.cycle_break) (cycle_change cf.cycle_break now)
    ∷ report (live && map_key_changes pf cf) breaking map_key_underlying_changed now
    ∷ when (live && (plain pf cf && differs cf.wire_override pf.wire_override))
        (override_change pf cf now)
    ∷ when (live && differs cf.custom pf.custom) (custom_change pf.custom cf.custom now)
    ∷ []

unfoldable pub join : List (List Change) → List Change
join [] = []
join (cs ∷ css) = cs ++ join css

-- The body of classifyStruct's loop over the previous fields, where the tag is still there.
unfoldable pub classify_field : Text → ℕ → FieldDecl → FieldDecl → List Change
classify_field key tag pf cf = join (
    checks (not (shape_frozen pf cf)) pf cf (field key pf.name tag) (field key cf.name tag)
      (tagged key tag))
