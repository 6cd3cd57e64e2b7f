-- ===== src/Schema/Classifier.antt =====
-- tools/gsbmschema/classifier.go: the diff of two snapshots. A Go map is a list of its entries, one for
-- each key; the final sort of the changes for the reader is left out.
use gsbm.Common.{ℕ, Bool, true, false, not, ◌&&◌, Option, none, some, List, [], ◌∷◌, ◌++◌, map}
use gsbm.Common.{◌==◌, if◌then◌else◌}
use gsbm.Writer.State.{is_none}
use gsbm.Reader.Header.{same_bytes}
use gsbm.Schema.{Text, is_empty, ref_key, TypeRef, FieldDecl, StructDecl, Schema}
use gsbm.Schema.Field.{
  Severity, safe, warning, breaking, Code, root_removed, root_added, struct_removed, struct_added,
  opaque_changed, reserved_removed, reserved_added, field_removed, field_removed_compat_write,
  field_removed_deprecated, tag_changed, field_added, compat_write_removed, whole, field, named,
  tagged, Change, change, report, flipped, classify_field,
}

-- A map whose keys are compared by `eq`: an assignment replaces the entry of its key.
unfoldable pub assign : {K V : Type 0} → (K → K → Bool) → K → V → List (K × V) → List (K × V)
assign eq k v [] = (k, v) ∷ []
assign eq k v ((l, u) ∷ m) = if eq l k then (l, v) ∷ m else (l, u) ∷ assign eq k v m

unfoldable pub find : {K V : Type 0} → (K → K → Bool) → List (K × V) → K → Option V
find eq [] k = none
find eq ((l, v) ∷ m) k = if eq l k then some v else find eq m k

-- The map that a loop fills from left to right.
unfoldable pub index :
    {A K V : Type 0} → (K → K → Bool) → (A → K) → (A → V) → List (K × V) → List A → List (K × V)
index eq key value m [] = m
index eq key value m (a ∷ as') = index eq key value (assign eq (key a) (value a) m) as'

-- indexFields
abbrev pub index_fields : List FieldDecl → List (ℕ × FieldDecl)
index_fields fs = index ◌==◌ (λ f. f.tag) (λ f. f) [] fs

-- indexFieldsByName
abbrev pub index_fields_by_name : List FieldDecl → List (Text × FieldDecl)
index_fields_by_name fs = index same_bytes (λ f. f.name) (λ f. f) [] fs

-- indexByKey
abbrev pub index_by_key : List StructDecl → List (Text × StructDecl)
index_by_key structs = index same_bytes (λ s. ref_key s.type_of) (λ s. s) [] structs

-- refKeySet
abbrev pub ref_key_set : List TypeRef → List (Text × Bool)
ref_key_set rs = index same_bytes ref_key (λ _. true) [] rs

-- uint32SliceToSet
abbrev pub tag_set : List ℕ → List (ℕ × Bool)
tag_set ts = index ◌==◌ (λ t. t) (λ _. true) [] ts

abbrev pub removed_code : FieldDecl → Code
removed_code pf =
    if pf.deprecated && pf.compat_write
    then field_removed_compat_write
    else if pf.deprecated
    then field_removed_deprecated
    else field_removed

-- One round of the loop over the previous fields.
abbrev pub previous_field : Text → ℕ → FieldDecl → Option FieldDecl → List Change
previous_field key tag pf none = change breaking (removed_code pf) (field key pf.name tag) ∷ []
previous_field key tag pf (some cf) = classify_field key tag pf cf

unfoldable pub previous_fields : Text → List (ℕ × FieldDecl) → List (ℕ × FieldDecl) → List Change
previous_fields key curr [] = []
previous_fields key curr ((tag, pf) ∷ prev) =
    previous_field key tag pf (find ◌==◌ curr tag) ++ previous_fields key curr prev

-- A field whose tag is new: its name under another tag before is a tag change.
abbrev pub new_field : Text → ℕ → FieldDecl → Option FieldDecl → List Change
new_field key tag cf none = change safe field_added (field key cf.name tag) ∷ []
new_field key tag cf (some pf) =
    if not (pf.tag == cf.tag)
    then change breaking tag_changed (named key cf.name) ∷ []
    else change safe field_added (field key cf.name tag) ∷ []

unfoldable pub new_fields :
    Text → List (ℕ × FieldDecl) → List (Text × FieldDecl) → List (ℕ × FieldDecl) → List Change
new_fields key prev by_name [] = []
new_fields key prev by_name ((tag, cf) ∷ curr) =
    let rest = new_fields key prev by_name curr in
    if is_none (find ◌==◌ prev tag)
    then new_field key tag cf (find same_bytes by_name cf.name) ++ rest
    else rest

-- The members of one set that the other lacks.
unfoldable pub missing :
    {K : Type 0} → (K → K → Bool) → (K → Change) → List (K × Bool) → List (K × Bool) → List Change
missing eq tell other [] = []
missing eq tell other ((k, b) ∷ m) =
    (if is_none (find eq other k) then tell k ∷ [] else []) ++ missing eq tell other m

-- classifyStruct
unfoldable pub classify_struct : Text → StructDecl → StructDecl → List Change
classify_struct key prev curr =
    let prev_fields = index_fields prev.fields in
    let curr_fields = index_fields curr.fields in
    let by_name = index_fields_by_name prev.fields in
    let prev_set = tag_set prev.reserved in
    let curr_set = tag_set curr.reserved in
    previous_fields key curr_fields prev_fields
    ++ (new_fields key prev_fields by_name curr_fields
        ++ (missing ◌==◌ (λ t. change breaking reserved_removed (tagged key t)) curr_set prev_set
            ++ (missing ◌==◌ (λ t. change safe reserved_added (tagged key t)) prev_set curr_set
                ++ report (flipped prev.opaque curr.opaque) warning opaque_changed (whole key))))

-- The two codes that only the operator acknowledges.
abbrev pub operator_only : Code → Bool
operator_only compat_write_removed = true
operator_only field_removed_compat_write = true
operator_only _ = false

abbrev pub is_breaking : Severity → Bool
is_breaking safe = false
is_breaking warning = false
is_breaking breaking = true

-- `add2` of Classify
abbrev pub acknowledge : Text → Change → Change
acknowledge reason ch =
    if is_empty ch.acknowledged
      && not (is_empty reason)
      && is_breaking ch.severity
      && not (operator_only ch.code)
    then record ch { acknowledged = reason }
    else ch

abbrev pub previous_struct : Text → StructDecl → Option StructDecl → List Change
previous_struct key p none = change breaking struct_removed (whole key) ∷ []
previous_struct key p (some c) = map (acknowledge c.allow_breaking) (classify_struct key p c)

unfoldable pub previous_structs : List (Text × StructDecl) → List (Text × StructDecl) → List Change
previous_structs curr [] = []
previous_structs curr ((key, p) ∷ prev) =
    previous_struct key p (find same_bytes curr key) ++ previous_structs curr prev

unfoldable pub new_structs : List (Text × StructDecl) → List (Text × StructDecl) → List Change
new_structs prev [] = []
new_structs prev ((key, c) ∷ curr) =
    report (is_none (find same_bytes prev key)) safe struct_added (whole key)
    ++ new_structs prev curr

abbrev pub higher : Severity → Severity → Severity
higher safe t = t
higher warning safe = warning
higher warning warning = warning
higher warning breaking = breaking
higher breaking t = breaking

unfoldable pub max_of : List Change → Severity
max_of [] = safe
max_of (c ∷ cs) = higher c.severity (max_of cs)

-- Diff
pub record Diff : Type 0 where
  pub changes : List Change
  pub max_severity : Severity

-- Classify
unfoldable pub classify : Schema → Schema → Diff
classify prev curr =
    let prev_roots = ref_key_set prev.roots in
    let curr_roots = ref_key_set curr.roots in
    let prev_structs = index_by_key prev.structs in
    let curr_structs = index_by_key curr.structs in
    let all =
      missing same_bytes (λ k. change breaking root_removed (whole k)) curr_roots prev_roots
      ++ (missing same_bytes (λ k. change safe root_added (whole k)) prev_roots curr_roots
          ++ (previous_structs curr_structs prev_structs
              ++ new_structs prev_structs curr_structs)) in
    record { changes = all; max_severity = max_of all }
