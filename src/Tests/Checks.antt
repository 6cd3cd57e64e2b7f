-- ===== src/Tests/Checks.antt =====
-- A schema of an order with items, its validation, and the gate on its change.
use gsbm.Common.{◌++◌, arith, ◌++◌, true, ◌≡◌, ◌≢◌, refl, inl, none, some, [], ◌∷◌}
use gsbm.Common.{codes, has_prefix, has_suffix, contains, cut}
use gsbm.Schema.{TypeRef, type_ref, no_refs, no_underlying, ref_key, FieldDecl, StructDecl, Schema}
use gsbm.Schema.Classifier.{assign, find, index, index_by_key}
use gsbm.Schema.Validate.{field_issues, fields_issues, validate_struct}
use gsbm.Schema.Validate.Sound.{StructIsSound, validate_struct-StructIsSound}
use gsbm.Schema.Validate.Refs.{strip_stars, collect_refs, referenced_keys}
use gsbm.Schema.Validate.Whole.{
  validate, structs_findings, cycle_findings, IsValid, validate-IsValid,
}
use gsbm.Schema.Validate.Refs.Fuel.{collect_refs-fuel}
use gsbm.Schema.Validate.Cycles.{
  Visit, finished, refs_loop, fields_loop, dfs, roots_loop, validate_no_cycles,
}
use gsbm.Schema.Validate.Cycles.Graph.{Walk}
use gsbm.Schema.Validate.Cycles.Total.{validate_no_cycles_returns}
use gsbm.Schema.Validate.Cycles.Acyclic.{validate_no_cycles_sound}
use gsbm.Schema.Validate.Cycles.Diagnostic.{to_lower, best_index, pick, is_cycle_break_name}
use gsbm.Schema.Validate.Cycles.Lowest.{IsSuggested, best_index-IsSuggested}
use gsbm.Tests.Schema.{order_type, id_field, before, old_schema}

abbrev item_type : TypeRef
item_type = type_ref [] (codes "I") no_refs no_underlying

abbrev items_field : FieldDecl
items_field = record id_field { tag = 2; shape = codes "[]I"; elem = codes "I" }

abbrev order : StructDecl
order = record before { fields = id_field ∷ items_field ∷ [] }

abbrev item : StructDecl
item = record before { type_of = item_type }

abbrev shop : Schema
shop = record old_schema { structs = order ∷ item ∷ [] }

order_is_valid : validate_struct [] order ≡ []
unfolding validate_struct field_issues fields_issues find index assign
order_is_valid = refl

validate_struct-StructIsSound_example : StructIsSound [] order
validate_struct-StructIsSound_example = validate_struct-StructIsSound [] order order_is_valid

collect_refs-fuel_example :
    collect_refs (index_by_key shop.structs) 4 (codes "[]I") []
    ≡ collect_refs (index_by_key shop.structs) 9 (codes "[]I") []
collect_refs-fuel_example =
    collect_refs-fuel (index_by_key shop.structs) 4 9 (codes "[]I") [] (omega arith) (omega arith)

validate_no_cycles_returns_example : validate_no_cycles shop ≢ none
validate_no_cycles_returns_example = validate_no_cycles_returns shop

abbrev searched : Visit
searched = record { found = []; marks = (codes "O", finished) ∷ (codes "I", finished) ∷ [] }

shop_is_searched : validate_no_cycles shop ≡ some searched
unfolding validate_no_cycles roots_loop dfs fields_loop refs_loop referenced_keys collect_refs index
    assign ref_key find strip_stars has_prefix cut
shop_is_searched = refl

validate_no_cycles_sound_example : ¬ Walk (index_by_key shop.structs) (codes "O") (codes "O")
unfolding ref_key
validate_no_cycles_sound_example =
    validate_no_cycles_sound shop searched order_type (codes "O") shop_is_searched refl (inl refl)
      (inl refl)

-- A dotted capital I
dotted_is_telling : is_cycle_break_name (codes "Prev" ++ 196 ∷ 176 ∷ codes "ous") ≡ true
unfolding is_cycle_break_name contains has_suffix has_prefix to_lower
dotted_is_telling = refl

best_is_id : best_index (items_field ∷ id_field ∷ []) ≡ 1
unfolding best_index pick is_cycle_break_name contains has_suffix to_lower
best_is_id = refl

best_index-IsSuggested_example : IsSuggested (items_field ∷ id_field ∷ [])
best_index-IsSuggested_example = best_index-IsSuggested (items_field ∷ id_field ∷ []) some_field
  where
    some_field : items_field ∷ id_field ∷ [] ≢ []
    some_field e = cc

shop_is_valid : validate [] shop ≡ some []
unfolding validate structs_findings cycle_findings validate_struct field_issues fields_issues
    validate_no_cycles roots_loop dfs fields_loop refs_loop referenced_keys collect_refs index
    assign ref_key find strip_stars has_prefix cut
shop_is_valid = refl

validate-IsValid_example : IsValid [] shop
validate-IsValid_example = validate-IsValid [] shop shop_is_valid
