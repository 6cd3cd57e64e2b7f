-- ===== src/Schema/Build/Keeps.antt =====
-- What fillTypeShape leaves of a field that the tag has described.
use gsbm.Common.{◌≡◌, Bool, true, false, some, arith}
use gsbm.Common.{if◌then◌else◌}
use gsbm.Schema.{Text, FieldDecl}
use gsbm.Schema.GoTypes.{GoType, GoTypes, basic, named, slice, map_type, pointer, is_basic_byte}
use gsbm.Schema.GoTypes.Shape.{fill_type_shape, described, alias_type_ref}

-- The field has what the tag said.
pub record Keeps (fd gd : FieldDecl) : Type 0 where
  pub name : gd.name ≡ fd.name
  pub tag : gd.tag ≡ fd.tag
  pub deprecated : gd.deprecated ≡ fd.deprecated
  pub compat_write : gd.compat_write ≡ fd.compat_write
  pub cycle_break : gd.cycle_break ≡ fd.cycle_break
  pub custom : gd.custom ≡ fd.custom

pub Keeps-trans : (a b c : FieldDecl) → Keeps a b → Keeps b c → Keeps a c
Keeps-trans a b c h k = ground arith

if-Keeps : (b : Bool) (fd x y : FieldDecl) → Keeps fd x → Keeps fd y → Keeps fd (if b then x else y)
if-Keeps true fd x y h k = h
if-Keeps false fd x y h k = k

module _ (type_string : GoType → Text) where
  described-Keeps : (fd : FieldDecl) (t : GoType) → Keeps fd (described type_string fd t)
  described-Keeps fd (slice e) = ground arith
  described-Keeps fd (map_type k v) = ground arith
  described-Keeps fd (basic k n) = ground arith
  described-Keeps fd t = ground arith

  abbrev aliased : FieldDecl → Text → Text → Bool → GoTypes → GoType → FieldDecl
  aliased fd pkg name x args e = record fd {
    alias_type = some (alias_type_ref type_string (named pkg name x args (slice e)) e);
  }

  pub named-Keeps : (fd : FieldDecl) (t : GoType) → Keeps fd (fill_type_shape type_string fd t)
  unfolding fill_type_shape
  named-Keeps fd (pointer (named pkg name x args (slice e))) =
      if-Keeps (is_basic_byte e) fd _ _
        (Keeps-trans fd (record fd { optional = true }) _ (ground arith)
          (described-Keeps (record fd { optional = true }) (named pkg name x args (slice e))))
        (Keeps-trans fd (aliased (record fd { optional = true }) pkg name x args e) _ (ground arith)
          (described-Keeps (aliased (record fd { optional = true }) pkg name x args e) (slice e)))
  named-Keeps fd (pointer (named pkg name x args u)) = ground arith
  named-Keeps fd (pointer t) = ground arith
  named-Keeps fd (named pkg name x args (slice e)) =
      if-Keeps (is_basic_byte e) fd _ _ (described-Keeps fd (named pkg name x args (slice e))) (
        Keeps-trans fd (aliased fd pkg name x args e) _ (ground arith)
          (described-Keeps (aliased fd pkg name x args e) (slice e)))
  named-Keeps fd (named pkg name x args u) = ground arith
  named-Keeps fd t = ground arith
