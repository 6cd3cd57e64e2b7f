-- ===== src/Schema/Gate/Fresh.antt =====
-- The changes before a struct's own justification and the operator's flag are read.
use gsbm.Common.{
  ℕ, ◌≡◌, refl, Bool, true, false, not, ◌&&◌, Option, none, some, List, [], ◌∷◌, ◌++◌,
}
use gsbm.Common.{◌==◌, if◌then◌else◌, ltb}
use gsbm.Writer.State.{is_none}
use gsbm.Reader.Header.{same_bytes}
use gsbm.Schema.Width.{effective_width}
use gsbm.Schema.{Text, is_empty, differs, TypeRef, FieldDecl, StructDecl}
use gsbm.Schema.Field.{
  Severity, Code, Subject, Change, report, when, alias_change, flattened_change, FieldState, active,
  in_compat_write, off, lifecycle_change, width_change, custom_change, cycle_change, checks, join,
  plain, override_change, classify_field,
}
use gsbm.Schema.Classifier.{
  find, previous_field, previous_fields, new_field, new_fields, missing, classify_struct,
}

abbrev pub Fresh : List Change → Type 0
Fresh [] = Unit
Fresh (c ∷ cs) = (c.acknowledged ≡ []) × Fresh cs

abbrev AllFresh : List (List Change) → Type 0
AllFresh [] = Unit
AllFresh (cs ∷ css) = Fresh cs × AllFresh css

pub Fresh-append : (xs ys : List Change) → Fresh xs → Fresh ys → Fresh (xs ++ ys)
Fresh-append [] ys h k = k
Fresh-append (x ∷ xs) ys h k = (h.0, Fresh-append xs ys h.1 k)

join-Fresh : (css : List (List Change)) → AllFresh css → Fresh (join css)
unfolding join
join-Fresh [] h = tt
join-Fresh (cs ∷ css) h = Fresh-append cs (join css) h.0 (join-Fresh css h.1)

if-Fresh : (b : Bool) (xs ys : List Change) → Fresh xs → Fresh ys → Fresh (if b then xs else ys)
if-Fresh true xs ys h k = h
if-Fresh false xs ys h k = k

report-Fresh : (b : Bool) (s : Severity) (c : Code) (x : Subject) → Fresh (report b s c x)
report-Fresh b s c x = if-Fresh b _ _ (refl, tt) tt

when-Fresh : (b : Bool) (cs : List Change) → Fresh cs → Fresh (when b cs)
when-Fresh b cs h = if-Fresh b cs [] h tt

alias_change-Fresh : (p c : Option TypeRef) (x : Subject) → Fresh (alias_change p c x)
alias_change-Fresh none none x = tt
alias_change-Fresh none (some c) x = (refl, tt)
alias_change-Fresh (some p) none x = (refl, tt)
alias_change-Fresh (some p) (some c) x = report-Fresh _ _ _ x

flattened_change-Fresh : (p c : Text) (x : Subject) → Fresh (flattened_change p c x)
flattened_change-Fresh p c x = if-Fresh (is_empty p && is_empty c) _ _ tt (
    if-Fresh (is_empty p) _ _ (refl, tt)
      (if-Fresh (is_empty c) _ _ (refl, tt) (report-Fresh _ _ _ x)))

lifecycle_change-Fresh : (p c : FieldState) (x : Subject) → Fresh (lifecycle_change p c x)
lifecycle_change-Fresh active active x = tt
lifecycle_change-Fresh active in_compat_write x = (refl, tt)
lifecycle_change-Fresh active off x = (refl, tt)
lifecycle_change-Fresh in_compat_write active x = (refl, tt)
lifecycle_change-Fresh in_compat_write in_compat_write x = tt
lifecycle_change-Fresh in_compat_write off x = (refl, tt)
lifecycle_change-Fresh off active x = (refl, tt)
lifecycle_change-Fresh off in_compat_write x = (refl, tt)
lifecycle_change-Fresh off off x = tt

width_change-Fresh : (p c : Option ℕ) (x : Subject) → Fresh (width_change p c x)
width_change-Fresh none c x = tt
width_change-Fresh (some p) none x = tt
width_change-Fresh (some p) (some c) x =
    if-Fresh (ltb p c) _ _ (refl, tt) (if-Fresh (ltb c p) _ _ (refl, tt) (refl, tt))

custom_change-Fresh : (p c : Text) (x : Subject) → Fresh (custom_change p c x)
custom_change-Fresh p c x =
    if-Fresh (is_empty p && not (is_empty c)) _ _ (refl, tt)
      (if-Fresh (not (is_empty p) && is_empty c) _ _ (refl, tt) (refl, tt))

cycle_change-Fresh : (c : Bool) (x : Subject) → Fresh (cycle_change c x)
cycle_change-Fresh c x = if-Fresh c _ _ (refl, tt) (refl, tt)

checks-AllFresh :
    (live : Bool) (pf cf : FieldDecl) (was now slot : Subject)
    → AllFresh (checks live pf cf was now slot)
unfolding checks
checks-AllFresh live pf cf was now slot = (
  report-Fresh _ _ _ was,
  (
    when-Fresh _ _ (alias_change-Fresh pf.alias_type cf.alias_type now),
    (
      when-Fresh _ _ (flattened_change-Fresh pf.flattened_from cf.flattened_from now),
      (
        report-Fresh _ _ _ was,
        (
          report-Fresh _ _ _ was,
          (
            lifecycle_change-Fresh _ _ now,
            (
              report-Fresh _ _ _ slot,
              (
                when-Fresh _ _ (cycle_change-Fresh cf.cycle_break now),
                (
                  report-Fresh _ _ _ now,
                  (
                    when-Fresh (live && (plain pf cf && differs cf.wire_override pf.wire_override))
                        (override_change pf cf now)
                        (width_change-Fresh (effective_width pf.shape pf.wire_override)
                          (effective_width cf.shape cf.wire_override) now),
                    (when-Fresh _ _ (custom_change-Fresh pf.custom cf.custom now), tt),
                  ),
                ),
              ),
            ),
          ),
        ),
      ),
    ),
  ),
)

previous_field-Fresh :
    (key : Text) (tag : ℕ) (pf : FieldDecl) (o : Option FieldDecl)
    → Fresh (previous_field key tag pf o)
unfolding classify_field
previous_field-Fresh key tag pf none = (refl, tt)
previous_field-Fresh key tag pf (some cf) = join-Fresh _ (checks-AllFresh _ pf cf _ _ _)

previous_fields-Fresh :
    (key : Text) (curr prev : List (ℕ × FieldDecl)) → Fresh (previous_fields key curr prev)
unfolding previous_fields
previous_fields-Fresh key curr [] = tt
previous_fields-Fresh key curr ((tag, pf) ∷ prev) =
    Fresh-append _ _ (previous_field-Fresh key tag pf (find ◌==◌ curr tag))
      (previous_fields-Fresh key curr prev)

new_field-Fresh :
    (key : Text) (tag : ℕ) (cf : FieldDecl) (o : Option FieldDecl) → Fresh (new_field key tag cf o)
new_field-Fresh key tag cf none = (refl, tt)
new_field-Fresh key tag cf (some pf) = if-Fresh (not (pf.tag == cf.tag)) _ _ (refl, tt) (refl, tt)

new_fields-Fresh :
    (key : Text) (prev : List (ℕ × FieldDecl)) (by_name : List (Text × FieldDecl))
    (curr : List (ℕ × FieldDecl))
    → Fresh (new_fields key prev by_name curr)
unfolding new_fields
new_fields-Fresh key prev by_name [] = tt
new_fields-Fresh key prev by_name ((tag, cf) ∷ curr) =
    let rest = new_fields-Fresh key prev by_name curr in
    if-Fresh (is_none (find ◌==◌ prev tag)) _ _
      (Fresh-append _ _ (new_field-Fresh key tag cf (find same_bytes by_name cf.name)) rest) rest

missing-Fresh :
    {K : Type 0} (eq : K → K → Bool) (tell : K → Change) (other m : List (K × Bool))
    → ((k : K) → (tell k).acknowledged ≡ [])
    → Fresh (missing eq tell other m)
unfolding missing
missing-Fresh eq tell other [] h = tt
missing-Fresh eq tell other ((k, b) ∷ m) h =
    Fresh-append _ _ (if-Fresh (is_none (find eq other k)) (tell k ∷ []) [] (h k, tt) tt)
      (missing-Fresh eq tell other m h)

pub classify_struct-Fresh :
    (key : Text) (prev curr : StructDecl) → Fresh (classify_struct key prev curr)
unfolding classify_struct
classify_struct-Fresh key prev curr = Fresh-append _ _ (previous_fields-Fresh key _ _) (
    Fresh-append _ _ (new_fields-Fresh key _ _ _) (
      Fresh-append _ _ (missing-Fresh ◌==◌ _ _ _ (λ t. refl))
        (Fresh-append _ _ (missing-Fresh ◌==◌ _ _ _ (λ t. refl)) (report-Fresh _ _ _ _))))
