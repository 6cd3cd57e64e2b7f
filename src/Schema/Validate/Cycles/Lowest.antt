-- ===== src/Schema/Validate/Cycles/Lowest.antt =====
-- Which field the diagnostic of a cycle suggests.
use gsbm.Common.{
  ℕ, ◌+◌, ◌≤◌, ◌≡◌, ◌≢◌, refl, sym, Bool, true, false, inl, inr, some, List, [], ◌∷◌, ◌++◌, length,
  length-append, append_assoc, arith,
}
use gsbm.Common.{if◌then◌else◌}
use mathlib.Core.Path.{subst}
use gsbm.Schema.{FieldDecl}
use gsbm.Schema.Validate.Cycles.Marks.{In}
use gsbm.Schema.Validate.Cycles.Diagnostic.{
  is_cycle_break_name, better, pick, best_index, get_elem?,
}

-- No field of the list is a better break.
pub record IsLowest (best fd : FieldDecl) : Type 0 where
  pub tag : best.tag ≤ fd.tag
  pub name :
      best.tag ≡ fd.tag → is_cycle_break_name fd.name ≡ true → is_cycle_break_name best.name ≡ true

IsLowest-refl : (fd : FieldDecl) → IsLowest fd fd
IsLowest-refl fd = record { tag = omega arith; name = λ _ h. h }

winner : FieldDecl → FieldDecl → FieldDecl
winner fd b = if better fd b then fd else b

winner-IsLowest :
    (fd b x : FieldDecl) → IsLowest b x → IsLowest (winner fd b) x × IsLowest (winner fd b) fd
unfolding winner
winner-IsLowest fd b x h = (ground arith, ground arith)

-- The decl that the loop ends with.
final : FieldDecl → List FieldDecl → FieldDecl
final b [] = b
final b (fd ∷ fds) = final (winner fd b) fds

final-IsLowest : (fds : List FieldDecl) (b x : FieldDecl) → IsLowest b x → IsLowest (final b fds) x
unfolding final
final-IsLowest [] b x h = h
final-IsLowest (fd ∷ fds) b x h = final-IsLowest fds (winner fd b) x (winner-IsLowest fd b x h).0

final-In : (fds : List FieldDecl) (b x : FieldDecl) → In x fds → IsLowest (final b fds) x
unfolding final
final-In [] b x h = absurd h
final-In (fd ∷ fds) b x (inl here) =
    final-IsLowest fds (winner fd b) x (
      subst (λ y. IsLowest (winner fd b) y) (sym here) (winner-IsLowest fd b b (IsLowest-refl b)).1)
final-In (fd ∷ fds) b x (inr later) = final-In fds (winner fd b) x later

get_elem?-here :
    (pre : List FieldDecl) (fd : FieldDecl) (fds : List FieldDecl)
    → get_elem? (pre ++ fd ∷ fds) (length pre) ≡ some fd
get_elem?-here [] fd fds = refl
get_elem?-here (x ∷ pre) fd fds = get_elem?-here pre fd fds

pick-final :
    (pre fds : List FieldDecl) (best : ℕ) (b : FieldDecl)
    → get_elem? (pre ++ fds) best ≡ some b
    → get_elem? (pre ++ fds) (pick (length pre) best b fds) ≡ some (final b fds)
unfolding pick final winner
pick-final pre [] best b h = h
pick-final pre (fd ∷ fds) best b h =
    subst
      (λ xs.
        get_elem? xs (
          pick (length pre + 1) (if better fd b then length pre else best)
            (if better fd b then fd else b) fds)
        ≡ some (final (winner fd b) fds))
      (append_assoc pre (fd ∷ []) fds)
      (subst
        (λ (k : ℕ).
          get_elem? ((pre ++ fd ∷ []) ++ fds)
            (pick k (if better fd b then length pre else best) (if better fd b then fd else b) fds)
          ≡ some (final (winner fd b) fds))
        (length-append pre (fd ∷ []))
        (pick-final (pre ++ fd ∷ []) fds (if better fd b then length pre else best) (winner fd b) (
          subst (λ xs. get_elem? xs (if better fd b then length pre else best) ≡ some (winner fd b))
            (sym (append_assoc pre (fd ∷ []) fds)) (chosen (better fd b)))))
  where
    chosen :
        (w : Bool)
        → get_elem? (pre ++ fd ∷ fds) (if w then length pre else best) ≡ some (if w then fd else b)
    chosen true = get_elem?-here pre fd fds
    chosen false = h

-- The place that is suggested is in the list, and no field of the list is a better break.
pub record IsSuggested (edges : List FieldDecl) : Type 0 where
  pub best : FieldDecl
  pub there : get_elem? edges (best_index edges) ≡ some best
  pub lowest : (fd : FieldDecl) → In fd edges → IsLowest best fd

-- On every cycle, whose fields are never none, the index that the diagnostic suggests is in range; no
-- field of the cycle has a lower tag than the field there, and of the fields with its tag none has a
-- telling name unless it has one.
pub best_index-IsSuggested : (edges : List FieldDecl) → edges ≢ [] → IsSuggested edges
unfolding best_index
best_index-IsSuggested [] h = absurd (h refl)
best_index-IsSuggested (e ∷ edges) h = record {
  best = final e (e ∷ edges);
  there = pick-final [] (e ∷ edges) 0 e refl;
  lowest = λ fd i. final-In (e ∷ edges) e fd i;
}
