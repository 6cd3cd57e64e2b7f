-- ===== src/Schema/Validate/Cycles/Total.antt =====
-- The walk and its fuel: a struct is entered while it is unseen, or as a root.
use gsbm.Common.{
  ℕ, zero, suc, ◌+◌, ◌<◌, ◌≡◌, ◌≢◌, refl, Option, none, some, List, [], ◌∷◌, ◌++◌, length, arith,
}
use mathlib.Core.Path.{subst}
use gsbm.Reader.Header.{same_bytes}
use gsbm.Schema.{Text, ref_key, TypeRef, FieldDecl, StructDecl, Schema}
use gsbm.Schema.Classifier.{assign, find, index_by_key}
use gsbm.Schema.Validate.Cycles.{
  Mark, on_stack, finished, Marks, Visit, and_then, after, Descend, follow, refs_loop, live_refs,
  fields_loop, enter, dfs, roots_loop, validate_no_cycles,
}
use gsbm.Schema.Validate.Cycles.Marks.{
  Grows, assign-Grows, unseen, unseen-Grows, unseen-assign, unseen-lt-length,
}

-- The walk returned, and took no mark away.
record Ends (m : Marks) (o : Option Visit) : Type 0 where
  visit : Visit
  returns : o ≡ some visit
  grows : Grows m visit.marks

here : (m : Marks) (v : Visit) → v.marks ≡ m → Ends m (some v)
here m v e = record { visit = v; returns = refl; grows = rw e (λ k h. h) }

seq-Ends :
    (m : Marks) (o : Option Visit) (next : Marks → Option Visit)
    → Ends m o
    → ((n : Marks) → Grows m n → Ends n (next n))
    → Ends m (and_then o (λ v. and_then (next v.marks) (after v.found)))
seq-Ends m o next h k =
    let then_on = k h.visit.marks h.grows in
    record {
      visit = record { marks = then_on.visit.marks; found = h.visit.found ++ then_on.visit.found };
      returns = rw (h.returns, then_on.returns);
      grows = λ j q. then_on.grows j (h.grows j q);
    }

module _ (by_key : List (Text × StructDecl)) where
  -- What is asked of the recursive call while fewer than `b` structs are unseen.
  abbrev GoEnds : Descend → ℕ → Type 0
  GoEnds go b =
      (n : Text) (path : List Text) (edges : List FieldDecl) (m : Marks)
      → unseen by_key m < b
      → find same_bytes m n ≡ none
      → Ends m (go n path edges m)

  follow-Ends :
      (go : Descend) (b : ℕ) (h : GoEnds go b) (path : List Text) (edges : List FieldDecl)
      (fd : FieldDecl) (n : Text) (m : Marks) (o : Option Mark)
      → find same_bytes m n ≡ o
      → unseen by_key m < b
      → Ends m (follow o go path edges fd n m)
  follow-Ends go b h path edges fd n m none e lt = h n path (edges ++ fd ∷ []) m lt e
  follow-Ends go b h path edges fd n m (some on_stack) e lt = here m _ refl
  follow-Ends go b h path edges fd n m (some finished) e lt = here m _ refl

  refs_loop-Ends :
      (go : Descend) (b : ℕ) (h : GoEnds go b) (path : List Text) (edges : List FieldDecl)
      (fd : FieldDecl) (ns : List Text) (m : Marks)
      → unseen by_key m < b
      → Ends m (refs_loop go path edges fd ns m)
  unfolding refs_loop
  refs_loop-Ends go b h path edges fd [] m lt = here m _ refl
  refs_loop-Ends go b h path edges fd (n ∷ ns) m lt =
      seq-Ends m (follow (find same_bytes m n) go path edges fd n m) (refs_loop go path edges fd ns)
        (follow-Ends go b h path edges fd n m (find same_bytes m n) refl lt)
        (λ w g. refs_loop-Ends go b h path edges fd ns w (omega (arith, unseen-Grows by_key m w g)))

  fields_loop-Ends :
      (go : Descend) (b : ℕ) (h : GoEnds go b) (path : List Text) (edges fds : List FieldDecl)
      (m : Marks)
      → unseen by_key m < b
      → Ends m (fields_loop by_key go path edges fds m)
  unfolding fields_loop
  fields_loop-Ends go b h path edges [] m lt = here m _ refl
  fields_loop-Ends go b h path edges (fd ∷ fds) m lt =
      seq-Ends m (refs_loop go path edges fd (live_refs by_key fd) m)
        (fields_loop by_key go path edges fds)
        (refs_loop-Ends go b h path edges fd (live_refs by_key fd) m lt)
        (λ w g. fields_loop-Ends go b h path edges fds w (omega (arith, unseen-Grows by_key m w g)))

  enter-Ends :
      (go : Descend) (b : ℕ) (h : GoEnds go b) (key : Text) (path : List Text)
      (edges : List FieldDecl) (m : Marks) (o : Option StructDecl)
      → ((d : StructDecl) → o ≡ some d → unseen by_key (assign same_bytes key on_stack m) < b)
      → Ends m (enter by_key o go key path edges m)
  enter-Ends go b h key path edges m none lt = here m _ refl
  enter-Ends go b h key path edges m (some sd) lt =
      let inner =
        fields_loop-Ends go b h (path ++ key ∷ []) edges sd.fields
          (assign same_bytes key on_stack m) (lt sd refl) in
      record {
        visit = record inner.visit { marks = assign same_bytes key finished inner.visit.marks };
        returns = rw inner.returns;
        grows = λ j q.
            assign-Grows key finished inner.visit.marks j
              (inner.grows j (assign-Grows key on_stack m j q));
      }

  dfs-Ends : (fuel : ℕ) → GoEnds (dfs by_key fuel) fuel
  unfolding dfs
  dfs-Ends zero n path edges m lt e = absurd (omega arith)
  dfs-Ends (suc fuel) n path edges m lt e =
      enter-Ends (dfs by_key fuel) fuel (dfs-Ends fuel) n path edges m (find same_bytes by_key n)
        (λ d at. omega (arith, unseen-assign by_key m n on_stack d at e))

  root-Ends : (key : Text) (m : Marks) → Ends m (dfs by_key (suc (length by_key)) key [] [] m)
  unfolding dfs
  root-Ends key m =
      enter-Ends (dfs by_key (length by_key)) (length by_key) (dfs-Ends (length by_key)) key [] [] m
        (find same_bytes by_key key) (λ d at. unseen-lt-length by_key m key on_stack d at)

  roots_loop-Ends : (rs : List TypeRef) (m : Marks) → Ends m (roots_loop by_key rs m)
  unfolding roots_loop
  roots_loop-Ends [] m = here m _ refl
  roots_loop-Ends (r ∷ rs) m =
      seq-Ends m (dfs by_key (length by_key + 1) (ref_key r) [] [] m) (roots_loop by_key rs)
        (subst (λ f. Ends m (dfs by_key f (ref_key r) [] [] m)) (omega arith)
          (root-Ends (ref_key r) m))
        (λ w g. roots_loop-Ends rs w)

-- The search for cycles ends on every schema: the number of structs is fuel enough, also when a root
-- was reached before or is no struct of the schema.
pub validate_no_cycles_returns : (s : Schema) → validate_no_cycles s ≢ none
unfolding validate_no_cycles
validate_no_cycles_returns s e =
    let ends = roots_loop-Ends (index_by_key s.structs) s.roots [] in cc (ends.returns)
