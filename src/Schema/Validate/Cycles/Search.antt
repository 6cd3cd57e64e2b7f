-- ===== src/Schema/Validate/Cycles/Search.antt =====
-- What the loops of the search reach while they find no cycle.
use gsbm.Common.{
  ℕ, ◌+◌, ◌≡◌, ◌≢◌, refl, sym, ap, ◌∙◌, Bool, true, false, Option, none, some, inl, inr, List, [],
  ◌∷◌, ◌++◌,
}
use gsbm.Common.{if◌then◌else◌}
use mathlib.Core.Path.{subst}
use gsbm.Reader.Header.{same_bytes}
use gsbm.Schema.{Text, FieldDecl, StructDecl}
use gsbm.Schema.Classifier.{find}
use gsbm.Schema.Compatible.{out_of_some}
use gsbm.Schema.Validate.Cycles.{
  Mark, on_stack, finished, Marks, Visit, and_then, after, index_of, cycle_at, Descend, follow,
  refs_loop, live_refs, fields_loop,
}
use gsbm.Schema.Validate.Cycles.Marks.{
  same_bytes_refl, In, In-append_left, In-append_right, In-append_cases,
}
use gsbm.Schema.Validate.Cycles.Graph.{Settled, Ordered}

-- Two steps of a loop, neither of which found a cycle.
pub record Both (o : Option Visit) (next : Marks → Option Visit) (w : Visit) : Type 0 where
  pub first : Visit
  pub second : Visit
  pub starts : o ≡ some first
  pub goes_on : next first.marks ≡ some second
  pub none_first : first.found ≡ []
  pub none_second : second.found ≡ []
  pub ends : w.marks ≡ second.marks

pub nil_parts : {A : Type 0} (xs ys : List A) → xs ++ ys ≡ [] → (xs ≡ []) × (ys ≡ [])
nil_parts [] ys e = (refl, e)
nil_parts (x ∷ xs) ys e = absurd (clash e)
  where
    clash : x ∷ (xs ++ ys) ≡ [] → ⊥
    clash p = cc

pub seq-Both :
    (o : Option Visit) (next : Marks → Option Visit) (w : Visit)
    → and_then o (λ v. and_then (next v.marks) (after v.found)) ≡ some w
    → w.found ≡ []
    → Both o next w
seq-Both none next w e f = absurd (clash e)
  where
    clash : none ≡ some w → ⊥
    clash p = cc
seq-Both (some v) next w e f = inner (next v.marks) refl e
  where
    inner :
        (p : Option Visit)
        → next v.marks ≡ p
        → and_then p (after v.found) ≡ some w
        → Both (some v) next w
    inner none q e = absurd (clash e)
      where
        clash : none ≡ some w → ⊥
        clash p = cc
    inner (some u) q e =
        let same = out_of_some _ w e in
        let (a, b) = nil_parts v.found u.found (ap (λ (x : Visit). x.found) same ∙ f) in
        record {
          first = v;
          second = u;
          starts = refl;
          goes_on = q;
          none_first = a;
          none_second = b;
          ends = sym (ap (λ (x : Visit). x.marks) same);
        }

index_of-ne-none : (n : Text) (path : List Text) → In n path → index_of n path ≢ none
unfolding index_of
index_of-ne-none n [] h e = h
index_of-ne-none n (p ∷ ps) (inl h) e =
    clash 0 (rw (subst (λ x. same_bytes x n ≡ true) h (same_bytes_refl n)) at e)
  where
    clash : (i : ℕ) → some i ≡ none → ⊥
    clash i k = cc
index_of-ne-none n (p ∷ ps) (inr h) e =
    at (same_bytes p n) (index_of n ps) (index_of-ne-none n ps h) e
  where
    at :
        (b : Bool) (o : Option ℕ)
        → o ≢ none
        → (if b then some 0 else elim o [ none ↦ none | some i ↦ some (i + 1) ]) ≡ none
        → ⊥
    at true o k q = cc
    at false none k q = k refl
    at false (some i) k q = cc

module _ (by_key : List (Text × StructDecl)) where
  -- The path holds every struct on the stack, and `done` is the order in which the others were left.
  pub record Inv (m : Marks) (path done : List Text) : Type 0 where
    pub stacked : (k : Text) → find same_bytes m k ≡ some on_stack → In k path
    pub settled : (k : Text) → find same_bytes m k ≡ some finished → In k done
    pub ordered : Ordered by_key done

  pub record Grown (m : Marks) (path done : List Text) : Type 0 where
    pub later : List Text
    pub inv : Inv m path later
    pub more : (k : Text) → In k done → In k later

  pub still-Settled :
      (done later : List Text) (n : Text)
      → ((k : Text) → In k done → In k later)
      → Settled by_key done n
      → Settled by_key later n
  still-Settled done later n h (inl i) = inl (h n i)
  still-Settled done later n h (inr out) = inr out

  -- A visit that found nothing went on from `m` to the end of each of `ns`.
  pub record Went (v : Visit) (path done ns : List Text) : Type 0 where
    pub grown : Grown v.marks path done
    pub reached : (n : Text) → In n ns → Settled by_key grown.later n

  abbrev pub GoSettles : Descend → Type 0
  GoSettles go =
      (n : Text) (path : List Text) (edges : List FieldDecl) (m : Marks) (done : List Text)
      (v : Visit)
      → Inv m path done
      → go n path edges m ≡ some v
      → v.found ≡ []
      → Went v path done (n ∷ [])

  abbrev pub same_grown : (m : Marks) (path done : List Text) → Inv m path done → Grown m path done
  same_grown m path done h = record { later = done; inv = h; more = λ k i. i }

  pub nothing_left :
      (m : Marks) (path done : List Text)
      → Inv m path done
      → Went (record { marks = m; found = [] }) path done []
  nothing_left m path done h = record {
    grown = same_grown m path done h;
    reached = λ n i. absurd i;
  }

  -- What two steps reach, one after the other.
  pub both-Went :
      (v u w : Visit) (path done ns ms : List Text) (a : Went v path done ns)
      → Went u path a.grown.later ms
      → w.marks ≡ u.marks
      → Went w path done (ns ++ ms)
  both-Went v u w path done ns ms a b e = record {
    grown = record {
      later = b.grown.later;
      inv = subst (λ m. Inv m path b.grown.later) (sym e) b.grown.inv;
      more = λ k i. b.grown.more k (a.grown.more k i);
    };
    reached = λ n i. elim (In-append_cases n ns ms i) [
      | inl l ↦ still-Settled a.grown.later b.grown.later n b.grown.more (a.reached n l)
      | inr r ↦ b.reached n r
    ];
  }

  follow-Went :
      (go : Descend) (h : GoSettles go) (path : List Text) (edges : List FieldDecl) (fd : FieldDecl)
      (n : Text) (m : Marks) (done : List Text) (v : Visit) (o : Option Mark)
      → find same_bytes m n ≡ o
      → Inv m path done
      → follow o go path edges fd n m ≡ some v
      → v.found ≡ []
      → Went v path done (n ∷ [])
  follow-Went go h path edges fd n m done v none e inv q f =
      h n path (edges ++ fd ∷ []) m done v inv q f
  follow-Went go h path edges fd n m done v (some on_stack) e inv q f = absurd (
      index_found (index_of n path) (index_of-ne-none n path (inv.stacked n e))
        (ap (λ (x : Visit). x.found) (out_of_some _ v q) ∙ f))
    where
      index_found : (o : Option ℕ) → o ≢ none → cycle_at o path edges fd ≡ [] → ⊥
      index_found none k p = k refl
      index_found (some i) k p = cc
  follow-Went go h path edges fd n m done v (some finished) e inv q f =
      subst (λ x. Went x path done (n ∷ [])) (out_of_some _ v q) reached_before
    where
      settled : (k : Text) → In k (n ∷ []) → Settled by_key done k
      settled k (inl here) = inl (subst (λ x. In x done) (sym here) (inv.settled n e))
      settled k (inr far) = absurd far

      reached_before : Went (record { marks = m; found = [] }) path done (n ∷ [])
      reached_before = record { grown = same_grown m path done inv; reached = settled }

  refs_loop-Went :
      (go : Descend) (h : GoSettles go) (path : List Text) (edges : List FieldDecl) (fd : FieldDecl)
      (ns : List Text) (m : Marks) (done : List Text) (w : Visit)
      → Inv m path done
      → refs_loop go path edges fd ns m ≡ some w
      → w.found ≡ []
      → Went w path done ns
  unfolding refs_loop
  refs_loop-Went go h path edges fd [] m done w inv q f =
      subst (λ x. Went x path done []) (out_of_some _ w q) (nothing_left m path done inv)
  refs_loop-Went go h path edges fd (n ∷ ns) m done w inv q f =
      let both =
        seq-Both (follow (find same_bytes m n) go path edges fd n m) (refs_loop go path edges fd ns)
          w q f in
      let a =
        follow-Went go h path edges fd n m done both.first (find same_bytes m n) refl inv
          both.starts both.none_first in
      let b =
        refs_loop-Went go h path edges fd ns both.first.marks a.grown.later both.second a.grown.inv
          both.goes_on both.none_second in
      both-Went both.first both.second w path done (n ∷ []) ns a b both.ends

  -- The structs that the fields lead to.
  abbrev pub field_targets : List FieldDecl → List Text
  field_targets [] = []
  field_targets (fd ∷ fds) = live_refs by_key fd ++ field_targets fds

  pub In-field_targets :
      (fds : List FieldDecl) (fd : FieldDecl) (n : Text)
      → In fd fds
      → In n (live_refs by_key fd)
      → In n (field_targets fds)
  In-field_targets [] fd n h i = absurd h
  In-field_targets (x ∷ fds) fd n (inl here) i =
      In-append_left n (live_refs by_key x) (field_targets fds)
        (subst (λ f. In n (live_refs by_key f)) here i)
  In-field_targets (x ∷ fds) fd n (inr later) i =
      In-append_right n (live_refs by_key x) (field_targets fds) (In-field_targets fds fd n later i)

  pub fields_loop-Went :
      (go : Descend) (h : GoSettles go) (path : List Text) (edges fds : List FieldDecl) (m : Marks)
      (done : List Text) (w : Visit)
      → Inv m path done
      → fields_loop by_key go path edges fds m ≡ some w
      → w.found ≡ []
      → Went w path done (field_targets fds)
  unfolding fields_loop
  fields_loop-Went go h path edges [] m done w inv q f =
      subst (λ x. Went x path done []) (out_of_some _ w q) (nothing_left m path done inv)
  fields_loop-Went go h path edges (fd ∷ fds) m done w inv q f =
      let both =
        seq-Both (refs_loop go path edges fd (live_refs by_key fd) m)
          (fields_loop by_key go path edges fds) w q f in
      let a =
        refs_loop-Went go h path edges fd (live_refs by_key fd) m done both.first inv both.starts
          both.none_first in
      let b =
        fields_loop-Went go h path edges fds both.first.marks a.grown.later both.second a.grown.inv
          both.goes_on both.none_second in
      both-Went both.first both.second w path done (live_refs by_key fd) (field_targets fds) a b
        both.ends
