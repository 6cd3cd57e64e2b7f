-- ===== src/Schema/Validate/Cycles/Acyclic.antt =====
-- The struct graph below the roots, behind a search that finds no cycle.
use gsbm.Common.{
  ℕ, zero, suc, ◌+◌, ◌≡◌, ◌⊎◌, refl, sym, ap, ◌∙◌, Bool, true, false, Option, none, some, inl, inr,
  List, [], ◌∷◌, ◌++◌, length,
}
use gsbm.Common.{if◌then◌else◌}
use mathlib.Core.Path.{subst}
use gsbm.Reader.Header.{same_bytes}
use gsbm.Intern.Retained.{same_bytes_lem}
use gsbm.Schema.{Text, ref_key, TypeRef, FieldDecl, StructDecl, Schema}
use gsbm.Schema.Classifier.{assign, find, index_by_key}
use gsbm.Schema.Compatible.{out_of_some}
use gsbm.Schema.Validate.Cycles.{
  on_stack, finished, Marks, Visit, and_then, Descend, fields_loop, leave, enter, dfs, roots_loop,
  validate_no_cycles,
}
use gsbm.Schema.Validate.Cycles.Marks.{
  same_bytes_refl, find-assign, In, In-append_left, In-append_right, In-append_cases,
}
use gsbm.Schema.Validate.Cycles.Search.{
  seq-Both, Inv, same_grown, Went, GoSettles, nothing_left, both-Went, field_targets,
  In-field_targets, fields_loop-Went,
}
use gsbm.Schema.Validate.Cycles.Graph.{Edge, Walk, Settled, walk-Settled, no_return}

module _ (by_key : List (Text × StructDecl)) where
  pushed :
      (key : Text) (m : Marks) (path done : List Text)
      → Inv by_key m path done
      → Inv by_key (assign same_bytes key on_stack m) (path ++ key ∷ []) done
  pushed key m path done h = record {
    stacked = λ k q. on (same_bytes key k) k refl (sym (find-assign key k on_stack m) ∙ q);
    settled = λ k q. off (same_bytes key k) k (sym (find-assign key k on_stack m) ∙ q);
    ordered = h.ordered;
  }
    where
      on :
          (b : Bool) (k : Text)
          → same_bytes key k ≡ b
          → (if b then some on_stack else find same_bytes m k) ≡ some on_stack
          → In k (path ++ key ∷ [])
      on true k p q = In-append_right k path (key ∷ []) (inl (sym (same_bytes_lem key k p)))
      on false k p q = In-append_left k path (key ∷ []) (h.stacked k q)

      off :
          (b : Bool) (k : Text)
          → (if b then some on_stack else find same_bytes m k) ≡ some finished
          → In k done
      off true k q = absurd (clash q)
        where
          clash : some on_stack ≡ some finished → ⊥
          clash e = cc
      off false k q = h.settled k q

  popped :
      (key : Text) (m : Marks) (path done : List Text)
      → Inv by_key m (path ++ key ∷ []) done
      → ((n : Text) → Edge by_key key n → Settled by_key done n)
      → Inv by_key (assign same_bytes key finished m) path (key ∷ done)
  popped key m path done h g = record {
    stacked = λ k q. on (same_bytes key k) k refl (sym (find-assign key k finished m) ∙ q);
    settled = λ k q. off (same_bytes key k) k refl (sym (find-assign key k finished m) ∙ q);
    ordered = (g, h.ordered);
  }
    where
      only_key : (k : Text) → same_bytes key k ≡ false → In k path ⊎ In k (key ∷ []) → In k path
      only_key k p (inl i) = i
      only_key k p (inr (inl e)) =
          let hit : same_bytes key k ≡ true =
            subst (λ x. same_bytes key x ≡ true) (sym e) (same_bytes_refl key) in
          absurd (clash (sym p ∙ hit))
        where
          clash : false ≡ true → ⊥
          clash q = cc
      only_key k p (inr (inr far)) = absurd far

      on :
          (b : Bool) (k : Text)
          → same_bytes key k ≡ b
          → (if b then some finished else find same_bytes m k) ≡ some on_stack
          → In k path
      on true k p q = absurd (clash q)
        where
          clash : some finished ≡ some on_stack → ⊥
          clash e = cc
      on false k p q = only_key k p (In-append_cases k path (key ∷ []) (h.stacked k q))

      off :
          (b : Bool) (k : Text)
          → same_bytes key k ≡ b
          → (if b then some finished else find same_bytes m k) ≡ some finished
          → In k (key ∷ done)
      off true k p q = inl (sym (same_bytes_lem key k p))
      off false k p q = inr (h.settled k q)

  Edge-target :
      (key n : Text) (sd : StructDecl)
      → find same_bytes by_key key ≡ some sd
      → Edge by_key key n
      → In n (field_targets by_key sd.fields)
  Edge-target key n sd at e =
      In-field_targets by_key sd.fields e.field n
        (subst (λ (d : StructDecl). In e.field d.fields) (out_of_some _ _ (sym e.there ∙ at))
          e.member)
        e.target

  left_with :
      (key : Text) (path done : List Text) (sd : StructDecl) (u : Visit)
      → find same_bytes by_key key ≡ some sd
      → Went by_key u (path ++ key ∷ []) done (field_targets by_key sd.fields)
      → Went by_key
          (record u { marks = assign same_bytes key finished u.marks })
          path
          done
          (key ∷ [])
  left_with key path done sd u at w = record {
    grown = record {
      later = key ∷ w.grown.later;
      inv =
          popped key u.marks path w.grown.later w.grown.inv
            (λ n e. w.reached n (Edge-target key n sd at e));
      more = λ k i. inr (w.grown.more k i);
    };
    reached = at_key;
  }
    where
      at_key : (n : Text) → In n (key ∷ []) → Settled by_key (key ∷ w.grown.later) n
      at_key n (inl e) = inl (inl e)
      at_key n (inr far) = absurd far

  enter-Went :
      (go : Descend) (h : GoSettles by_key go) (key : Text) (path : List Text)
      (edges : List FieldDecl) (m : Marks) (done : List Text) (v : Visit) (o : Option StructDecl)
      → find same_bytes by_key key ≡ o
      → Inv by_key m path done
      → enter by_key o go key path edges m ≡ some v
      → v.found ≡ []
      → Went by_key v path done (key ∷ [])
  enter-Went go h key path edges m done v none at inv q f =
      subst (λ x. Went by_key x path done (key ∷ [])) (out_of_some _ v q)
        (record { grown = same_grown by_key m path done inv; reached = absent })
    where
      absent : (n : Text) → In n (key ∷ []) → Settled by_key done n
      absent n (inl e) = inr (subst (λ x. find same_bytes by_key x ≡ none) (sym e) at)
      absent n (inr far) = absurd far
  enter-Went go h key path edges m done v (some sd) at inv q f =
      inner
        (fields_loop by_key go (path ++ key ∷ []) edges sd.fields
          (assign same_bytes key on_stack m))
        refl q
    where
      inner :
          (p : Option Visit)
          → fields_loop by_key go
              (path ++ key ∷ [])
              edges
              sd.fields
              (assign same_bytes key on_stack m)
            ≡ p
          → and_then p (leave key) ≡ some v
          → Went by_key v path done (key ∷ [])
      inner none r e = absurd (clash e)
        where
          clash : none ≡ some v → ⊥
          clash k = cc
      inner (some u) r e =
          let same = out_of_some _ v e in
          let quiet : u.found ≡ [] = ap (λ (x : Visit). x.found) same ∙ f in
          subst (λ x. Went by_key x path done (key ∷ [])) same
            (left_with key path done sd u at (
              fields_loop-Went by_key go h (path ++ key ∷ []) edges sd.fields
                (assign same_bytes key on_stack m) done u (pushed key m path done inv) r quiet))

  dfs-Went : (fuel : ℕ) → GoSettles by_key (dfs by_key fuel)
  unfolding dfs
  dfs-Went zero n path edges m done v inv q f = absurd (clash q)
    where
      clash : none ≡ some v → ⊥
      clash k = cc
  dfs-Went (suc fuel) n path edges m done v inv q f =
      enter-Went (dfs by_key fuel) (dfs-Went fuel) n path edges m done v (find same_bytes by_key n)
        refl inv q f

  root_keys : List TypeRef → List Text
  root_keys [] = []
  root_keys (r ∷ rs) = ref_key r ∷ root_keys rs

  In-root_keys : (rs : List TypeRef) (r : TypeRef) → In r rs → In (ref_key r) (root_keys rs)
  unfolding root_keys
  In-root_keys [] r h = h
  In-root_keys (x ∷ rs) r (inl e) = inl (ap ref_key e)
  In-root_keys (x ∷ rs) r (inr h) = inr (In-root_keys rs r h)

  roots_loop-Went :
      (rs : List TypeRef) (m : Marks) (done : List Text) (w : Visit)
      → Inv by_key m [] done
      → roots_loop by_key rs m ≡ some w
      → w.found ≡ []
      → Went by_key w [] done (root_keys rs)
  unfolding roots_loop root_keys
  roots_loop-Went [] m done w inv q f =
      subst (λ x. Went by_key x [] done []) (out_of_some _ w q) (nothing_left by_key m [] done inv)
  roots_loop-Went (r ∷ rs) m done w inv q f =
      let both =
        seq-Both (dfs by_key (length by_key + 1) (ref_key r) [] [] m) (roots_loop by_key rs) w q
          f in
      let a =
        dfs-Went (length by_key + 1) (ref_key r) [] [] m done both.first inv both.starts
          both.none_first in
      let b =
        roots_loop-Went rs both.first.marks a.grown.later both.second a.grown.inv both.goes_on
          both.none_second in
      both-Went by_key both.first both.second w [] done (ref_key r ∷ []) (root_keys rs) a b
        both.ends

fresh_start : (by_key : List (Text × StructDecl)) → Inv by_key [] [] []
unfolding find
fresh_start by_key = record { stacked = λ k q. cc; settled = λ k q. cc; ordered = tt }

-- When the search reports no cycle, no struct that a root leads to, the root included, leads back to
-- itself by fields that are neither id references nor under a custom codec.
pub validate_no_cycles_sound :
    (s : Schema) (v : Visit) (r : TypeRef) (k : Text)
    → validate_no_cycles s ≡ some v
    → v.found ≡ []
    → In r s.roots
    → (k ≡ ref_key r) ⊎ Walk (index_by_key s.structs) (ref_key r) k
    → ¬ Walk (index_by_key s.structs) k k
unfolding validate_no_cycles
validate_no_cycles_sound s v r k q f root below round =
    no_return by_key went.grown.later k went.grown.inv.ordered (settled below) round
  where
    by_key : List (Text × StructDecl)
    by_key = index_by_key s.structs

    went : Went by_key v [] [] (root_keys by_key s.roots)
    went = roots_loop-Went by_key s.roots [] [] v (fresh_start by_key) q f

    at_root : Settled by_key went.grown.later (ref_key r)
    at_root = went.reached (ref_key r) (In-root_keys by_key s.roots r root)

    settled : (k ≡ ref_key r) ⊎ Walk by_key (ref_key r) k → Settled by_key went.grown.later k
    settled (inl e) = subst (λ x. Settled by_key went.grown.later x) (sym e) at_root
    settled (inr w) =
        walk-Settled by_key went.grown.later (ref_key r) k went.grown.inv.ordered at_root w
