-- ===== src/Schema/Validate/Cycles/Graph.antt =====
-- The struct graph that the walk looks at, and an order of its structs that excludes cycles.
use gsbm.Common.{◌≡◌, ◌⊎◌, sym, ◌∙◌, none, some, inl, inr, List, [], ◌∷◌}
use mathlib.Core.Path.{subst}
use gsbm.Reader.Header.{same_bytes}
use gsbm.Schema.{Text, FieldDecl, StructDecl}
use gsbm.Schema.Classifier.{find}
use gsbm.Schema.Validate.Cycles.{live_refs}
use gsbm.Schema.Validate.Cycles.Marks.{In}

module _ (by_key : List (Text × StructDecl)) where
  -- A field of the struct `k` leads to the struct `n` and does not break cycles.
  pub record Edge (k n : Text) : Type 0 where
    pub decl : StructDecl
    pub there : find same_bytes by_key k ≡ some decl
    pub field : FieldDecl
    pub member : In field decl.fields
    pub target : In n (live_refs by_key field)

  pub data Walk : Text → Text → Type 0 where
    one : {a b : Text} → Edge a b → Walk a b
    more : {a b c : Text} → Edge a b → Walk b c → Walk a c

  -- Walked to the end, or no struct of the schema.
  abbrev pub Settled : List Text → Text → Type 0
  Settled done n = In n done ⊎ (find same_bytes by_key n ≡ none)

  -- The finished structs, the last one first: an edge leads to one that was finished before.
  abbrev pub Ordered : List Text → Type 0
  Ordered [] = Unit
  Ordered (k ∷ done) = ((n : Text) → Edge k n → Settled done n) × Ordered done

  no-Edge : (k n : Text) → find same_bytes by_key k ≡ none → Edge k n → ⊥
  no-Edge k n h e = out (sym h ∙ e.there)
    where
      out : {d : StructDecl} → none ≡ some d → ⊥
      out p = cc

  pub no_walk : (k n : Text) → find same_bytes by_key k ≡ none → Walk k n → ⊥
  no_walk k n h (one e) = no-Edge _ _ h e
  no_walk k n h (more e w) = no-Edge _ _ h e

  Edge-Settled :
      (done : List Text) (k n : Text) → Ordered done → In k done → Edge k n → Settled done n
  Edge-Settled [] k n h m e = absurd m
  Edge-Settled (d ∷ done) k n h (inl here) e = elim (h.0 n (subst (λ x. Edge x n) here e)) [
    | inl i ↦ inl (inr i)
    | inr out ↦ inr out
  ]
  Edge-Settled (d ∷ done) k n h (inr later) e = elim (Edge-Settled done k n h.1 later e) [
    | inl i ↦ inl (inr i)
    | inr out ↦ inr out
  ]

  pub walk-Settled :
      (done : List Text) (k n : Text) → Ordered done → Settled done k → Walk k n → Settled done n
  walk-Settled done k n h (inl i) (one e) = Edge-Settled done _ _ h i e
  walk-Settled done k n h (inl i) (more {b} e w) =
      walk-Settled done b n h (Edge-Settled done _ b h i e) w
  walk-Settled done k n h (inr out) w = absurd (no_walk k n out w)

  pub no_return : (done : List Text) (k : Text) → Ordered done → Settled done k → Walk k k → ⊥
  no_return done k h (inr out) w = no_walk k k out w
  no_return [] k h (inl i) w = i
  no_return (d ∷ done) k h (inl (inl e)) w =
      let round = subst (λ x. Walk x x) e w in no_return done d h.1 (first (λ n. h.0 n) round) round
    where
      first : ((n : Text) → Edge d n → Settled done n) → Walk d d → Settled done d
      first g (one s) = g _ s
      first g (more {b} s w') = walk-Settled done b d h.1 (g b s) w'
  no_return (d ∷ done) k h (inl (inr i)) w = no_return done k h.1 (inl i) w
