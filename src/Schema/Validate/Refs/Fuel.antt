-- ===== src/Schema/Validate/Refs/Fuel.antt =====
-- Every recursive call of collectRefs is on a shorter text.
use gsbm.Common.{
  ℕ, zero, suc, ◌+◌, ◌-◌, ◌≤◌, ◌<◌, ◌≡◌, refl, ap, ◌∙◌, Bool-cases, false, inl, inr, Option, none,
  some, List, [], ◌∷◌, length, take, drop, length-take, length-drop, arith,
}
use gsbm.Common.{cut}
use gsbm.Schema.{Text, is_empty, StructDecl}
use gsbm.Schema.Validate.Refs.{
  match_bracket, strip_stars, map_parts, array_part, shape_refs, collect_refs,
}

strip_stars-le : (s : Text) → length (strip_stars s) ≤ length s
unfolding strip_stars
strip_stars-le [] = omega arith
strip_stars-le (c ∷ s) = ground (arith, strip_stars-le s)

cut-lt : (sep : ℕ) (s rest : Text) → (cut sep s).1 ≡ some rest → length rest < length s
unfolding cut
cut-lt sep [] rest e = cc
cut-lt sep (c ∷ s) rest e = ground (arith, cut-lt sep s rest)

abbrev AgreeBelow : ℕ → (Text → List Text → List Text) → (Text → List Text → List Text) → Type 0
AgreeBelow n go stay = (s : Text) (out : List Text) → length s < n → go s out ≡ stay s out

map_parts-agree :
    (o : Option ℕ) (t : Text) (go stay : Text → List Text → List Text) (out : List Text)
    → is_empty t ≡ false
    → AgreeBelow (length t) go stay
    → map_parts o t go out ≡ map_parts o t stay out
map_parts-agree none t go stay out h k = refl
map_parts-agree (some close) [] go stay out h k = cc
map_parts-agree (some close) (c ∷ t) go stay out h k =
    let key = take (close - 4) (drop 4 (c ∷ t)) in
    k (drop (close + 1) (c ∷ t)) (go key out) (omega (arith, length-drop (close + 1) (c ∷ t)))
    ∙ ap (λ o. stay (drop (close + 1) (c ∷ t)) o)
        (k key out (omega (arith, length-take (close - 4) (drop 4 (c ∷ t)), length-drop 4 (c ∷ t))))

array_part-agree :
    (o : Option Text) (n : ℕ) (go stay : Text → List Text → List Text) (out : List Text)
    → ((rest : Text) → o ≡ some rest → length rest < n)
    → AgreeBelow n go stay
    → array_part o go out ≡ array_part o stay out
array_part-agree none n go stay out h k = refl
array_part-agree (some rest) n go stay out h k = k rest out (h rest refl)

-- collectRefs finds the same structs whatever the fuel, once it exceeds the length of the shape: the
-- model's bound never cuts the search short.
pub collect_refs-fuel :
    (by_key : List (Text × StructDecl)) (f g : ℕ) (shape : Text) (out : List Text)
    → length shape < f
    → length shape < g
    → collect_refs by_key f shape out ≡ collect_refs by_key g shape out
unfolding collect_refs
collect_refs-fuel by_key zero g shape out h k = absurd (omega arith)
collect_refs-fuel by_key (suc f) zero shape out h k = absurd (omega arith)
collect_refs-fuel by_key (suc f) (suc g) shape out h k = at (λ s o lt.
    collect_refs-fuel by_key f g s o (omega (arith, strip_stars-le shape))
      (omega (arith, strip_stars-le shape)))
  where
    t : Text
    t = strip_stars shape

    go : Text → List Text → List Text
    go s o = collect_refs by_key f s o

    stay : Text → List Text → List Text
    stay s o = collect_refs by_key g s o

    at : AgreeBelow (length t) go stay → shape_refs by_key go t out ≡ shape_refs by_key stay t out
    at agree = elim (Bool-cases (is_empty t)) [
      | inl e ↦ rw e
      | inr e ↦ rw e (
          rw (
            map_parts-agree (match_bracket t 3) t go stay out e agree,
            array_part-agree (cut b']' t).1 (length t) go stay out (λ r q. cut-lt b']' t r q) agree,
          ))
    ]
