-- ===== src/Schema/Width/Fuel.antt =====
-- The recursion of defaultIntWidthFromTypeString ends: every call is on a shorter text.
use gsbm.Common.{
  ℕ, zero, suc, ◌≤◌, ◌<◌, ◌≡◌, refl, Bool-cases, Option-cases, inl, inr, none, some, [], ◌∷◌,
  length, drop, take, length-drop, arith,
}
use gsbm.Reader.Header.{same_bytes}
use gsbm.Schema.{Text}
use gsbm.Schema.Width.{after_last, unclosed, default_width, id_text}

out_of : (a b : Text) → some a ≡ some b → a ≡ b
out_of a b e = cc

nothing : (s t : Text) → none ≡ some t → length t < length s
nothing s t e = cc

after_last-lt : (pat s t : Text) → 1 ≤ length pat → after_last pat s ≡ some t → length t < length s
unfolding after_last
after_last-lt pat [] t h e = cc
after_last-lt pat (x ∷ s) t h e = elim (Option-cases (after_last pat s)) [
  | inr (u, f) ↦
      let same : u ≡ t = out_of u t (rw f at e) in
      rw (← same) (omega (arith, after_last-lt pat s u h f))
  | inl f ↦ elim (Bool-cases (same_bytes (take (length pat) (x ∷ s)) pat)) [
    | inl hit ↦
        let same : drop (length pat) (x ∷ s) ≡ t = out_of _ t (rw (f, hit) at e) in
        rw (← same) (omega (arith, length-drop (length pat) (x ∷ s), h))
    | inr miss ↦ nothing (x ∷ s) t (rw (f, miss) at e)
  ]
]

unclosed-lt : (s t : Text) → unclosed s ≡ some t → length t < length s
unfolding unclosed
unclosed-lt [] t e = cc
unclosed-lt (x ∷ []) t e = ground arith
unclosed-lt (x ∷ y ∷ s) t e = elim (Option-cases (unclosed (y ∷ s))) [
  | inr (u, f) ↦
      let same : x ∷ u ≡ t = out_of _ t (rw f at e) in
      rw (← same) (omega (arith, unclosed-lt (y ∷ s) u f))
  | inl f ↦ nothing (x ∷ y ∷ s) t (rw f at e)
]

-- Any fuel above the length of the text gives the same width, so the length and one is enough.
pub default_width-fuel :
    (f g : ℕ) (s : Text) → length s < f → length s < g → default_width f s ≡ default_width g s
unfolding default_width
default_width-fuel zero g s h k = absurd (omega arith)
default_width-fuel (suc f) zero s h k = absurd (omega arith)
default_width-fuel (suc f) (suc g) s h k = elim (Option-cases (after_last id_text s)) [
  | inr (t, e) ↦
      let shorter = after_last-lt id_text s t (omega arith) e in
      rw e (default_width-fuel f g t (omega (arith, shorter)) (omega (arith, shorter)))
  | inl e ↦ elim (Option-cases (after_last (b'(' ∷ []) s)) [
    | inl d ↦ rw (e, d) refl
    | inr (t, d) ↦ elim (Option-cases (unclosed t)) [
      | inl c ↦ rw (e, d, c) refl
      | inr (inner, c) ↦
          let a = after_last-lt (b'(' ∷ []) s t (omega arith) d in
          let b = unclosed-lt t inner c in
          rw (e, d, c, default_width-fuel f g inner (omega (arith, a, b)) (omega (arith, a, b)))
            refl
    ]
  ]
]
