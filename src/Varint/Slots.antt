-- ===== src/Varint/Slots.antt =====
-- putUvarint fills a slot with the wire form.
use gsbm.Common.{
  ℕ, zero, suc, ◌+◌, ◌/◌, ◌%◌, ◌^◌, ◌≤◌, ◌<◌, List, [], ◌∷◌, ◌++◌, ◌≡◌, refl, ap, sym, ◌∙◌, arith,
}
use gsbm.Common.{
  Bool-cases, inl, inr, ltb, length, length-append, set, append_assoc, bit_or, set_top_bit, lt_wf,
}
use gsbm.Varint.{varint_len, put_loop, put_uvarint}
use gsbm.Varint.Encoding.{leb128, varint, length-varint}
use mathlib.Core.WellFounded.{Acc}

length-leb128_pos : (k v : ℕ) → 1 ≤ length (leb128 k v)
unfolding leb128
length-leb128_pos zero v = omega arith
length-leb128_pos (suc k) v = ground arith

set-append : (xs : List ℕ) (s x : ℕ) (ys : List ℕ) → set (xs ++ s ∷ ys) (length xs) x ≡ xs ++ x ∷ ys
set-append [] s x ys = refl
set-append (y ∷ xs) s x ys = ap (λ t. y ∷ t) (set-append xs s x ys)

nil_of_length : (xs : List ℕ) → length xs ≡ 0 → xs ≡ []
nil_of_length [] h = refl
nil_of_length (x ∷ xs) h = absurd (omega arith)

-- The loop over any slice that splits at the index it stands at.
put_loop-leb128 :
    (k : ℕ) (b front slot back : List ℕ) (i v : ℕ) (w : Acc ◌<◌ v)
    → b ≡ front ++ (slot ++ back)
    → i ≡ length front
    → v < 128 ^ suc k
    → length slot ≡ length (leb128 k v)
    → put_loop b i v w ≡ (front ++ (leb128 k v ++ back), i + length (leb128 k v))
unfolding put_loop leb128
put_loop-leb128 k b front [] back i v w eb ei h e = absurd (omega (arith, length-leb128_pos k v))
put_loop-leb128 zero b front (s ∷ []) back i v (Acc.intro _ smaller) eb ei h e =
    rw (eb, ei) (grind (arith, set-append front s v back))
put_loop-leb128 zero b front (s ∷ t ∷ slot) back i v w eb ei h e = absurd (omega arith)
put_loop-leb128 (suc k) b front (s ∷ slot) back i v (Acc.intro _ smaller) eb ei h e =
    let g = v % 128 + 128 in
    let g_lem : bit_or (v % 256) 0x80 ≡ g = omega (arith, set_top_bit (v % 256)) in
    let wrote : set b i g ≡ (front ++ g ∷ []) ++ (slot ++ back) =
      rw (eb, ei) (set-append front s g (slot ++ back) ∙ sym (append_assoc front (g ∷ []) _)) in
    let past : i + 1 ≡ length (front ++ g ∷ []) = omega (arith, length-append front (g ∷ [])) in
    elim (Bool-cases (ltb v 128)) [
      | inl small ↦
          let alone : slot ≡ [] = nil_of_length slot (let one = rw small at e in omega arith) in
          let last : set b i v ≡ front ++ v ∷ back =
            rw (eb, ei, alone) (set-append front s v back) in
          rw small (grind (arith, last))
      | inr big ↦
          let same : length slot ≡ length (leb128 k (v / 128)) =
            let c = rw big at e in omega arith in
          let tail = append_assoc front (g ∷ []) (leb128 k (v / 128) ++ back) in
          rw big (
            grind (
              arith,
              g_lem,
              tail,
              λ (w : Acc ◌<◌ (v / 128)).
                  put_loop-leb128 k (set b i g) (front ++ g ∷ []) slot back (i + 1) (v / 128) w
                    wrote past (omega arith) same,
            ))
    ]

-- putUvarint fills a slot of the right width and leaves what stands behind it.
pub put_uvarint-varint :
    (slot back : List ℕ) (v : ℕ)
    → v < 2 ^ 64
    → length slot ≡ varint_len v
    → put_uvarint (slot ++ back) v ≡ (varint v ++ back, varint_len v)
unfolding put_uvarint
put_uvarint-varint slot back v h e =
    put_loop-leb128 9 (slot ++ back) [] slot back 0 v (lt_wf.apply v) refl refl (omega arith)
      (omega (arith, length-varint v h))
    ∙ ap (λ (n : ℕ). (varint v ++ back, n)) (omega (arith, length-varint v h))
