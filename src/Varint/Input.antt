-- ===== src/Varint/Input.antt =====
-- readUvarint on any input, well formed or not.
use gsbm.Common.{
  ℕ, zero, suc, ◌+◌, ◌*◌, ◌%◌, ◌^◌, ◌≤◌, ◌<◌, List, [], ◌∷◌, ◌≡◌, refl, ap, sym, ◌∙◌, arith,
}
use gsbm.Common.{Bool-cases, inl, inr, ◌==◌, length, drop, length-drop}
use gsbm.Common.{◌⊎◌}
use gsbm.Errors.{Error, ok, err, truncated, varint_overflow}
use gsbm.Varint.{varint_len, add_group, read_uvarint}
use gsbm.Varint.Loops.{read_list, decode, read_uvarint-decode, add_group_lem}
use gsbm.Varint.RoundTrip.{low_group_fits}
use native.Mathlib.Nat.{pow-le-pow_right}

-- A round keeps the value below the next shift, and below 2^64 even in the tenth byte.
round_fits :
    (i c v shift : ℕ)
    → shift ≡ 7 * i
    → i ≤ 9
    → v < 2 ^ shift
    → (i ≡ 9 → c ≤ 1)
    → (add_group v c shift < 2 ^ (shift + 7)) × (add_group v c shift < 2 ^ 64)
round_fits i c v shift hs hi hv last = elim (Bool-cases (i == 9)) [
  | inl tenth ↦
      let at : shift ≡ 63 = ground arith in
      let below : v < 2 ^ 63 = rw at at hv in
      let sum = add_group_lem v c 63 below (ground arith) in rw (at, sum) (ground arith)
  | inr early ↦
      let under = low_group_fits v (c % 128) shift hv (omega arith) in
      let top : 2 ^ (shift + 7) ≤ 2 ^ 63 =
        pow-le-pow_right {n = 2} (omega arith) {j = 63} (ground arith) in
      let sum = add_group_lem v c shift hv (omega arith) in rw sum (omega arith)
]

read_list_bounds :
    (left : ℕ) (bs : List ℕ) (i shift v u n : ℕ)
    → shift ≡ 7 * i
    → i + left ≡ 10
    → v < 2 ^ shift
    → read_list left bs i shift v ≡ ok (u, n)
    → (u < 2 ^ 64) × (u < 2 ^ (7 * n)) × (i < n) × (n ≤ 10) × (n ≤ i + length bs)
unfolding read_list
read_list_bounds zero bs i shift v u n hs hi hv e = cc
read_list_bounds (suc left) [] i shift v u n hs hi hv e = cc
read_list_bounds (suc left) (c ∷ bs) i shift v u n hs hi hv e = ground (
  arith,
  round_fits i c v shift hs (omega arith) hv,
  ap (λ (t : ℕ). 2 ^ t) next,
  read_list_bounds left bs (i + 1) (shift + 7) (add_group v c shift) u n,
)
  where
    next : shift + 7 ≡ 7 * (i + 1)
    next = omega arith

-- `v < 2 ^ (7 * n)` needs at least varintLen bytes.
pub varint_len-le : (v n : ℕ) → 1 ≤ n → n ≤ 10 → v < 2 ^ (7 * n) → varint_len v ≤ n
unfolding varint_len
varint_len-le v zero lo hi h = absurd (omega arith)
varint_len-le v (suc zero) lo hi h = ground arith
varint_len-le v (suc (suc zero)) lo hi h = ground arith
varint_len-le v (suc (suc (suc zero))) lo hi h = ground arith
varint_len-le v (suc (suc (suc (suc zero)))) lo hi h = ground arith
varint_len-le v (suc (suc (suc (suc (suc zero))))) lo hi h = ground arith
varint_len-le v (suc (suc (suc (suc (suc (suc zero)))))) lo hi h = ground arith
varint_len-le v (suc (suc (suc (suc (suc (suc (suc zero))))))) lo hi h = ground arith
varint_len-le v (suc (suc (suc (suc (suc (suc (suc (suc zero)))))))) lo hi h = ground arith
varint_len-le v (suc (suc (suc (suc (suc (suc (suc (suc (suc zero))))))))) lo hi h = ground arith
varint_len-le v (suc (suc (suc (suc (suc (suc (suc (suc (suc (suc n)))))))))) lo hi h = ground arith

pub decode_bounds :
    (bs : List ℕ) (v n : ℕ)
    → decode bs ≡ ok (v, n)
    → (v < 2 ^ 64) × (1 ≤ n) × (n ≤ 10) × (n ≤ length bs) × (varint_len v ≤ n)
unfolding decode
decode_bounds bs v n e =
    let b = read_list_bounds 10 bs 0 0 0 v n refl refl (omega arith) e in
    (b.0, omega arith, b.3, omega arith, varint_len-le v n (omega arith) b.3 b.1)

-- A successful readUvarint returns a uint64 and consumes 1 to 10 bytes, all of them inside the
-- slice, and never fewer than varintLen of the value: the writer's form is the shortest.
pub read_uvarint_bounds :
    (b : List ℕ) (pos v n : ℕ)
    → read_uvarint b pos ≡ ok (v, n)
    → (v < 2 ^ 64) × (1 ≤ n) × (n ≤ 10) × (pos + n ≤ length b) × (varint_len v ≤ n)
read_uvarint_bounds b pos v n e =
    let d = decode_bounds (drop pos b) v n (sym (read_uvarint-decode b pos) ∙ e) in
    (d.0, d.1, d.2, omega (arith, length-drop pos b), d.4)

-- readUvarint fails in two ways only.
read_list_errors :
    (left : ℕ) (bs : List ℕ) (i shift v : ℕ) (x : Error)
    → read_list left bs i shift v ≡ err x
    → (x ≡ truncated) ⊎ (x ≡ varint_overflow)
unfolding read_list
read_list_errors zero bs i shift v x e = ground arith
read_list_errors (suc left) [] i shift v x e = ground arith
read_list_errors (suc left) (c ∷ bs) i shift v x e =
    ground (arith, read_list_errors left bs (i + 1) (shift + 7) (add_group v c shift) x)

pub decode_errors :
    (bs : List ℕ) (x : Error) → decode bs ≡ err x → (x ≡ truncated) ⊎ (x ≡ varint_overflow)
unfolding decode
decode_errors bs x e = read_list_errors 10 bs 0 0 0 x e
