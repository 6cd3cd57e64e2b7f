-- ===== src/Pool/Apart.antt =====
-- Slices of a bump allocator are inside their chunk and never overlap.
use gsbm.Common.{
  ℕ, ◌+◌, ◌*◌, ◌^◌, ◌%◌, ◌≤◌, ◌<◌, max, ◌≡◌, ◌⊎◌, refl, sym, inl, inr, Bool-cases, ◌||◌, Option,
  none, some, List, [], ◌∷◌, length, length-append, arith,
}
use gsbm.Common.{ltb, ◌==◌, if◌then◌else◌, ℤ, pos, negsuc}
use native.Mathlib.Nat.{mul-le-mul_right}
use gsbm.Reader.State.{Reader}
use gsbm.Pool.{
  Bump, Slice, with_room, bump, TypedPool, default_chunk_cap, alloc, make_slice,
  max_slice_alloc_bytes,
}

-- The slice lies behind everything that the allocator has handed out.
Beyond : Bump → Slice → Type 0
Beyond p s = (length p.chunks < s.chunk) ⊎ ((s.chunk ≡ length p.chunks) × (p.used ≤ s.at))

-- Of two slices, the second in a later chunk or behind the first in the same chunk.
abbrev pub Before : Slice → Slice → Type 0
Before s t = (s.chunk < t.chunk) ⊎ ((s.chunk ≡ t.chunk) × (s.at + s.len ≤ t.at))

record Bumped (n : ℕ) (p : Bump) (o : Slice × Bump) : Type 0 where
  pub fits : o.0.at + n ≤ o.0.of_len
  pub len : o.0.len ≡ n
  pub fresh : Beyond p o.0
  pub later : (s : Slice) → Beyond o.1 s → Before o.0 s × Beyond p s

bump-Bumped : (chunk_len n : ℕ) (p : Bump) → Bumped n p (bump chunk_len n p)
unfolding bump with_room Beyond
bump-Bumped chunk_len n p = elim (Bool-cases (ltb p.cur (p.used + n))) [
  | inl full ↦ rw full (record {
    fits = omega arith;
    len = refl;
    fresh = inl (omega (arith, length-append p.chunks (max chunk_len n ∷ [])));
    later = λ s b. elim b [
      | inl c ↦ (inl c, inl (omega (arith, length-append p.chunks (max chunk_len n ∷ []))))
      | inr c ↦ (
        inr (sym c.0, omega (arith, c.1)),
        inl (omega (arith, c.0, length-append p.chunks (max chunk_len n ∷ []))),
      )
    ];
  })
  | inr room ↦ rw room (record {
    fits = ground arith;
    len = refl;
    fresh = inr (refl, omega arith);
    later = λ s b. elim b [
      | inl c ↦ (inl c, inl c)
      | inr c ↦ (inr (sym c.0, c.1), inr (c.0, omega (arith, c.1)))
    ];
  })
]

-- The slices of one pool, in order, nil ones left out.
abbrev kept : Option Slice → List Slice → List Slice
kept none ss = ss
kept (some s) ss = s ∷ ss

unfoldable pub alloc_all : List ℤ → TypedPool → List Slice × TypedPool
alloc_all [] p = ([], p)
alloc_all (n ∷ ns) p = let o = alloc p n in let rest = alloc_all ns o.1 in (kept o.0 rest.0, rest.1)

abbrev AllBehind : Slice → List Slice → Type 0
AllBehind s [] = Unit
AllBehind s (t ∷ ts) = Before s t × AllBehind s ts

-- Every slice lies inside the chunk that it is cut from, and before all that are handed out later.
abbrev pub Apart : List Slice → Type 0
Apart [] = Unit
Apart (s ∷ ss) = (s.at + s.len ≤ s.of_len) × AllBehind s ss × Apart ss

abbrev AllBeyond : Bump → List Slice → Type 0
AllBeyond p [] = Unit
AllBeyond p (s ∷ ss) = Beyond p s × AllBeyond p ss

record Given (p : Bump) (ss : List Slice) : Type 0 where
  pub beyond : AllBeyond p ss
  pub apart : Apart ss

later_all :
    (n : ℕ) (p : Bump) (o : Slice × Bump) (ss : List Slice)
    → Bumped n p o
    → AllBeyond o.1 ss
    → AllBehind o.0 ss × AllBeyond p ss
later_all n p o [] b h = (tt, tt)
later_all n p o (s ∷ ss) b h =
    let (x, y) = b.later s h.0 in let (xs, ys) = later_all n p o ss b h.1 in ((x, xs), (y, ys))

Bumped-Given :
    (n : ℕ) (p : Bump) (o : Slice × Bump) (ss : List Slice)
    → Bumped n p o
    → Given o.1 ss
    → Given p (o.0 ∷ ss)
Bumped-Given n p o ss b g =
    let (behind, beyond) = later_all n p o ss b g.beyond in
    record { beyond = (b.fresh, beyond); apart = (omega (arith, b.fits, b.len), behind, g.apart) }

alloc_one :
    (n : ℤ) (ss : List Slice) (p : TypedPool)
    → Given (alloc p n).1.memory ss
    → Given p.memory (kept (alloc p n).0 ss)
unfolding alloc
alloc_one (negsuc n) ss p g = g
alloc_one (pos n) ss p g = elim (Bool-cases (n == 0)) [
  | inl z ↦ rw z (rw z at g)
  | inr more ↦
      let cap = if p.chunk_cap == 0 then default_chunk_cap else p.chunk_cap in
      rw more (
        Bumped-Given n p.memory (bump cap n p.memory) ss (bump-Bumped cap n p.memory)
          (rw more at g))
]

alloc_all-Given : (ns : List ℤ) (p : TypedPool) → Given p.memory (alloc_all ns p).0
unfolding alloc_all
alloc_all-Given [] p = record { beyond = tt; apart = tt }
alloc_all-Given (n ∷ ns) p =
    alloc_one n (alloc_all ns (alloc p n).1).0 p (alloc_all-Given ns (alloc p n).1)

-- Whatever lengths are asked of a pool, and in whatever state it starts, every slice lies inside the
-- chunk that it is cut from and no two of them overlap: each is in a later chunk than the ones handed
-- out before, or behind them in the same chunk.
pub alloc_all-Apart : (ns : List ℤ) (p : TypedPool) → Apart (alloc_all ns p).0
alloc_all-Apart ns p = (alloc_all-Given ns p).apart

none_not : (n : ℕ) → none ≡ some n → ⊥
none_not n e = cc

out_of : (k n : ℕ) → some k ≡ some n → k ≡ n
out_of k n e = cc

-- No wrap-around below the bounds.
product_fits : (n size : ℕ) → n ≤ 2 ^ 24 → size < 2 ^ 40 → n * size % 2 ^ 64 ≡ n * size
product_fits n size h k = omega (arith, mul-le-mul_right size h, k)

-- What MakeSlice lets through is the length it was asked for, which takes at most 16 MiB when an
-- element's size is below 2^40, and the Reader is left as it is.
pub make_slice-budget :
    (r : Reader) (size k n : ℕ)
    → size < 2 ^ 40
    → (make_slice r size (pos k)).0 ≡ some n
    → (k ≡ n) × (n * size ≤ 2 ^ 24) × ((make_slice r size (pos k)).1 ≡ r)
unfolding make_slice
make_slice-budget r size k n h e = elim (Bool-cases (k == 0)) [
  | inl z ↦ absurd (none_not n (rw z at e))
  | inr more ↦
      let large = ltb max_slice_alloc_bytes k || ltb max_slice_alloc_bytes (k * size % 2 ^ 64) in
      elim (Bool-cases large) [
        | inl over ↦ absurd (none_not n (rw (more, over) at e))
        | inr fits ↦
            let same : k ≡ n = out_of k n (rw (more, fits) at e) in
            let small : k ≤ 2 ^ 24 = ground arith in
            rw (more, fits, ← same) (refl, ground (arith, product_fits k size small h), refl)
      ]
]
