-- ===== src/Varint/Loops.antt =====
-- The loops of varint.go over the list that lies behind an index.
use gsbm.Common.{ℕ, zero, suc, ◌+◌, ◌*◌, ◌%◌, ◌^◌, ◌<◌, List, [], ◌∷◌, ◌&&◌, ◌≡◌, refl}
use gsbm.Common.{ltb, leb, ◌==◌, if◌then◌else◌, length, drop, get_or, drop_all, drop-get_or, arith}
use gsbm.Common.{Bool-cases, inl, inr, leb→le, bit_and-low_mask, bit_or-low_high}
use gsbm.Errors.{Result, ok, err, truncated, varint_overflow}
use gsbm.Varint.{add_group, read_loop, read_uvarint}

-- readUvarint on what is left of the slice.
unfoldable pub read_list : ℕ → List ℕ → ℕ → ℕ → ℕ → Result (ℕ × ℕ)
read_list zero bs i shift v = err varint_overflow
read_list (suc left) [] i shift v = err truncated
read_list (suc left) (c ∷ bs) i shift v =
    let v' = add_group v c shift in
    let rest = read_list left bs (i + 1) (shift + 7) v' in
    if i == 9 && ltb 1 c then err varint_overflow else if ltb c 0x80 then ok (v', i + 1) else rest

-- A varint at the head of a list: its value and its width.
unfoldable pub decode : List ℕ → Result (ℕ × ℕ)
unfolding read_list
decode bs = read_list 10 bs 0 0 0

read_loop-read_list :
    (left : ℕ) (b : List ℕ) (pos i shift v : ℕ)
    → read_loop left b pos i shift v ≡ read_list left (drop (pos + i) b) i shift v
unfolding read_loop read_list
read_loop-read_list zero b pos i shift v = refl
read_loop-read_list (suc left) b pos i shift v = elim (Bool-cases (leb (length b) (pos + i))) [
  | inl past ↦ rw (past, drop_all (pos + i) b (leb→le _ _ past))
  | inr inside ↦
      let head = drop-get_or (pos + i) b 0 (ground arith) in
      let next : suc (pos + i) ≡ pos + (i + 1) = omega arith in
      let v' = add_group v (get_or b (pos + i) 0) shift in
      rw (inside, head, next, read_loop-read_list left b pos (i + 1) (shift + 7) v')
]

pub read_uvarint-decode : (b : List ℕ) (pos : ℕ) → read_uvarint b pos ≡ decode (drop pos b)
unfolding read_uvarint decode
read_uvarint-decode b pos =
    let start : pos + 0 ≡ pos = omega arith in rw read_loop-read_list (rw start)

-- One round on a value that lies below the shift.
pub add_group_lem :
    (v c shift : ℕ)
    → v < 2 ^ shift
    → c % 128 * 2 ^ shift < 2 ^ 64
    → add_group v c shift ≡ v + c % 128 * 2 ^ shift
add_group_lem v c shift h fits =
    ground (arith, bit_and-low_mask 7 c, bit_or-low_high shift (c % 128) v)
