-- ===== src/Varint/RoundTrip.antt =====
-- Reading back what appendUvarint wrote, patching a slot by putUvarint, and reading a cut varint.
use gsbm.Common.{
  ℕ, zero, suc, ◌+◌, ◌*◌, ◌/◌, ◌%◌, ◌^◌, ◌≤◌, ◌<◌, List, ◌∷◌, ◌++◌, ◌≡◌, refl, ap, ◌∙◌, arith,
}
use gsbm.Common.{Bool-cases, inl, inr, ltb, length, take, drop_prefix, append_assoc}
use gsbm.Errors.{ok, err, truncated}
use gsbm.Varint.{varint_len, add_group, append_uvarint, read_uvarint}
use gsbm.Varint.Encoding.{leb128, varint, append_uvarint-varint, length-varint}
use gsbm.Varint.Loops.{read_list, decode, read_uvarint-decode, add_group_lem}
use native.Mathlib.Numerals.{towards_suc}
use native.Mathlib.Nat.{div-add-mod}

pow_seven : (s : ℕ) → 2 ^ (s + 7) ≡ 128 * 2 ^ s
pow_seven s = simp towards_suc (omega arith)

-- A number is its lowest group and the rest, both shifted.
split_low : (v s : ℕ) → v * 2 ^ s ≡ v % 128 * 2 ^ s + v / 128 * 2 ^ (s + 7)
split_low v s = omega (
  arith,
  ap (λ (t : ℕ). t * 2 ^ s) (div-add-mod v 128),
  ap (λ (t : ℕ). v / 128 * t) (pow_seven s),
)

pub low_group_fits : (a r s : ℕ) → a < 2 ^ s → r < 128 → a + r * 2 ^ s < 2 ^ (s + 7)
low_group_fits a r s h k =
    let most : r * 2 ^ s ≤ 127 * 2 ^ s = grind arith in omega (arith, pow_seven s)

last_round :
    (left v i shift acc : ℕ) (rest : List ℕ)
    → v < 128
    → i ≤ 9
    → shift ≡ 7 * i
    → acc < 2 ^ shift
    → acc + v * 2 ^ shift < 2 ^ 64
    → read_list (suc left) (v ∷ rest) i shift acc ≡ ok (acc + v * 2 ^ shift, i + 1)
unfolding read_list
last_round left v i shift acc rest hv hi hs ha fits =
    ground (arith, add_group_lem acc v shift, fits_at_nine)
  where
    fits_at_nine : i ≡ 9 → v < 2
    fits_at_nine e =
        let at : shift ≡ 63 = omega arith in
        let f : acc + v * 2 ^ 63 < 2 ^ 64 = rw at at fits in omega arith

inner_round :
    (left g i shift acc : ℕ) (rest : List ℕ)
    → g < 128
    → i < 9
    → acc < 2 ^ shift
    → acc + g * 2 ^ shift < 2 ^ 64
    → read_list (suc left) ((g + 128) ∷ rest) i shift acc
      ≡ read_list left rest (i + 1) (shift + 7) (acc + g * 2 ^ shift)
unfolding read_list
inner_round left g i shift acc rest hg hi ha fits =
    ground (arith, add_group_lem acc (g + 128) shift)

read_list-leb128 :
    (k v i shift acc : ℕ) (rest : List ℕ)
    → v < 128 ^ suc k
    → i + k ≡ 9
    → shift ≡ 7 * i
    → acc < 2 ^ shift
    → acc + v * 2 ^ shift < 2 ^ 64
    → read_list (suc k) (leb128 k v ++ rest) i shift acc
      ≡ ok (acc + v * 2 ^ shift, i + length (leb128 k v))
unfolding leb128
read_list-leb128 zero v i shift acc rest hv hi hs ha fits =
    last_round zero v i shift acc rest (omega arith) (omega arith) hs ha fits
read_list-leb128 (suc k) v i shift acc rest hv hi hs ha fits = ground (
  arith,
  last_round (suc k) v i shift acc rest,
  split_low v shift,
  low_group_fits acc (v % 128) shift,
  inner_round (suc k) (v % 128) i shift acc (leb128 k (v / 128) ++ rest),
  read_list-leb128 k (v / 128) (i + 1) (shift + 7) (acc + v % 128 * 2 ^ shift) rest (omega arith),
)

-- A varint at the head of a list is read back, whatever follows.
pub decode-varint :
    (v : ℕ) (rest : List ℕ) → v < 2 ^ 64 → decode (varint v ++ rest) ≡ ok (v, varint_len v)
unfolding decode
decode-varint v rest h = ground (arith, read_list-leb128 9 v 0 0 0 rest, length-varint v h)

-- readUvarint at the old end of a slice reads back the uint64 that appendUvarint added, and consumes
-- exactly varintLen bytes, whatever stands before and behind.
pub read_uvarint-append_uvarint :
    (b rest : List ℕ) (v : ℕ)
    → v < 2 ^ 64
    → read_uvarint (append_uvarint b v ++ rest) (length b) ≡ ok (v, varint_len v)
read_uvarint-append_uvarint b rest v h =
    rw
      (
        read_uvarint-decode,
        append_uvarint-varint b v h,
        append_assoc b (varint v) rest,
        drop_prefix (length b) b (varint v ++ rest) refl,
      )
      (decode-varint v rest h)

cut_round :
    (left g i shift acc : ℕ) (rest : List ℕ)
    → g < 128
    → i < 9
    → ((s a : ℕ) → read_list left rest (i + 1) s a ≡ err truncated)
    → read_list (suc left) ((g + 128) ∷ rest) i shift acc ≡ err truncated
unfolding read_list
cut_round left g i shift acc rest hg hi ih =
    ground (arith, ih (shift + 7) (add_group acc (g + 128) shift))

read_list-cut :
    (k v m i shift acc : ℕ)
    → i + k ≡ 9
    → m < length (leb128 k v)
    → read_list (suc k) (take m (leb128 k v)) i shift acc ≡ err truncated
unfolding leb128 read_list
read_list-cut k v zero i shift acc hi h = refl
read_list-cut zero v (suc m) i shift acc hi h = absurd (omega arith)
read_list-cut (suc k) v (suc m) i shift acc hi h = elim (Bool-cases (ltb v 128)) [
  | inl small ↦ let one = rw small at h in absurd (omega arith)
  | inr big ↦
      let left = rw big at h in
      rw big (
        cut_round (suc k) (v % 128) i shift acc (take m (leb128 k (v / 128))) (omega arith)
          (omega arith)
          (λ s a. read_list-cut k (v / 128) m (i + 1) s a (omega arith) (omega arith)))
]

decode_cut : (v m : ℕ) → m < length (varint v) → decode (take m (varint v)) ≡ err truncated
unfolding decode
decode_cut v m h = read_list-cut 9 v m 0 0 0 (omega arith) h

-- A buffer that ends inside a varint is ErrTruncated at that varint, not another number.
pub read_uvarint-cut :
    (b : List ℕ) (v m : ℕ)
    → m < length (varint v)
    → read_uvarint (b ++ take m (varint v)) (length b) ≡ err truncated
read_uvarint-cut b v m h =
    read_uvarint-decode (b ++ take m (varint v)) (length b)
    ∙ rw (drop_prefix (length b) b (take m (varint v)) refl) (decode_cut v m h)
