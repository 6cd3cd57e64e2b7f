-- ===== src/Varint/Encoding.antt =====
-- What appendUvarint writes, as plain arithmetic, and its length.
use gsbm.Common.{ℕ, zero, suc, ◌+◌, ◌/◌, ◌%◌, ◌^◌, ◌≤◌, ◌<◌, List, [], ◌∷◌, ◌++◌, ◌≡◌, arith}
use gsbm.Common.{ltb, if◌then◌else◌, length, append_assoc}
use gsbm.Common.{bit_or, set_top_bit, IsBytes, lt_wf}
use gsbm.Varint.{varint_len, append_loop, append_uvarint}
use mathlib.Core.WellFounded.{Acc}

-- The base-128 digits of `v`, lowest first, all but the last with the top bit set; `k` bounds the
-- digits behind the first.
unfoldable pub leb128 : ℕ → ℕ → List ℕ
leb128 zero v = v ∷ []
leb128 (suc k) v =
    let rest = leb128 k (v / 128) in if ltb v 128 then v ∷ [] else (v % 128 + 128) ∷ rest

-- The bytes of a uint64.
abbrev pub varint : ℕ → List ℕ
varint v = leb128 9 v

continuation : (v : ℕ) → bit_or (v % 256) 0x80 ≡ v % 128 + 128
continuation v = omega (arith, set_top_bit (v % 256))

append_loop-leb128 :
    (k : ℕ) (b : List ℕ) (v : ℕ) (w : Acc ◌<◌ v)
    → v < 128 ^ suc k
    → append_loop b v w ≡ b ++ leb128 k v
unfolding append_loop leb128
append_loop-leb128 zero b v (Acc.intro _ smaller) h = grind arith
append_loop-leb128 (suc k) b v (Acc.intro _ smaller) h = grind (
  arith,
  continuation v,
  λ (w : Acc ◌<◌ (v / 128)).
      append_loop-leb128 k (b ++ (v % 128 + 128) ∷ []) (v / 128) w (omega arith),
  append_assoc b ((v % 128 + 128) ∷ []) (leb128 k (v / 128)),
)

pub append_uvarint-varint : (b : List ℕ) (v : ℕ) → v < 2 ^ 64 → append_uvarint b v ≡ b ++ varint v
unfolding append_uvarint
append_uvarint-varint b v h = append_loop-leb128 9 b v (lt_wf.apply v) (omega arith)

varint_len-step :
    (v : ℕ) → v < 2 ^ 64 → varint_len v ≡ (if ltb v 128 then 1 else 1 + varint_len (v / 128))
unfolding varint_len
varint_len-step v h = ground arith

length-leb128 : (k v : ℕ) → v < 128 ^ suc k → v < 2 ^ 64 → length (leb128 k v) ≡ varint_len v
unfolding leb128
length-leb128 zero v h g = unfold varint_len in ground arith
length-leb128 (suc k) v h g = ground (arith, varint_len-step v, length-leb128 k (v / 128))

pub length-varint : (v : ℕ) → v < 2 ^ 64 → length (varint v) ≡ varint_len v
length-varint v h = length-leb128 9 v (omega arith) h

pub varint_len_bounds : (v : ℕ) → (1 ≤ varint_len v) × (varint_len v ≤ 10)
unfolding varint_len
varint_len_bounds v = ground arith

leb128-IsBytes : (k v : ℕ) → v < 128 ^ suc k → IsBytes (leb128 k v)
unfolding leb128
leb128-IsBytes zero v h = omega arith
leb128-IsBytes (suc k) v h = ground (arith, leb128-IsBytes k (v / 128))

pub varint-IsBytes : (v : ℕ) → v < 2 ^ 64 → IsBytes (varint v)
varint-IsBytes v h = leb128-IsBytes 9 v (omega arith)
