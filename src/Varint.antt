-- ===== src/Varint.antt =====
-- storage/gsbm/varint.go: LEB128 varints. A byte slice is a list of numbers, a uint64 is a number.
pub mod Encoding
pub mod Loops
pub mod RoundTrip
pub mod Slots
pub mod Input
use gsbm.Common.{ℕ, zero, suc, ◌+◌, ◌*◌, ◌/◌, ◌%◌, ◌^◌, ◌≤◌, ◌<◌, List, [], ◌∷◌, ◌++◌, ◌&&◌, arith}
use gsbm.Common.{bit_or, bit_and, ltb, leb, ◌==◌, if◌then◌else◌, length, get_or, set, lt_wf}
use gsbm.Errors.{Result, ok, err, truncated, varint_overflow}
use mathlib.Core.Logic.{dite}
use mathlib.Core.WellFounded.{Acc}
use native.Mathlib.Decide.{dec_le}

-- varintLen
unfoldable pub varint_len : ℕ → ℕ
varint_len v =
    if ltb v (2 ^ 7)
    then 1
    else if ltb v (2 ^ 14)
    then 2
    else if ltb v (2 ^ 21)
    then 3
    else if ltb v (2 ^ 28)
    then 4
    else if ltb v (2 ^ 35)
    then 5
    else if ltb v (2 ^ 42)
    then 6
    else if ltb v (2 ^ 49)
    then 7
    else if ltb v (2 ^ 56)
    then 8
    else if ltb v (2 ^ 63)
    then 9
    else 10

pub shift_shrinks : (v : ℕ) → 0x80 ≤ v → v / 128 < v
shift_shrinks v h = omega arith

-- The loop of appendUvarint: `byte(v)` is `v % 256` and `v >>= 7` is `v / 128`.
append_loop : List ℕ → (v : ℕ) → Acc ◌<◌ v → List ℕ
append_loop b v (Acc.intro _ smaller) =
    dite (dec_le 0x80 v)
      (λ more.
        append_loop (b ++ bit_or (v % 256) 0x80 ∷ []) (v / 128) (smaller _ (shift_shrinks v more)))
      (λ _. b ++ v % 256 ∷ [])

unfoldable pub append_uvarint : List ℕ → ℕ → List ℕ
unfolding append_loop lt_wf
append_uvarint b v = append_loop b v (lt_wf.apply v)

-- The loop of putUvarint, at index `i`. A write past the end, where Go panics, is dropped.
put_loop : List ℕ → ℕ → (v : ℕ) → Acc ◌<◌ v → List ℕ × ℕ
put_loop b i v (Acc.intro _ smaller) =
    dite (dec_le 0x80 v)
      (λ more.
        put_loop (set b i (bit_or (v % 256) 0x80)) (i + 1) (v / 128)
          (smaller _ (shift_shrinks v more)))
      (λ _. (set b i (v % 256), i + 1))

-- The slice that the function writes, and the count that it returns.
unfoldable pub put_uvarint : List ℕ → ℕ → List ℕ × ℕ
unfolding put_loop lt_wf
put_uvarint b v = put_loop b 0 v (lt_wf.apply v)

-- `v |= uint64(c&0x7f) << shift`
abbrev pub add_group : ℕ → ℕ → ℕ → ℕ
add_group v c shift = bit_or v (bit_and c 0x7f * 2 ^ shift % 2 ^ 64)

-- The loop of readUvarint in round `i`, with `left` rounds to go.
read_loop : ℕ → List ℕ → ℕ → ℕ → ℕ → ℕ → Result (ℕ × ℕ)
read_loop zero b pos i shift v = err varint_overflow
read_loop (suc left) b pos i shift v =
    let c = get_or b (pos + i) 0 in
    let v' = add_group v c shift in
    let rest = read_loop left b pos (i + 1) (shift + 7) v' in
    if leb (length b) (pos + i)
    then err truncated
    else if i == 9 && ltb 1 c
    then err varint_overflow
    else if ltb c 0x80
    then ok (v', i + 1)
    else rest

-- The value and the number of bytes consumed.
unfoldable pub read_uvarint : List ℕ → ℕ → Result (ℕ × ℕ)
unfolding read_loop
read_uvarint b pos = read_loop 10 b pos 0 0 0
