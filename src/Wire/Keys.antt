-- ===== src/Wire/Keys.antt =====
-- Field keys: the tag and the wire type come apart again.
use gsbm.Common.{ℕ, ◌+◌, ◌*◌, ◌%◌, ◌^◌, ◌≤◌, ◌<◌, ◌≡◌, arith, bit_and}
use gsbm.Common.{bit_or-high_low, bit_and-low_mask}
use gsbm.Wire.{field_key, max_tag}

pub field_key_lem : (tag wt : ℕ) → tag ≤ max_tag → wt < 8 → field_key tag wt ≡ tag * 8 + wt
unfolding field_key
field_key_lem tag wt h k = ground (arith, bit_or-high_low 3 tag wt)

pub field_key-lt : (tag wt : ℕ) → tag ≤ max_tag → wt < 8 → field_key tag wt < 2 ^ 32
field_key-lt tag wt h k = omega (arith, field_key_lem tag wt h k)

-- `v & 0x7` of ReadTag
pub low_three : (v : ℕ) → bit_and v 7 ≡ v % 8
low_three v = bit_and-low_mask 3 v
