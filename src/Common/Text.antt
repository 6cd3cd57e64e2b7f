-- ===== src/Common/Text.antt =====
-- Go strings as their bytes: literals, and the parts of packages strings and strconv that the tools
-- use. `trim_space` cuts the white space of Unicode, whose runes are one to three bytes in UTF-8.
pub mod Split
use Prim.Native.Nat.{ℕ, zero, suc, ◌+◌, ◌-◌, ◌*◌, ◌/◌, ◌%◌, ◌^◌}
use Prim.Native.Char.{code}
use Prim.Native.String.{String}
use mathlib.Core.Bool.{Bool, true, false, ◌&&◌, ◌||◌}
use mathlib.Core.Option.{Option, none, some}
use mathlib.Core.List.{List, [], ◌∷◌, ◌++◌, reverse}
use gsbm.Common.Tests.{ltb, leb, ◌==◌, if◌then◌else◌}
use gsbm.Common.Lists.{length, take, drop}

-- The bytes of an ASCII literal.
abbrev pub codes : String → List ℕ
codes String.[] = []
codes (String.◌∷◌ c s) = code c ∷ codes s

-- strings.HasPrefix
unfoldable pub has_prefix : List ℕ → List ℕ → Bool
has_prefix s [] = true
has_prefix [] (c ∷ p) = false
has_prefix (x ∷ s) (c ∷ p) = x == c && has_prefix s p

-- strings.TrimPrefix
unfoldable pub trim_prefix : List ℕ → List ℕ → List ℕ
unfolding has_prefix
trim_prefix s p = if has_prefix s p then drop (length p) s else s

-- strings.HasSuffix and strings.TrimSuffix
unfoldable pub has_suffix : List ℕ → List ℕ → Bool
unfolding has_prefix
has_suffix s p = has_prefix (reverse s) (reverse p)

unfoldable pub trim_suffix : List ℕ → List ℕ → List ℕ
unfolding has_suffix
trim_suffix s p = if has_suffix s p then take (length s - length p) s else s

-- unicode.IsSpace on a rune of one byte, of two and of three: U+0085 and U+00A0; U+1680, U+2000 to
-- U+200A, U+2028, U+2029, U+202F, U+205F and U+3000.
unfoldable pub is_space : ℕ → Bool
is_space c = c == 32 || (leb 9 c && leb c 13)

unfoldable pub is_space_2 : ℕ → ℕ → Bool
is_space_2 c d = c == 194 && (d == 133 || d == 160)

unfoldable pub is_space_3 : ℕ → ℕ → ℕ → Bool
is_space_3 c d e =
    (c == 225 && (d == 154 && e == 128))
    || ((c == 226
          && ((d == 128 && ((leb 128 e && leb e 138) || (e == 168 || (e == 169 || e == 175))))
              || (d == 129 && e == 159)))
        || (c == 227 && (d == 128 && e == 128)))

-- The bytes of the white-space rune that a string begins with, 0 without one.
unfoldable pub space_bytes : List ℕ → ℕ
unfolding is_space is_space_2 is_space_3
space_bytes [] = 0
space_bytes (c ∷ []) = if is_space c then 1 else 0
space_bytes (c ∷ d ∷ []) = if is_space c then 1 else if is_space_2 c d then 2 else 0
space_bytes (c ∷ d ∷ e ∷ s) =
    if is_space c then 1 else if is_space_2 c d then 2 else if is_space_3 c d e then 3 else 0

-- The same for the rune that it ends with; the string is given from its end.
unfoldable pub last_space_bytes : List ℕ → ℕ
unfolding is_space is_space_2 is_space_3
last_space_bytes [] = 0
last_space_bytes (c ∷ []) = if is_space c then 1 else 0
last_space_bytes (c ∷ d ∷ []) = if is_space c then 1 else if is_space_2 d c then 2 else 0
last_space_bytes (c ∷ d ∷ e ∷ s) =
    if is_space c then 1 else if is_space_2 d c then 2 else if is_space_3 e d c then 3 else 0

-- Runes of white space are cut as long as there is one; the number counts the bytes left of the
-- one that is cut.
unfoldable pub trim_runes : (List ℕ → ℕ) → ℕ → List ℕ → List ℕ
trim_runes bytes_of n [] = []
trim_runes bytes_of zero (c ∷ s) =
    let m = bytes_of (c ∷ s) in
    let rest = trim_runes bytes_of (m - 1) s in if m == 0 then c ∷ s else rest
trim_runes bytes_of (suc n) (c ∷ s) = trim_runes bytes_of n s

-- strings.TrimSpace
unfoldable pub trim_space : List ℕ → List ℕ
unfolding trim_runes space_bytes last_space_bytes
trim_space s = reverse (trim_runes last_space_bytes 0 (reverse (trim_runes space_bytes 0 s)))

-- A byte in front of the first part.
abbrev pub push : ℕ → List (List ℕ) → List (List ℕ)
push c [] = (c ∷ []) ∷ []
push c (p ∷ ps) = (c ∷ p) ∷ ps

-- strings.Split on one byte
unfoldable pub split : ℕ → List ℕ → List (List ℕ)
split sep [] = [] ∷ []
split sep (c ∷ s) = let rest = split sep s in if c == sep then [] ∷ rest else push c rest

-- strings.Cut at one byte: what is before it, and what is behind it, which is none if it is absent
unfoldable pub cut : ℕ → List ℕ → List ℕ × Option (List ℕ)
cut sep [] = ([], none)
cut sep (c ∷ s) = let rest = cut sep s in if c == sep then ([], some s) else (c ∷ rest.0, rest.1)

-- strings.Contains
unfoldable pub contains : List ℕ → List ℕ → Bool
unfolding has_prefix
contains [] p = has_prefix [] p
contains (c ∷ s) p = has_prefix (c ∷ s) p || contains s p

-- strings.Join
unfoldable pub join_text : List ℕ → List (List ℕ) → List ℕ
join_text sep [] = []
join_text sep (p ∷ []) = p
join_text sep (p ∷ q ∷ ps) = p ++ (sep ++ join_text sep (q ∷ ps))

-- The loop of strconv.ParseUint in base 10, behind the digits that were read.
unfoldable pub scan_uint : ℕ → List ℕ → ℕ → Option ℕ
scan_uint most [] n = some n
scan_uint most (c ∷ s) n =
    let next = n * 10 + (c - b'0') in
    let rest = scan_uint most s next in
    if ltb c b'0' || ltb b'9' c then none else if ltb most next then none else rest

-- strconv.ParseUint(s, 10, 32)
unfoldable pub parse_uint32 : List ℕ → Option ℕ
unfolding scan_uint
parse_uint32 [] = none
parse_uint32 (c ∷ s) = scan_uint (2 ^ 32 - 1) (c ∷ s) 0

-- `%d`: a round for each digit, and no number has more digits than its value.
unfoldable pub digits : ℕ → ℕ → List ℕ → List ℕ
digits zero n out = out
digits (suc fuel) n out =
    let rest = digits fuel (n / 10) ((b'0' + n % 10) ∷ out) in if n == 0 then out else rest

unfoldable pub decimal : ℕ → List ℕ
unfolding digits
decimal n = if n == 0 then b'0' ∷ [] else digits n n []

-- `%t`
unfoldable pub bool_text : Bool → List ℕ
bool_text true = codes "true"
bool_text false = codes "false"
