-- ===== src/Intern.antt =====
-- storage/gsbm/intern.go: the Interner, an Allocator that deduplicates strings.
pub mod Retained
use gsbm.Common.{
  ℕ, zero, suc, ◌+◌, Bool, true, false, ◌&&◌, Option, none, some, List, [], ◌∷◌, length,
}
use gsbm.Common.{leb, ltb, ◌==◌, if◌then◌else◌, ℤ, pos, negsuc}
use gsbm.Reader.Header.{same_bytes}

-- `tab` is a Go map from a string to itself; a nil map is empty here. A `max` of 0 is no bound.
pub record Interner : Type 0 where
  pub tab : List (List ℕ × List ℕ)
  pub max : ℕ

-- NewInterner
abbrev pub new_interner : Interner
new_interner = record { tab = []; max = 0 }

-- NewInternerN
abbrev pub new_interner_n : ℤ → Interner
new_interner_n (pos n) = record { tab = []; max = n }
new_interner_n (negsuc n) = record { tab = []; max = 0 }

-- `i.tab[string(b)]`
unfoldable pub lookup : List (List ℕ × List ℕ) → List ℕ → Option (List ℕ)
lookup [] b = none
lookup ((k, s) ∷ tab) b = if same_bytes k b then some s else lookup tab b

-- Len
abbrev pub len : Interner → ℕ
len i = length i.tab

-- Reset
abbrev pub reset : Interner → Interner
reset i = record i { tab = [] }

abbrev pub found : Option (List ℕ) → Interner → List ℕ → List ℕ × Interner
found (some s) i b = (s, i)
found none i b =
    if ltb 0 i.max && leb i.max (length i.tab)
    then (b, i)
    else (b, record i { tab = (b, b) ∷ i.tab })

-- AcquireString
unfoldable pub acquire_string : Interner → List ℕ → List ℕ × Interner
acquire_string i b = if length b == 0 then ([], i) else found (lookup i.tab b) i b
