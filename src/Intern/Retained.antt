-- ===== src/Intern/Retained.antt =====
-- The Interner returns the bytes that it was given, keeps each once, and stays inside its bound.
use gsbm.Common.{
  ℕ, ◌≤◌, ◌<◌, ◌≡◌, refl, ◌∙◌, true, ◌&&◌, Bool-cases, inl, inr, Option, none, some, List, [], ◌∷◌,
  length, arith,
}
use gsbm.Common.{leb, ltb, ◌==◌}
use gsbm.Reader.Header.{same_bytes}
use gsbm.Intern.{Interner, lookup, len, found, acquire_string}

pub same_bytes_lem : (a b : List ℕ) → same_bytes a b ≡ true → a ≡ b
same_bytes_lem [] [] e = refl
same_bytes_lem [] (y ∷ ys) e = cc
same_bytes_lem (x ∷ xs) [] e = cc
same_bytes_lem (x ∷ xs) (y ∷ ys) e = ground (arith, same_bytes_lem xs ys)

-- Every entry maps a string to itself, and no string has two entries.
abbrev pub IsTable : List (List ℕ × List ℕ) → Type 0
IsTable [] = Unit
IsTable ((k, s) ∷ tab) = (k ≡ s) × (lookup tab k ≡ none) × IsTable tab

entry : (k v b s : List ℕ) → k ≡ v → k ≡ b → some v ≡ some s → s ≡ b
entry k v b s same hit e = cc

lookup-IsTable :
    (tab : List (List ℕ × List ℕ)) (b s : List ℕ) → IsTable tab → lookup tab b ≡ some s → s ≡ b
unfolding lookup
lookup-IsTable [] b s t e = cc
lookup-IsTable ((k, v) ∷ tab) b s (same, fresh, t) e = elim (Bool-cases (same_bytes k b)) [
  | inl hit ↦ entry k v b s same (same_bytes_lem k b hit) (rw hit at e)
  | inr miss ↦ lookup-IsTable tab b s t (rw miss at e)
]

-- The table is in order, and inside the bound when there is one.
pub record IsBounded (i : Interner) : Type 0 where
  pub table : IsTable i.tab
  pub bound : 0 < i.max → len i ≤ i.max

nil_lem : (b : List ℕ) → (length b == 0) ≡ true → [] ≡ b
nil_lem [] e = refl
nil_lem (x ∷ b) e = ground arith

-- The bytes come back, the Interner stays in order, and its bound is the old one.
pub record Acquired (i : Interner) (b : List ℕ) (o : List ℕ × Interner) : Type 0 where
  pub same : o.0 ≡ b
  pub bounded : IsBounded o.1
  pub max : o.1.max ≡ i.max

new-Acquired :
    (i : Interner) (b : List ℕ)
    → IsBounded i
    → lookup i.tab b ≡ none
    → Acquired i b (found none i b)
new-Acquired i b h new = elim (Bool-cases (ltb 0 i.max && leb i.max (length i.tab))) [
  | inl full ↦ rw full (record { same = refl; bounded = h; max = refl })
  | inr room ↦ rw room (record {
    same = refl;
    bounded = record { table = (refl, new, h.table); bound = λ p. ground arith };
    max = refl;
  })
]

found-Acquired :
    (o : Option (List ℕ)) (i : Interner) (b : List ℕ)
    → IsBounded i
    → lookup i.tab b ≡ o
    → Acquired i b (found o i b)
found-Acquired none i b h e = new-Acquired i b h e
found-Acquired (some s) i b h e = record {
  same = lookup-IsTable i.tab b s h.table e;
  bounded = h;
  max = refl;
}

acquire_string-Acquired :
    (i : Interner) (b : List ℕ) → IsBounded i → Acquired i b (acquire_string i b)
unfolding acquire_string
acquire_string-Acquired i b h = elim (Bool-cases (length b == 0)) [
  | inl empty ↦ rw empty (record { same = nil_lem b empty; bounded = h; max = refl })
  | inr more ↦ rw more (found-Acquired (lookup i.tab b) i b h refl)
]

-- The strings of one or several decodes, one after the other.
unfoldable pub acquire_all : Interner → List (List ℕ) → List (List ℕ) × Interner
acquire_all i [] = ([], i)
acquire_all i (b ∷ bs) =
    let (s, i') = acquire_string i b in let (rest, i'') = acquire_all i' bs in (s ∷ rest, i'')

-- From an Interner in order, any sequence of AcquireString returns the bytes that it is given, and
-- leaves each string with one entry that maps it to itself, and no more entries than the bound.
pub acquire_all-IsBounded :
    (i : Interner) (bs : List (List ℕ))
    → IsBounded i
    → let o = acquire_all i bs in (o.0 ≡ bs) × IsBounded o.1 × (o.1.max ≡ i.max)
unfolding acquire_all
acquire_all-IsBounded i [] h = (refl, h, refl)
acquire_all-IsBounded i (b ∷ bs) h =
    let a = acquire_string-Acquired i b h in
    let (same, bounded, max) = acquire_all-IsBounded (acquire_string i b).1 bs a.bounded in
    (cc, bounded, max ∙ a.max)
