-- ===== src/Common/Lists.antt =====
-- Byte slices as lists, measured and indexed by native numbers: `len`, `b[i]`, `b[:n]`, `b[n:]`.
use Prim.Native.Nat.{ℕ, zero, suc, ◌+◌, ◌-◌, ◌≤◌, ◌<◌, min}
use mathlib.Core.Path.{◌≡◌, refl, sym, ap}
use mathlib.Core.List.{List, [], ◌∷◌, ◌++◌}
use native.Mathlib.Omega.{arith}
use native.Mathlib.Nat.{zero-add, add-zero, suc-add}

module _ {ℓ} {A : Type ℓ} where
  abbrev pub length : List A → ℕ
  length [] = 0
  length (x ∷ xs) = suc (length xs)

  abbrev pub get_or : List A → ℕ → A → A
  get_or [] i d = d
  get_or (x ∷ xs) zero d = x
  get_or (x ∷ xs) (suc i) d = get_or xs i d

  -- A write out of bounds changes nothing.
  abbrev pub set : List A → ℕ → A → List A
  set [] i v = []
  set (x ∷ xs) zero v = v ∷ xs
  set (x ∷ xs) (suc i) v = x ∷ set xs i v

  abbrev pub take : ℕ → List A → List A
  take zero xs = []
  take (suc n) [] = []
  take (suc n) (x ∷ xs) = x ∷ take n xs

  abbrev pub drop : ℕ → List A → List A
  drop zero xs = xs
  drop (suc n) [] = []
  drop (suc n) (x ∷ xs) = drop n xs

  abbrev pub replicate : ℕ → A → List A
  replicate zero a = []
  replicate (suc n) a = a ∷ replicate n a

  pub length-append : (xs ys : List A) → length (xs ++ ys) ≡ length xs + length ys
  length-append [] ys = omega arith
  length-append (x ∷ xs) ys = omega (arith, length-append xs ys)

  pub length-take : (n : ℕ) (xs : List A) → length (take n xs) ≡ min n (length xs)
  length-take zero xs = omega arith
  length-take (suc n) [] = omega arith
  length-take (suc n) (x ∷ xs) = omega (arith, length-take n xs)

  pub length-drop : (n : ℕ) (xs : List A) → length (drop n xs) ≡ length xs - n
  length-drop zero xs = omega arith
  length-drop (suc n) [] = omega arith
  length-drop (suc n) (x ∷ xs) = omega (arith, length-drop n xs)

  pub length-replicate : (n : ℕ) (a : A) → length (replicate n a) ≡ n
  length-replicate zero a = refl
  length-replicate (suc n) a = ap suc (length-replicate n a)

  pub take-append-drop : (n : ℕ) (xs : List A) → take n xs ++ drop n xs ≡ xs
  take-append-drop zero xs = refl
  take-append-drop (suc n) [] = refl
  take-append-drop (suc n) (x ∷ xs) = rw (take-append-drop n xs)

module _ {ℓ} {A : Type ℓ} where
  pub length-set : (xs : List A) (i : ℕ) (v : A) → length (set xs i v) ≡ length xs
  length-set [] i v = refl
  length-set (x ∷ xs) zero v = refl
  length-set (x ∷ xs) (suc i) v = ap suc (length-set xs i v)

  -- A prefix of known length is cut off exactly.
  pub take_prefix : (n : ℕ) (xs ys : List A) → n ≡ length xs → take n (xs ++ ys) ≡ xs
  take_prefix zero [] ys h = refl
  take_prefix zero (x ∷ xs) ys h = absurd (omega arith)
  take_prefix (suc n) [] ys h = absurd (omega arith)
  take_prefix (suc n) (x ∷ xs) ys h = ap (λ t. x ∷ t) (take_prefix n xs ys (omega arith))

  pub drop_prefix : (n : ℕ) (xs ys : List A) → n ≡ length xs → drop n (xs ++ ys) ≡ ys
  drop_prefix zero [] ys h = refl
  drop_prefix zero (x ∷ xs) ys h = absurd (omega arith)
  drop_prefix (suc n) [] ys h = absurd (omega arith)
  drop_prefix (suc n) (x ∷ xs) ys h = drop_prefix n xs ys (omega arith)

  pub take_all : (n : ℕ) (xs : List A) → length xs ≤ n → take n xs ≡ xs
  take_all zero [] h = refl
  take_all zero (x ∷ xs) h = absurd (omega arith)
  take_all (suc n) [] h = refl
  take_all (suc n) (x ∷ xs) h = ap (λ t. x ∷ t) (take_all n xs (omega arith))

  pub drop_all : (n : ℕ) (xs : List A) → length xs ≤ n → drop n xs ≡ []
  drop_all zero [] h = refl
  drop_all zero (x ∷ xs) h = absurd (omega arith)
  drop_all (suc n) [] h = refl
  drop_all (suc n) (x ∷ xs) h = drop_all n xs (omega arith)

  pub drop-drop : (n m : ℕ) (xs : List A) → drop n (drop m xs) ≡ drop (m + n) xs
  drop-drop n zero xs = rw zero-add
  drop-drop zero (suc m) [] = rw add-zero
  drop-drop (suc n) (suc m) [] = rw suc-add
  drop-drop n (suc m) (x ∷ xs) = rw suc-add (drop-drop n m xs)

  -- The element at an index heads what is dropped up to it.
  pub drop-get_or :
      (n : ℕ) (xs : List A) (d : A) → n < length xs → drop n xs ≡ get_or xs n d ∷ drop (suc n) xs
  drop-get_or n [] d h = absurd (omega arith)
  drop-get_or zero (x ∷ xs) d h = refl
  drop-get_or (suc n) (x ∷ xs) d h = drop-get_or n xs d (omega arith)

module _ {ℓ} {A : Type ℓ} where
  pub take_past :
      (m n : ℕ) (xs ys : List A) → m ≡ length xs + n → take m (xs ++ ys) ≡ xs ++ take n ys
  take_past m n [] ys h = ap (λ (k : ℕ). take k ys) (omega arith)
  take_past zero n (x ∷ xs) ys h = absurd (omega arith)
  take_past (suc m) n (x ∷ xs) ys h = ap (λ t. x ∷ t) (take_past m n xs ys (omega arith))

  pub drop_past : (m n : ℕ) (xs ys : List A) → m ≡ length xs + n → drop m (xs ++ ys) ≡ drop n ys
  drop_past m n [] ys h = ap (λ (k : ℕ). drop k ys) (omega arith)
  drop_past zero n (x ∷ xs) ys h = absurd (omega arith)
  drop_past (suc m) n (x ∷ xs) ys h = drop_past m n xs ys (omega arith)

  pub take_within : (n : ℕ) (xs ys : List A) → n ≤ length xs → take n (xs ++ ys) ≡ take n xs
  take_within zero xs ys h = refl
  take_within (suc n) [] ys h = absurd (omega arith)
  take_within (suc n) (x ∷ xs) ys h = ap (λ t. x ∷ t) (take_within n xs ys (omega arith))

  -- The last element of a stack: reading it, dropping it and writing at an index.
  pub get_or-last : (xs : List A) (x d : A) → get_or (xs ++ x ∷ []) (length xs) d ≡ x
  get_or-last [] x d = refl
  get_or-last (y ∷ xs) x d = get_or-last xs x d

  pub set-middle :
      (xs : List A) (s x : A) (ys : List A) → set (xs ++ s ∷ ys) (length xs) x ≡ xs ++ x ∷ ys
  set-middle [] s x ys = refl
  set-middle (y ∷ xs) s x ys = ap (λ t. y ∷ t) (set-middle xs s x ys)

  -- What heads the rest of a list stands at its index.
  pub get_or-drop :
      (n : ℕ) (xs : List A) (x d : A) (ys : List A)
      → drop n xs ≡ x ∷ ys
      → (get_or xs n d ≡ x) × (n < length xs)
  get_or-drop zero [] x d ys e = ground arith
  get_or-drop zero (z ∷ xs) x d ys e = ground arith
  get_or-drop (suc n) [] x d ys e = ground arith
  get_or-drop (suc n) (z ∷ xs) x d ys e =
      let (at, lt) = get_or-drop n xs x d ys e in (at, omega arith)

  -- A window inside a cut list is the window of the whole list.
  pub take-drop-take :
      (n p e : ℕ) (xs : List A) → p + n ≤ e → take n (drop p (take e xs)) ≡ take n (drop p xs)
  take-drop-take n zero e xs h = take-take n e xs (omega arith)
    where
      take-take : (n e : ℕ) (xs : List A) → n ≤ e → take n (take e xs) ≡ take n xs
      take-take zero e xs h = refl
      take-take (suc n) zero xs h = absurd (omega arith)
      take-take (suc n) (suc e) [] h = refl
      take-take (suc n) (suc e) (x ∷ xs) h = ap (λ t. x ∷ t) (take-take n e xs (omega arith))
  take-drop-take n (suc p) zero xs h = absurd (omega arith)
  take-drop-take n (suc p) (suc e) [] h = refl
  take-drop-take n (suc p) (suc e) (x ∷ xs) h = take-drop-take n p e xs (omega arith)

  pub drop-take : (p n : ℕ) (xs : List A) → drop p (take (p + n) xs) ≡ take n (drop p xs)
  drop-take zero n xs = rw zero-add
  drop-take (suc p) n [] = rw suc-add (sym (take_nil n))
    where
      take_nil : (n : ℕ) → take {A = A} n [] ≡ []
      take_nil zero = refl
      take_nil (suc n) = refl
  drop-take (suc p) n (x ∷ xs) = rw suc-add (drop-take p n xs)
