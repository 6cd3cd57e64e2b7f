-- ===== src/Schema/Validate/Cycles/Marks.antt =====
-- The state map of the walk, and membership.
use gsbm.Common.{
  ℕ, suc, ◌≤◌, ◌<◌, ◌≡◌, ◌≢◌, ◌⊎◌, refl, sym, ◌∙◌, Bool, Bool-cases, true, false, inl, inr, Option,
  none, some, List, [], ◌∷◌, ◌++◌, length, arith,
}
use gsbm.Common.{==_iff, if◌then◌else◌}
use mathlib.Core.Path.{subst}
use gsbm.Reader.Header.{same_bytes}
use gsbm.Intern.Retained.{same_bytes_lem}
use gsbm.Schema.{Text, StructDecl}
use gsbm.Schema.Classifier.{assign, find}
use gsbm.Schema.Validate.Cycles.{Mark, Marks}

pub same_bytes_refl : (a : Text) → same_bytes a a ≡ true
same_bytes_refl [] = refl
same_bytes_refl (x ∷ a) = rw ((==_iff x x).1 refl) (same_bytes_refl a)

pub find-assign :
    {V : Type 0} (k j : Text) (v : V) (m : List (Text × V))
    → find same_bytes (assign same_bytes k v m) j
      ≡ (if same_bytes k j then some v else find same_bytes m j)
unfolding find assign
find-assign k j v [] = refl
find-assign {V} k j v ((i, w) ∷ m) = elim (Bool-cases (same_bytes i k)) [
  | inl here ↦ rw here (
      subst
        (λ x. (if same_bytes i j then some v else find same_bytes m j) ≡ (
          if same_bytes x j
          then some v
          else (if same_bytes i j then some w else find same_bytes m j)))
        (same_bytes_lem i k here) (twice (same_bytes i j)))
  | inr there ↦ rw there (ground (arith, apart i k j there, find-assign k j v m))
]
  where
    twice :
        (b : Bool)
        → (if b then some v else find same_bytes m j)
          ≡ (if b then some v else (if b then some w else find same_bytes m j))
    twice true = refl
    twice false = refl

    apart : (i k j : Text) → same_bytes i k ≡ false → same_bytes i j ≡ true → same_bytes k j ≡ false
    apart i k j other at = elim (Bool-cases (same_bytes k j)) [
      | inl hit ↦
          let e : i ≡ k = same_bytes_lem i j at ∙ sym (same_bytes_lem k j hit) in
          let t : same_bytes i k ≡ true =
            subst (λ x. same_bytes i x ≡ true) e (same_bytes_refl i) in
          cc
      | inr miss ↦ miss
    ]

abbrev pub In : {A : Type 0} → A → List A → Type 0
In a [] = ⊥
In a (x ∷ xs) = (a ≡ x) ⊎ In a xs

pub In-append_left : {A : Type 0} (a : A) (xs ys : List A) → In a xs → In a (xs ++ ys)
In-append_left a [] ys h = absurd h
In-append_left a (x ∷ xs) ys (inl h) = inl h
In-append_left a (x ∷ xs) ys (inr h) = inr (In-append_left a xs ys h)

pub In-append_right : {A : Type 0} (a : A) (xs ys : List A) → In a ys → In a (xs ++ ys)
In-append_right a [] ys h = h
In-append_right a (x ∷ xs) ys h = inr (In-append_right a xs ys h)

pub In-append_cases : {A : Type 0} (a : A) (xs ys : List A) → In a (xs ++ ys) → In a xs ⊎ In a ys
In-append_cases a [] ys h = inr h
In-append_cases a (x ∷ xs) ys (inl h) = inl (inl h)
In-append_cases a (x ∷ xs) ys (inr h) = elim (In-append_cases a xs ys h) [
  | inl l ↦ inl (inr l)
  | inr r ↦ inr r
]

abbrev pub if_unseen : Option Mark → ℕ → ℕ
if_unseen none n = suc n
if_unseen (some x) n = n

-- The structs that are not marked.
pub unseen : List (Text × StructDecl) → Marks → ℕ
unseen [] m = 0
unseen ((k, d) ∷ by_key) m = if_unseen (find same_bytes m k) (unseen by_key m)

-- No mark is taken away.
abbrev pub Grows : Marks → Marks → Type 0
Grows m n = (k : Text) → find same_bytes m k ≢ none → find same_bytes n k ≢ none

pub assign-Grows : (k : Text) (x : Mark) (m : Marks) → Grows m (assign same_bytes k x m)
assign-Grows k x m j h = rw (find-assign k j x m) (marked (same_bytes k j))
  where
    marked : (b : Bool) → (if b then some x else find same_bytes m j) ≢ none
    marked true e = cc
    marked false e = h e

pub unseen-Grows :
    (by_key : List (Text × StructDecl)) (m n : Marks)
    → Grows m n
    → unseen by_key n ≤ unseen by_key m
unfolding unseen
unseen-Grows [] m n g = omega arith
unseen-Grows ((k, d) ∷ by_key) m n g =
    count (unseen-Grows by_key m n g) (find same_bytes m k) (find same_bytes n k) refl refl
  where
    count :
        unseen by_key n ≤ unseen by_key m
        → (a b : Option Mark) → find same_bytes m k ≡ a
        → find same_bytes n k ≡ b
        → unseen ((k, d) ∷ by_key) n ≤ unseen ((k, d) ∷ by_key) m
    count rest none none p q = rw (p, q) (omega (arith, rest))
    count rest none (some y) p q = rw (p, q) (omega (arith, rest))
    count rest (some x) (some y) p q = rw (p, q) rest
    count rest (some x) none p q = absurd (g k (λ e. cc) q)

-- Marking an unseen struct leaves one less.
pub unseen-assign :
    (by_key : List (Text × StructDecl)) (m : Marks) (k : Text) (x : Mark) (d : StructDecl)
    → find same_bytes by_key k ≡ some d
    → find same_bytes m k ≡ none
    → unseen by_key (assign same_bytes k x m) < unseen by_key m
unfolding unseen find
unseen-assign [] m k x d e h = cc
unseen-assign ((i, c) ∷ by_key) m k x d e h =
    at (same_bytes i k) refl (unseen-Grows by_key m (assign same_bytes k x m) (assign-Grows k x m))
      (unseen-assign by_key m k x d)
  where
    below :
        (a b : Option Mark)
        → find same_bytes m i ≡ a
        → find same_bytes (assign same_bytes k x m) i ≡ b
        → unseen by_key (assign same_bytes k x m) < unseen by_key m
        → (find same_bytes m i ≢ none → find same_bytes (assign same_bytes k x m) i ≢ none)
        → unseen ((i, c) ∷ by_key) (assign same_bytes k x m) < unseen ((i, c) ∷ by_key) m
    below none none p q lt g = rw (p, q) (omega arith)
    below none (some y) p q lt g = rw (p, q) (omega arith)
    below (some y) (some z) p q lt g = rw (p, q) lt
    below (some y) none p q lt g = absurd (g (λ e. cc) q)

    at :
        (b : Bool)
        → same_bytes i k ≡ b
        → unseen by_key (assign same_bytes k x m) ≤ unseen by_key m
        → (find same_bytes by_key k ≡ some d
            → find same_bytes m k ≡ none
            → unseen by_key (assign same_bytes k x m) < unseen by_key m)
        → unseen ((i, c) ∷ by_key) (assign same_bytes k x m) < unseen ((i, c) ∷ by_key) m
    at true p le lt =
        let unmarked : find same_bytes m i ≡ none =
          subst (λ j. find same_bytes m j ≡ none) (sym (same_bytes_lem i k p)) h in
        let marked : find same_bytes (assign same_bytes k x m) i ≡ some x =
          find-assign k i x m
          ∙ rw (
              subst (λ j. same_bytes k j ≡ true) (sym (same_bytes_lem i k p))
                (same_bytes_refl k)) in
        rw (unmarked, marked) (omega arith)
    at false p le lt =
        let less = lt (rw p at e) h in
        let grown = assign-Grows k x m i in
        below (find same_bytes m i) (find same_bytes (assign same_bytes k x m) i) refl refl less
          grown

pub unseen-le-length :
    (by_key : List (Text × StructDecl)) (m : Marks) → unseen by_key m ≤ length by_key
unfolding unseen
unseen-le-length [] m = omega arith
unseen-le-length ((k, d) ∷ by_key) m = at (find same_bytes m k) (unseen-le-length by_key m)
  where
    at :
        (o : Option Mark)
        → unseen by_key m ≤ length by_key
        → if_unseen o (unseen by_key m) ≤ suc (length by_key)
    at none le = omega arith
    at (some x) le = omega arith

-- A marked struct is one of them, whatever else is marked.
pub unseen-lt-length :
    (by_key : List (Text × StructDecl)) (m : Marks) (k : Text) (x : Mark) (d : StructDecl)
    → find same_bytes by_key k ≡ some d
    → unseen by_key (assign same_bytes k x m) < length by_key
unfolding find
unseen-lt-length by_key m k x d e =
    let one = unseen-assign by_key [] k x d e refl in
    let more = unseen-Grows by_key (assign same_bytes k x []) (assign same_bytes k x m) kept in
    omega (arith, unseen-le-length by_key [], one, more)
  where
    kept : Grows (assign same_bytes k x []) (assign same_bytes k x m)
    kept j h = rw (find-assign k j x m) (marked (same_bytes k j) (rw (find-assign k j x []) at h))
      where
        marked :
            (b : Bool)
            → (if b then some x else find {V = Mark} same_bytes [] j) ≢ none
            → (if b then some x else find same_bytes m j) ≢ none
        marked true n e = cc
        marked false n e = n refl
