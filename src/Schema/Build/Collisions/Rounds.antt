-- ===== src/Schema/Build/Collisions/Rounds.antt =====
-- The rounds of the sweep over the collected fields.
use gsbm.Common.{
  ℕ, ◌+◌, ◌≡◌, Bool, Bool-cases, true, false, inl, inr, Option, none, some, List, [], ◌∷◌, ◌++◌,
  arith,
}
use gsbm.Common.{◌==◌, if◌then◌else◌}
use gsbm.Schema.{FieldDecl}
use gsbm.Schema.Build.Collisions.{
  Firsts, first_at, Sweep, collide, next_firsts, next_sweep, sweep, among_places,
}

-- The sweep never takes a place off the list.
collide-among :
    (j : ℕ) (p : FieldDecl) (i : ℕ) (fd : FieldDecl) (s : Sweep) (k : ℕ)
    → among_places k s.drop ≡ true
    → among_places k (collide j p i fd s).drop ≡ true
unfolding collide among_places
collide-among j p i fd s k h = ground arith

next-among :
    (o : Option (ℕ × FieldDecl)) (i : ℕ) (fd : FieldDecl) (s : Sweep) (k : ℕ)
    → among_places k s.drop ≡ true
    → among_places k (next_sweep o i fd s).drop ≡ true
next-among none i fd s k h = h
next-among (some (j, p)) i fd s k h = collide-among j p i fd s k h

pub sweep-among :
    (i : ℕ) (first : Firsts) (s : Sweep) (fds : List FieldDecl) (k : ℕ)
    → among_places k s.drop ≡ true
    → among_places k (sweep i first s fds).drop ≡ true
unfolding sweep
sweep-among i first s [] k h = h
sweep-among i first s (fd ∷ fds) k h =
    sweep-among (i + 1)
      (if fd.tag == 0 then first else next_firsts (first_at first fd.tag) i fd first)
      (if fd.tag == 0 then s else next_sweep (first_at first fd.tag) i fd s) fds k
      (either (fd.tag == 0))
  where
    either :
        (b : Bool)
        → among_places k (if b then s else next_sweep (first_at first fd.tag) i fd s).drop ≡ true
    either true = h
    either false = next-among (first_at first fd.tag) i fd s k h

pub first_at-append :
    (first more : Firsts) (t : ℕ) (q : ℕ × FieldDecl)
    → first_at first t ≡ some q
    → first_at (first ++ more) t ≡ some q
unfolding first_at
first_at-append [] more t q h = cc
first_at-append ((i, fd) ∷ fs) more t q h = elim (Bool-cases (fd.tag == t)) [
  | inl e ↦ rw e (rw e at h)
  | inr e ↦ rw e (first_at-append fs more t q (rw e at h))
]

pub first_at-last :
    (first : Firsts) (i : ℕ) (fd : FieldDecl)
    → first_at first fd.tag ≡ none
    → first_at (first ++ (i, fd) ∷ []) fd.tag ≡ some (i, fd)
unfolding first_at
first_at-last [] i fd h = ground arith
first_at-last ((j, g) ∷ fs) i fd h = elim (Bool-cases (g.tag == fd.tag)) [
  | inl e ↦ absurd (clash (j, g) (rw e at h))
  | inr e ↦ rw e (first_at-last fs i fd (rw e at h))
]
  where
    clash : (q : ℕ × FieldDecl) → some q ≡ none → ⊥
    clash q p = cc
