-- ===== src/Schema/Build/Collisions/Kept.antt =====
-- The fields that checkFlattenedTagCollisions keeps.
use gsbm.Common.{
  ℕ, ◌+◌, ◌≤◌, ◌<◌, ◌≡◌, refl, Bool, Bool-cases, true, false, inl, inr, Option, none, some, List,
  [], ◌∷◌, ◌++◌, arith,
}
use gsbm.Common.{◌==◌, if◌then◌else◌}
use mathlib.Core.Path.{subst}
use gsbm.Schema.{FieldDecl}
use gsbm.Schema.Validate.Cycles.Marks.{In}
use gsbm.Schema.Build.Collisions.Direct.{
  SharesDirectly, check_flattened_tag_collisions-SharesDirectly,
}
use gsbm.Schema.Build.Collisions.{
  Firsts, first_at, Sweep, is_flat, collide, next_firsts, next_sweep, sweep, among_places,
  keep_from, check_flattened_tag_collisions,
}

-- The field at place `k`, if it is one of these, is direct.
abbrev DirectAt : ℕ → ℕ → List FieldDecl → Type 0
DirectAt k i [] = Unit
DirectAt k i (fd ∷ fds) = ((k == i) ≡ true → is_flat fd ≡ false) × DirectAt k (i + 1) fds

abbrev DirectIn : ℕ → Firsts → Type 0
DirectIn k [] = Unit
DirectIn k ((j, p) ∷ fs) = ((k == j) ≡ true → is_flat p ≡ false) × DirectIn k fs

DirectIn-append :
    (k : ℕ) (first : Firsts) (i : ℕ) (fd : FieldDecl)
    → DirectIn k first
    → ((k == i) ≡ true → is_flat fd ≡ false)
    → DirectIn k (first ++ (i, fd) ∷ [])
DirectIn-append k [] i fd h d = (d, tt)
DirectIn-append k ((j, p) ∷ fs) i fd h d = (h.0, DirectIn-append k fs i fd h.1 d)

first_at-DirectIn :
    (k : ℕ) (first : Firsts) (t j : ℕ) (p : FieldDecl)
    → DirectIn k first
    → first_at first t ≡ some (j, p)
    → (k == j) ≡ true
    → is_flat p ≡ false
unfolding first_at
first_at-DirectIn k [] t j p h e = absurd (clash (j, p) e)
  where
    clash : (q : ℕ × FieldDecl) → none ≡ some q → ⊥
    clash q e = cc
first_at-DirectIn k ((i, g) ∷ fs) t j p h e = elim (Bool-cases (g.tag == t)) [
  | inl hit ↦ ours (rw hit at e)
  | inr miss ↦ first_at-DirectIn k fs t j p h.1 (rw miss at e)
]
  where
    ours :
        ◌≡◌ {A = Option (ℕ × FieldDecl)} (some (i, g)) (some (j, p))
        → (k == j) ≡ true
        → is_flat p ≡ false
    ours q =
        let same : ◌≡◌ {A = ℕ × FieldDecl} (i, g) (j, p) = out (i, g) (j, p) q in
        subst (λ x. (k == x.0) ≡ true → is_flat x.1 ≡ false) same h.0
      where
        out : (a b : ℕ × FieldDecl) → some a ≡ some b → a ≡ b
        out a b e = cc

collide-direct :
    (k j : ℕ) (p : FieldDecl) (i : ℕ) (fd : FieldDecl) (s : Sweep)
    → among_places k s.drop ≡ false
    → ((k == j) ≡ true → is_flat p ≡ false)
    → ((k == i) ≡ true → is_flat fd ≡ false)
    → among_places k (collide j p i fd s).drop ≡ false
unfolding collide among_places
collide-direct k j p i fd s h before now = ground arith

sweep-direct :
    (k i : ℕ) (first : Firsts) (s : Sweep) (fds : List FieldDecl)
    → among_places k s.drop ≡ false
    → DirectIn k first
    → DirectAt k i fds
    → among_places k (sweep i first s fds).drop ≡ false
unfolding sweep
sweep-direct k i first s [] h before at = h
sweep-direct k i first s (fd ∷ fds) h before at =
    sweep-direct k (i + 1)
      (if fd.tag == 0 then first else next_firsts (first_at first fd.tag) i fd first)
      (if fd.tag == 0 then s else next_sweep (first_at first fd.tag) i fd s) fds
      (dropped (fd.tag == 0) (first_at first fd.tag) refl)
      (recorded (fd.tag == 0) (first_at first fd.tag)) at.1
  where
    dropped :
        (b : Bool) (o : Option (ℕ × FieldDecl))
        → first_at first fd.tag ≡ o
        → among_places k (if b then s else next_sweep o i fd s).drop ≡ false
    dropped true o e = h
    dropped false none e = h
    dropped false (some (j, p)) e =
        collide-direct k j p i fd s h (first_at-DirectIn k first fd.tag j p before e) at.0

    recorded :
        (b : Bool) (o : Option (ℕ × FieldDecl))
        → DirectIn k (if b then first else next_firsts o i fd first)
    recorded true o = before
    recorded false none = DirectIn-append k first i fd before at.0
    recorded false (some q) = before

DirectAt-before : (k i : ℕ) (fds : List FieldDecl) → k < i → DirectAt k i fds
DirectAt-before k i [] h = tt
DirectAt-before k i (fd ∷ fds) h = (apart, DirectAt-before k (i + 1) fds (omega arith))
  where
    apart : (k == i) ≡ true → is_flat fd ≡ false
    apart e = ground arith

keep_from-In :
    (i : ℕ) (places : List ℕ) (fds : List FieldDecl) (x : FieldDecl)
    → In x fds
    → is_flat x ≡ false
    → ((k : ℕ) → i ≤ k → DirectAt k i fds → among_places k places ≡ false)
    → In x (keep_from i places fds)
unfolding keep_from
keep_from-In i places [] x m d h = absurd m
keep_from-In i places (fd ∷ fds) x (inl here) d h =
    rw
      (h i (omega arith)
        ((λ _. subst (λ y. is_flat y ≡ false) here d), DirectAt-before i (i + 1) fds (omega arith)))
      (inl here)
keep_from-In i places (fd ∷ fds) x (inr there) d h = kept (among_places i places) (
    keep_from-In (i + 1) places fds x there d
      (λ k le at. h k (omega arith) ((λ e. absurd (late k le e)), at)))
  where
    late : (k : ℕ) → i + 1 ≤ k → (k == i) ≡ true → ⊥
    late k le e = ground arith

    kept :
        (b : Bool)
        → In x (keep_from (i + 1) places fds)
        → In x (if b then keep_from (i + 1) places fds else fd ∷ keep_from (i + 1) places fds)
    kept true m = m
    kept false m = inr m

direct-In :
    (fds : List FieldDecl) (x : FieldDecl)
    → In x fds
    → is_flat x ≡ false
    → In x (check_flattened_tag_collisions fds).0
unfolding check_flattened_tag_collisions among_places
direct-In fds x m d =
    keep_from-In 0 (sweep 0 [] (record { drop = []; reported = 0 }) fds).drop fds x m d
      (λ k le at. sweep-direct k 0 [] (record { drop = []; reported = 0 }) fds refl tt at)

-- What the check leaves of the collected fields.
pub record IsResolved (collected kept : List FieldDecl) : Type 0 where
  pub shared : SharesDirectly kept
  pub direct : (fd : FieldDecl) → In fd collected → is_flat fd ≡ false → In fd kept

-- When two of the fields that checkFlattenedTagCollisions keeps have the same tag, other than 0, neither
-- of them was promoted from an embedded struct; and every field of the struct itself is kept.
pub check_flattened_tag_collisions-IsResolved :
    (fds : List FieldDecl) → IsResolved fds (check_flattened_tag_collisions fds).0
check_flattened_tag_collisions-IsResolved fds = record {
  shared = check_flattened_tag_collisions-SharesDirectly fds;
  direct = direct-In fds;
}
