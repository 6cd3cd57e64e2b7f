-- ===== src/Schema/Build/Collisions/Direct.antt =====
-- Which fields still share a tag behind checkFlattenedTagCollisions.
use gsbm.Common.{
  ℕ, ◌+◌, ◌≡◌, ◌⊎◌, ◌∙◌, refl, sym, ap, Bool, Bool-cases, true, false, inl, inr, Option, none, some,
  List, [], ◌∷◌, arith,
}
use gsbm.Common.{◌==◌, if◌then◌else◌}
use mathlib.Core.Path.{subst}
use gsbm.Schema.{FieldDecl}
use gsbm.Schema.Validate.Cycles.Marks.{In}
use gsbm.Schema.Build.Collisions.{
  Firsts, first_at, Sweep, is_flat, collide, next_firsts, next_sweep, sweep, among_places,
  keep_from, check_flattened_tag_collisions,
}
use gsbm.Schema.Build.Collisions.Rounds.{sweep-among, first_at-append, first_at-last}

-- Two fields with the same tag, neither of them 0, are both written in the struct itself.
pub AreDirect : FieldDecl → FieldDecl → Type 0
AreDirect x y = x.tag ≡ y.tag → (x.tag == 0) ≡ false → (is_flat x ≡ false) × (is_flat y ≡ false)

pub SharesDirectly : List FieldDecl → Type 0
SharesDirectly [] = Unit
SharesDirectly (x ∷ xs) = ((y : FieldDecl) → In y xs → AreDirect x y) × SharesDirectly xs

-- One round of the sweep
abbrev firsts_after : Firsts → ℕ → FieldDecl → Firsts
firsts_after first i fd =
    if fd.tag == 0 then first else next_firsts (first_at first fd.tag) i fd first

abbrev sweep_after : Firsts → Sweep → ℕ → FieldDecl → Sweep
sweep_after first s i fd = if fd.tag == 0 then s else next_sweep (first_at first fd.tag) i fd s

firsts_after-seen :
    (first : Firsts) (i : ℕ) (fd : FieldDecl) (t : ℕ) (q : ℕ × FieldDecl)
    → first_at first t ≡ some q
    → first_at (firsts_after first i fd) t ≡ some q
firsts_after-seen first i fd t q h = tagged (fd.tag == 0)
  where
    added : (o : Option (ℕ × FieldDecl)) → first_at (next_firsts o i fd first) t ≡ some q
    added none = first_at-append first ((i, fd) ∷ []) t q h
    added (some p) = h

    tagged :
        (b : Bool)
        → first_at (if b then first else next_firsts (first_at first fd.tag) i fd first) t ≡ some q
    tagged true = h
    tagged false = added (first_at first fd.tag)

collide-flat :
    (j : ℕ) (p : FieldDecl) (i : ℕ) (fd : FieldDecl) (s : Sweep)
    → is_flat fd ≡ true
    → among_places i (collide j p i fd s).drop ≡ true
unfolding collide among_places
collide-flat j p i fd s h = ground arith

collide-direct :
    (j : ℕ) (p : FieldDecl) (i : ℕ) (fd : FieldDecl) (s : Sweep)
    → is_flat fd ≡ false
    → is_flat p ≡ true
    → among_places j (collide j p i fd s).drop ≡ true
unfolding collide among_places
collide-direct j p i fd s h k = ground arith

sweep_after-collide :
    (first : Firsts) (s : Sweep) (i : ℕ) (fd : FieldDecl) (j : ℕ) (p : FieldDecl)
    → (fd.tag == 0) ≡ false
    → first_at first fd.tag ≡ some (j, p)
    → sweep_after first s i fd ≡ collide j p i fd s
sweep_after-collide first s i fd j p z h = rw (z, h) refl

-- What holds of a field that is kept although its tag was seen at place `j` before.
abbrev KeptBehind : ℕ → FieldDecl → List ℕ → FieldDecl → Type 0
KeptBehind j p places y = (is_flat y ≡ false) × (is_flat p ≡ true → among_places j places ≡ true)

hit-KeptBehind :
    (first : Firsts) (s : Sweep) (i : ℕ) (fd : FieldDecl) (fds : List FieldDecl) (j : ℕ)
    (p : FieldDecl)
    → (fd.tag == 0) ≡ false
    → first_at first fd.tag ≡ some (j, p)
    → among_places i (sweep (i + 1) (firsts_after first i fd) (sweep_after first s i fd) fds).drop
      ≡ false
    → KeptBehind j p
        (sweep (i + 1) (firsts_after first i fd) (sweep_after first s i fd) fds).drop
        fd
hit-KeptBehind first s i fd fds j p z h kept = elim (Bool-cases (is_flat fd)) [
  | inl flat ↦ absurd (clash (sym (dropped i (collide-flat j p i fd s flat)) ∙ kept))
  | inr direct ↦ (direct, λ other. dropped j (collide-direct j p i fd s direct other))
]
  where
    clash : true ≡ false → ⊥
    clash e = cc

    dropped :
        (k : ℕ)
        → among_places k (collide j p i fd s).drop ≡ true
        → among_places k
            (sweep (i + 1) (firsts_after first i fd) (sweep_after first s i fd) fds).drop
          ≡ true
    dropped k e = sweep-among (i + 1) (firsts_after first i fd) (sweep_after first s i fd) fds k (
        subst (λ x. among_places k x.drop ≡ true) (sym (sweep_after-collide first s i fd j p z h))
          e)

In-kept :
    (b : Bool) (y fd : FieldDecl) (rest : List FieldDecl)
    → In y (if b then rest else fd ∷ rest)
    → ((b ≡ false) × (y ≡ fd)) ⊎ In y rest
In-kept true y fd rest h = inr h
In-kept false y fd rest (inl e) = inl (refl, e)
In-kept false y fd rest (inr h) = inr h

behind-KeptBehind :
    (t j : ℕ) (p : FieldDecl) (i : ℕ) (first : Firsts) (s : Sweep) (fds : List FieldDecl)
    (y : FieldDecl)
    → (t == 0) ≡ false
    → first_at first t ≡ some (j, p)
    → In y (keep_from i (sweep i first s fds).drop fds)
    → y.tag ≡ t
    → KeptBehind j p (sweep i first s fds).drop y
unfolding sweep keep_from
behind-KeptBehind t j p i first s [] y z h m e = absurd m
behind-KeptBehind t j p i first s (fd ∷ fds) y z h m e =
    elim (In-kept (among_places i D) y fd rest m) [
      | inl here ↦
          subst (λ x. KeptBehind j p D x) (sym here.1)
            (hit-KeptBehind first s i fd fds j p
              (subst (λ x. (x == 0) ≡ false) (sym e ∙ ap (λ x. x.tag) here.1) z)
              (subst (λ x. first_at first x ≡ some (j, p)) (sym e ∙ ap (λ x. x.tag) here.1) h)
              here.0)
      | inr there ↦
          behind-KeptBehind t j p (i + 1) (firsts_after first i fd) (sweep_after first s i fd) fds y
            z (firsts_after-seen first i fd t (j, p) h) there e
    ]
  where
    D : List ℕ
    D = (sweep (i + 1) (firsts_after first i fd) (sweep_after first s i fd) fds).drop

    rest : List FieldDecl
    rest = keep_from (i + 1) D fds

-- A kept field against the kept fields behind it
kept-AreDirect :
    (i : ℕ) (first : Firsts) (s : Sweep) (fd : FieldDecl) (fds : List FieldDecl) (y : FieldDecl)
    → among_places i (sweep (i + 1) (firsts_after first i fd) (sweep_after first s i fd) fds).drop
      ≡ false
    → In y (
        keep_from
          (i + 1)
          (sweep (i + 1) (firsts_after first i fd) (sweep_after first s i fd) fds).drop
          fds)
    → AreDirect fd y
unfolding AreDirect
kept-AreDirect i first s fd fds y kept m same z = seen (first_at first fd.tag) refl
  where
    F : Firsts
    F = firsts_after first i fd

    S : Sweep
    S = sweep_after first s i fd

    behind :
        (j : ℕ) (p : FieldDecl)
        → first_at F fd.tag ≡ some (j, p)
        → KeptBehind j p (sweep (i + 1) F S fds).drop y
    behind j p h = behind-KeptBehind fd.tag j p (i + 1) F S fds y z h m (sym same)

    direct :
        (b : Bool) → (b ≡ true → among_places i (sweep (i + 1) F S fds).drop ≡ true) → b ≡ false
    direct false h = refl
    direct true h = absurd (clash (sym (h refl) ∙ kept))
      where
        clash : true ≡ false → ⊥
        clash e = cc

    seen :
        (o : Option (ℕ × FieldDecl))
        → first_at first fd.tag ≡ o
        → (is_flat fd ≡ false) × (is_flat y ≡ false)
    seen (some (j, p)) h = (
      (hit-KeptBehind first s i fd fds j p z h kept).0,
      (behind j p (firsts_after-seen first i fd fd.tag (j, p) h)).0,
    )
    seen none h =
        let new : first_at F fd.tag ≡ some (i, fd) = rw (z, h) (first_at-last first i fd h) in
        (direct (is_flat fd) (behind i fd new).1, (behind i fd new).0)

sweep-SharesDirectly :
    (i : ℕ) (first : Firsts) (s : Sweep) (fds : List FieldDecl)
    → SharesDirectly (keep_from i (sweep i first s fds).drop fds)
unfolding sweep keep_from SharesDirectly
sweep-SharesDirectly i first s [] = tt
sweep-SharesDirectly i first s (fd ∷ fds) =
    joined
      (among_places i (sweep (i + 1) (firsts_after first i fd) (sweep_after first s i fd) fds).drop)
      refl (sweep-SharesDirectly (i + 1) (firsts_after first i fd) (sweep_after first s i fd) fds)
  where
    rest : List FieldDecl
    rest =
        keep_from (i + 1)
          (sweep (i + 1) (firsts_after first i fd) (sweep_after first s i fd) fds).drop fds

    joined :
        (b : Bool)
        → among_places i
            (sweep (i + 1) (firsts_after first i fd) (sweep_after first s i fd) fds).drop
          ≡ b
        → SharesDirectly rest
        → SharesDirectly (if b then rest else fd ∷ rest)
    joined true e h = h
    joined false e h = (λ y m. kept-AreDirect i first s fd fds y e m, h)

pub check_flattened_tag_collisions-SharesDirectly :
    (fds : List FieldDecl) → SharesDirectly (check_flattened_tag_collisions fds).0
unfolding check_flattened_tag_collisions
check_flattened_tag_collisions-SharesDirectly fds =
    sweep-SharesDirectly 0 [] (record { drop = []; reported = 0 }) fds
