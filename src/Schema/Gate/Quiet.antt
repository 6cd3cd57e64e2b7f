-- ===== src/Schema/Gate/Quiet.antt =====
-- Lists of changes that leave the gate open.
use gsbm.Common.{
  ◌≡◌, refl, Bool, Bool-cases, true, false, not, ◌&&◌, inl, inr, List, [], ◌∷◌, ◌++◌, map, arith,
}
use gsbm.Common.{if◌then◌else◌}
use gsbm.Schema.{Text, is_empty}
use gsbm.Schema.Field.{Change, join}
use gsbm.Schema.Classifier.{acknowledge}
use gsbm.Schema.Compatible.{calm}
use gsbm.Schema.Gate.{DiffOptions, admit, admit_all, is_open, blocks}
use gsbm.Schema.Gate.Fresh.{Fresh}

abbrev pub admit_if : Bool → Change → Change
admit_if b c = if b then admit c else c

-- No change is open once `f` has acknowledged it.
unfoldable pub quiet : (Change → Change) → List Change → Bool
quiet f [] = true
quiet f (c ∷ cs) = not (is_open (f c)) && quiet f cs

pub quiet-append :
    (f : Change → Change) (xs ys : List Change)
    → quiet f (xs ++ ys) ≡ true
    → (quiet f xs ≡ true) × (quiet f ys ≡ true)
unfolding quiet
quiet-append f [] ys h = (refl, h)
quiet-append f (x ∷ xs) ys h = ground (arith, quiet-append f xs ys)

quiet-blocks-map :
    (f : Change → Change) (cs : List Change) → blocks (map f cs) ≡ false → quiet f cs ≡ true
unfolding quiet blocks
quiet-blocks-map f [] h = refl
quiet-blocks-map f (c ∷ cs) h = ground (arith, quiet-blocks-map f cs)

quiet-blocks_plain : (cs : List Change) → blocks cs ≡ false → quiet (λ c. c) cs ≡ true
unfolding quiet blocks
quiet-blocks_plain [] h = refl
quiet-blocks_plain (c ∷ cs) h = ground (arith, quiet-blocks_plain cs)

pub quiet-blocks :
    (opts : DiffOptions) (cs : List Change)
    → blocks (admit_all opts cs) ≡ false
    → quiet (admit_if opts.allow_stop_compat_write) cs ≡ true
quiet-blocks opts cs h = elim (Bool-cases opts.allow_stop_compat_write) [
  | inl flag ↦ rw flag (quiet-blocks-map admit cs (rw flag at h))
  | inr plain ↦ rw plain (quiet-blocks_plain cs (rw plain at h))
]

pub quiet-map :
    (b : Bool) (reason : Text) (cs : List Change)
    → quiet (admit_if b) (map (acknowledge reason) cs)
      ≡ quiet (λ c. admit_if b (acknowledge reason c)) cs
unfolding quiet
quiet-map b reason [] = refl
quiet-map b reason (c ∷ cs) = rw (quiet-map b reason cs)

-- Without a justification and without the flag a fresh breaking change stays open.
pub quiet-calm :
    (b : Bool) (reason : Text) (cs : List Change)
    → Fresh cs
    → b ≡ false
    → is_empty reason ≡ true
    → quiet (λ c. admit_if b (acknowledge reason c)) cs ≡ true
    → calm cs ≡ true
unfolding quiet calm
quiet-calm b reason [] f h e q = refl
quiet-calm b reason (c ∷ cs) f h e q = ground (arith, quiet-calm b reason cs f.1 h e)

unfoldable pub AllQuiet : (Change → Change) → List (List Change) → Type 0
AllQuiet f [] = Unit
AllQuiet f (cs ∷ css) = (quiet f cs ≡ true) × AllQuiet f css

pub quiet-join :
    (f : Change → Change) (css : List (List Change)) → quiet f (join css) ≡ true → AllQuiet f css
unfolding join AllQuiet
quiet-join f [] h = tt
quiet-join f (cs ∷ css) h = let (a, b) = quiet-append f cs (join css) h in (a, quiet-join f css b)
