-- ===== src/Common/Text/Split.antt =====
-- Split undoes Join, and ParseUint undoes %d.
use Prim.Native.Nat.{ℕ, zero, suc, ◌+◌, ◌-◌, ◌/◌, ◌%◌, ◌^◌, ◌≤◌, ◌<◌}
use mathlib.Core.Path.{◌≡◌, refl, ap, ◌∙◌}
use mathlib.Core.Logic.{◌≢◌, inl, inr}
use mathlib.Core.Bool.{Bool, true, false, not, ◌&&◌}
use mathlib.Core.Option.{some}
use mathlib.Core.List.{List, [], ◌∷◌, ◌++◌}
use native.Mathlib.Omega.{arith}
use gsbm.Common.Tests.{◌==◌, Bool-cases, ==_iff}
use gsbm.Common.Text.{split, join_text, scan_uint, parse_uint32, digits, decimal}

-- No byte of the text is `b`.
abbrev pub Lacks : ℕ → List ℕ → Type 0
Lacks b [] = Unit
Lacks b (c ∷ s) = ((c == b) ≡ false) × Lacks b s

pub Lacks-append : (b : ℕ) (s t : List ℕ) → Lacks b s → Lacks b t → Lacks b (s ++ t)
Lacks-append b [] t h k = k
Lacks-append b (c ∷ s) t h k = (h.0, Lacks-append b s t h.1 k)

abbrev pub AllLack : ℕ → List (List ℕ) → Type 0
AllLack b [] = Unit
AllLack b (p ∷ ps) = Lacks b p × AllLack b ps

-- The same as a test, for texts that are known.
unfoldable pub lacks : ℕ → List ℕ → Bool
lacks b [] = true
lacks b (c ∷ s) = not (c == b) && lacks b s

unfoldable pub all_lack : ℕ → List (List ℕ) → Bool
unfolding lacks
all_lack b [] = true
all_lack b (p ∷ ps) = lacks b p && all_lack b ps

pub lacks-Lacks : (b : ℕ) (s : List ℕ) → lacks b s ≡ true → Lacks b s
unfolding lacks
lacks-Lacks b [] h = tt
lacks-Lacks b (c ∷ s) h = (ground arith, lacks-Lacks b s (ground arith))

pub all_lack-AllLack : (b : ℕ) (ps : List (List ℕ)) → all_lack b ps ≡ true → AllLack b ps
unfolding all_lack
all_lack-AllLack b [] h = tt
all_lack-AllLack b (p ∷ ps) h =
    (lacks-Lacks b p (ground arith), all_lack-AllLack b ps (ground arith))

split_last : (sep : ℕ) (p : List ℕ) → Lacks sep p → split sep p ≡ p ∷ []
unfolding split
split_last sep [] h = refl
split_last sep (c ∷ p) h = rw (h.0, split_last sep p h.1)

split_at : (sep : ℕ) (p s : List ℕ) → Lacks sep p → split sep (p ++ sep ∷ s) ≡ p ∷ split sep s
unfolding split
split_at sep [] s h = rw ((==_iff sep sep).1 refl)
split_at sep (c ∷ p) s h = rw (h.0, split_at sep p s h.1)

-- Parts without the separator come back.
pub split-join_text :
    (sep : ℕ) (p : List ℕ) (ps : List (List ℕ))
    → AllLack sep (p ∷ ps)
    → split sep (join_text (sep ∷ []) (p ∷ ps)) ≡ p ∷ ps
unfolding join_text
split-join_text sep p [] h = split_last sep p h.0
split-join_text sep p (q ∷ ps) h =
    split_at sep p _ h.0 ∙ ap (λ t. p ∷ t) (split-join_text sep q ps h.1)

-- Reading the last digit of `n` after the digits before it gives `n`.
scan_last :
    (most n : ℕ) (out : List ℕ)
    → n ≤ most
    → scan_uint most ((b'0' + n % 10) ∷ out) (n / 10) ≡ scan_uint most out n
unfolding scan_uint
scan_last most n out h = ground arith

scan_uint-digits :
    (most fuel n : ℕ) (out : List ℕ)
    → n ≤ fuel
    → n ≤ most
    → scan_uint most (digits fuel n out) 0 ≡ scan_uint most out n
unfolding digits
scan_uint-digits most zero zero out h k = refl
scan_uint-digits most zero (suc n) out h k = absurd (omega arith)
scan_uint-digits most (suc fuel) n out h k = elim (Bool-cases (n == 0)) [
  | inl done ↦ rw (done, (==_iff n 0).0 done)
  | inr more ↦ rw more (
      scan_uint-digits most fuel (n / 10) ((b'0' + n % 10) ∷ out) (ground arith) (omega arith)
      ∙ scan_last most n out k)
]

digits-ne-nil : (fuel n : ℕ) (out : List ℕ) → out ≢ [] → digits fuel n out ≢ []
unfolding digits
digits-ne-nil zero n out h = h
digits-ne-nil (suc fuel) n out h = elim (Bool-cases (n == 0)) [
  | inl done ↦ rw done h
  | inr more ↦ rw more (digits-ne-nil fuel (n / 10) ((b'0' + n % 10) ∷ out) (λ e. cc))
]

first_round-ne-nil : (n : ℕ) → (n == 0) ≡ false → digits n n [] ≢ []
unfolding digits
first_round-ne-nil zero h = absurd (ground arith)
first_round-ne-nil (suc n) h =
    rw h (digits-ne-nil n (suc n / 10) ((b'0' + suc n % 10) ∷ []) (λ k. cc))

pub decimal-ne-nil : (n : ℕ) → decimal n ≢ []
unfolding decimal
decimal-ne-nil n = elim (Bool-cases (n == 0)) [
  | inl z ↦ rw z (λ e. cc)
  | inr p ↦ rw p (first_round-ne-nil n p)
]

parse_uint32-scan_uint : (s : List ℕ) → s ≢ [] → parse_uint32 s ≡ scan_uint (2 ^ 32 - 1) s 0
unfolding parse_uint32
parse_uint32-scan_uint [] h = absurd (h refl)
parse_uint32-scan_uint (c ∷ s) h = refl

-- Every uint32 is read back from its decimal print.
pub parse_uint32-decimal : (n : ℕ) → n < 2 ^ 32 → parse_uint32 (decimal n) ≡ some n
unfolding decimal
parse_uint32-decimal n h = elim (Bool-cases (n == 0)) [
  | inl z ↦ rw z (rw ((==_iff n 0).0 z) zero_read)
  | inr p ↦ parse_uint32-scan_uint (decimal n) (decimal-ne-nil n) ∙ rw p (behind p)
]
  where
    zero_read : parse_uint32 (b'0' ∷ []) ≡ some 0
    zero_read = unfold parse_uint32 scan_uint in refl

    behind : (n == 0) ≡ false → scan_uint (2 ^ 32 - 1) (digits n n []) 0 ≡ some n
    behind p =
        scan_uint-digits (2 ^ 32 - 1) n n [] (omega arith) (omega arith) ∙ unfold scan_uint in refl

digits-Lacks : (b fuel n : ℕ) (out : List ℕ) → b < b'0' → Lacks b out → Lacks b (digits fuel n out)
unfolding digits
digits-Lacks b zero n out h k = k
digits-Lacks b (suc fuel) n out h k = elim (Bool-cases (n == 0)) [
  | inl done ↦ rw done k
  | inr more ↦ rw more (digits-Lacks b fuel (n / 10) ((b'0' + n % 10) ∷ out) h (ground arith, k))
]

-- A number's print holds digits only.
pub decimal-Lacks : (b n : ℕ) → b < b'0' → Lacks b (decimal n)
unfolding decimal
decimal-Lacks b n h = elim (Bool-cases (n == 0)) [
  | inl z ↦ rw z (ground arith, tt)
  | inr p ↦ rw p (digits-Lacks b n n [] h tt)
]
