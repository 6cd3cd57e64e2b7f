-- ===== src/Writer/Replay/Ahead.antt =====
-- What the cache holds for the calls that are still to come.
use gsbm.Common.{
  ℕ, ◌+◌, ◌≡◌, refl, sym, ap, ◌∙◌, Bool, true, false, ◌&&◌, Bool-cases, inl, inr, List, [], ◌∷◌,
  ◌++◌, append-nil, map, arith,
}
use gsbm.Common.{◌==◌, ==_iff, drop, drop-drop}
use mathlib.Core.Path.{subst}
use gsbm.Writer.State.{Writer}
use gsbm.Writer.Cached.{entry_for, put_entry, empty_entry, rewind}
use gsbm.Writer.Replay.{
  CachedCall, cached_string, cached_bytes, cached_append, Visits, Lane, strings_lane, values_lane,
  same_lane, lane_of, site_of, made, SameSite, here, lane, entry_for-put_entry, entry_for-rewind,
  stored, values_in, cursor, moved, ahead_in, ahead_in-moved,
}
use gsbm.Writer.Replay.Grown.{Entries, Grows, AllVisited}

-- What is stored and not read yet are the values of the visits to come.
pub IsAhead : Entries → Visits → Type 0
IsAhead m vs = (l : Lane) (k : ℕ) → ahead_in l (entry_for m k) ≡ lane l k vs

pub SameSite-lem :
    (c d : CachedCall) → SameSite c d → (lane_of d ≡ lane_of c) × (site_of d ≡ site_of c)
SameSite-lem (cached_string k g) (cached_string j h) e = (refl, sym e)
SameSite-lem (cached_string k g) (cached_bytes j h) e = absurd e
SameSite-lem (cached_string k g) (cached_append j h) e = absurd e
SameSite-lem (cached_bytes k g) (cached_string j h) e = absurd e
SameSite-lem (cached_bytes k g) (cached_bytes j h) e = (refl, sym e)
SameSite-lem (cached_bytes k g) (cached_append j h) e = absurd e
SameSite-lem (cached_append k g) (cached_string j h) e = absurd e
SameSite-lem (cached_append k g) (cached_bytes j h) e = absurd e
SameSite-lem (cached_append k g) (cached_append j h) e = (refl, sym e)

same_lane_refl : (l : Lane) → same_lane l l ≡ true
same_lane_refl strings_lane = refl
same_lane_refl values_lane = refl

same_lane-eq : (l m : Lane) → same_lane l m ≡ true → l ≡ m
same_lane-eq strings_lane strings_lane e = refl
same_lane-eq strings_lane values_lane e = cc
same_lane-eq values_lane strings_lane e = cc
same_lane-eq values_lane values_lane e = refl

lane-here :
    (c : CachedCall) (vs : Visits)
    → lane (lane_of c) (site_of c) (c ∷ vs) ≡ made c ∷ lane (lane_of c) (site_of c) vs
unfolding lane
lane-here c vs =
    let at : (site_of c == site_of c) ≡ true = ground arith in
    rw (same_lane_refl (lane_of c), at) refl

lane-other :
    (c : CachedCall) (m : Lane) (j : ℕ) (vs : Visits)
    → (here m j c) ≡ false
    → lane m j (c ∷ vs) ≡ lane m j vs
unfolding lane
lane-other c m j vs e = rw e refl

drop_next :
    (n : ℕ) (xs : List (List ℕ)) (x : List ℕ) (ys : List (List ℕ))
    → drop n xs ≡ x ∷ ys
    → drop (n + 1) xs ≡ ys
drop_next n xs x ys e = sym (drop-drop 1 n xs) ∙ ap (λ t. drop 1 t) e

abbrev pub read : CachedCall → Entries → Entries
read c m = put_entry m (site_of c) (moved (lane_of c) (entry_for m (site_of c)))

-- The entry of the callsite, behind the call that read its lane.
ahead_in-read :
    (c : CachedCall) (m : Entries) (vs : Visits) (l : Lane)
    → IsAhead m (c ∷ vs)
    → ahead_in l (moved (lane_of c) (entry_for m (site_of c))) ≡ lane l (site_of c) vs
unfolding IsAhead
ahead_in-read c m vs l r = elim (Bool-cases (same_lane (lane_of c) l)) [
  | inl same ↦
      rw (ahead_in-moved (lane_of c) l (entry_for m (site_of c)), same)
        (subst
          (λ x.
            drop (cursor x (entry_for m (site_of c)) + 1) (values_in x (entry_for m (site_of c)))
            ≡ lane x (site_of c) vs)
          (same_lane-eq (lane_of c) l same)
          (drop_next (cursor (lane_of c) (entry_for m (site_of c)))
            (values_in (lane_of c) (entry_for m (site_of c))) (made c)
            (lane (lane_of c) (site_of c) vs) (r (lane_of c) (site_of c) ∙ lane-here c vs)))
  | inr other ↦
      rw (ahead_in-moved (lane_of c) l (entry_for m (site_of c)), other)
        (r l (site_of c) ∙ lane-other c l (site_of c) vs (rw other refl))
]

pub read-IsAhead :
    (c : CachedCall) (m : Entries) (vs : Visits) → IsAhead m (c ∷ vs) → IsAhead (read c m) vs
unfolding IsAhead
read-IsAhead c m vs r l j =
    rw (entry_for-put_entry m (site_of c) j (moved (lane_of c) (entry_for m (site_of c))))
      (elim (Bool-cases (site_of c == j)) [
        | inl same ↦ rw (same, ← (==_iff (site_of c) j).0 same) (ahead_in-read c m vs l r)
        | inr other ↦
            rw other (r l j ∙ lane-other c l j vs (rw other (nowhere (same_lane (lane_of c) l))))
      ])
  where
    nowhere : (b : Bool) → (b && false) ≡ false
    nowhere true = refl
    nowhere false = refl

pub next_stored :
    (c d : CachedCall) (w : Writer) (vs : Visits)
    → SameSite c d
    → IsAhead w.scratch (c ∷ vs)
    → ahead_in (lane_of d) (stored w (site_of d)) ≡ made c ∷ lane (lane_of c) (site_of c) vs
unfolding IsAhead
next_stored c d w vs s r =
    let (l, k) = SameSite-lem c d s in
    ap (λ x. ahead_in x (stored w (site_of d))) l
    ∙ (ap (λ (x : ℕ). ahead_in (lane_of c) (stored w x)) k
        ∙ (r (lane_of c) (site_of c) ∙ lane-here c vs))

-- Nothing is stored before the size pass.
pub empty-AllVisited : AllVisited []
unfolding AllVisited entry_for
empty-AllVisited strings_lane k = refl
empty-AllVisited values_lane k = refl

pub rewound-IsAhead :
    (m : Entries) (vs : Visits) → Grows [] vs m → IsAhead (map rewind m) (vs ++ [])
unfolding Grows IsAhead entry_for
rewound-IsAhead m vs g l k = rw (entry_for-rewind m k, append-nil vs) (rewound l (g l k))
  where
    rewound :
        (l : Lane)
        → values_in l (entry_for m k) ≡ values_in l empty_entry ++ lane l k vs
        → ahead_in l (record (entry_for m k) { strings_idx = 0; values_idx = 0 }) ≡ lane l k vs
    rewound strings_lane e = e
    rewound values_lane e = e
