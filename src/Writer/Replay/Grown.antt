-- ===== src/Writer/Replay/Grown.antt =====
-- The values that the size pass adds to the cache.
use gsbm.Common.{
  ℕ, ◌+◌, ◌≡◌, refl, sym, ap, ◌∙◌, Bool, true, false, ◌&&◌, Bool-cases, inl, inr, List, [], ◌∷◌,
  ◌++◌, append_assoc, append-nil, arith,
}
use gsbm.Common.{if◌then◌else◌, ◌==◌, ==_iff, length, length-append}
use gsbm.Writer.State.{ScratchEntry}
use gsbm.Writer.Cached.{entry_for, put_entry}
use gsbm.Writer.Replay.{
  CachedCall, Visits, Lane, same_lane, lane_of, site_of, made, lane, lane-append,
  entry_for-put_entry, values_in, cursor, materialized, values_in-materialized, cursor-materialized,
}

abbrev pub Entries : Type 0
Entries = List (ℕ × ScratchEntry)

-- Everything that is stored has been visited.
unfoldable pub AllVisited : Entries → Type 0
AllVisited m = (l : Lane) (k : ℕ) → cursor l (entry_for m k) ≡ length (values_in l (entry_for m k))

-- The values of the visits are stored behind the others.
unfoldable pub Grows : Entries → Visits → Entries → Type 0
Grows m vs n =
    (l : Lane) (k : ℕ) → values_in l (entry_for n k) ≡ values_in l (entry_for m k) ++ lane l k vs

visited-materialized :
    (l m : Lane) (e : ScratchEntry) (g : List ℕ)
    → cursor m e ≡ length (values_in m e)
    → cursor m (materialized l e g) ≡ length (values_in m (materialized l e g))
visited-materialized l m e g h =
    rw (cursor-materialized l m e g, values_in-materialized l m e g) (both (same_lane l m))
  where
    both :
        (b : Bool)
        → (if b then cursor m e + 1 else cursor m e)
          ≡ length (if b then values_in m e ++ g ∷ [] else values_in m e)
    both true = omega (arith, h, length-append (values_in m e) (g ∷ []))
    both false = h

abbrev pub added : CachedCall → Entries → Entries
added c m = put_entry m (site_of c) (materialized (lane_of c) (entry_for m (site_of c)) (made c))

pub added-AllVisited : (c : CachedCall) (m : Entries) → AllVisited m → AllVisited (added c m)
unfolding AllVisited
added-AllVisited c m h l j =
    rw
      (entry_for-put_entry m (site_of c) j
        (materialized (lane_of c) (entry_for m (site_of c)) (made c)))
      (elim (Bool-cases (site_of c == j)) [
        | inl same ↦ rw same (
            visited-materialized (lane_of c) l (entry_for m (site_of c)) (made c) (h l (site_of c)))
        | inr other ↦ rw other (h l j)
      ])

pub added-Grows : (c : CachedCall) (m : Entries) → Grows m (c ∷ []) (added c m)
unfolding Grows lane
added-Grows c m l j =
    rw
      (entry_for-put_entry m (site_of c) j
        (materialized (lane_of c) (entry_for m (site_of c)) (made c)))
      (elim (Bool-cases (site_of c == j)) [
        | inl same ↦
            rw
              (
                same,
                (==_iff (site_of c) j).0 same,
                values_in-materialized (lane_of c) l (entry_for m j) (made c),
              )
              (grown (same_lane (lane_of c) l))
        | inr other ↦ rw other (elsewhere (same_lane (lane_of c) l))
      ])
  where
    grown :
        (b : Bool)
        → (if b then values_in l (entry_for m j) ++ made c ∷ [] else values_in l (entry_for m j))
          ≡ values_in l (entry_for m j) ++ (if b && true then made c ∷ [] else [])
    grown true = refl
    grown false = sym (append-nil (values_in l (entry_for m j)))

    elsewhere :
        (b : Bool)
        → values_in l (entry_for m j)
          ≡ values_in l (entry_for m j) ++ (if b && false then made c ∷ [] else [])
    elsewhere true = sym (append-nil (values_in l (entry_for m j)))
    elsewhere false = sym (append-nil (values_in l (entry_for m j)))

pub Grows-refl : (m : Entries) → Grows m [] m
unfolding Grows lane
Grows-refl m l k = sym (append-nil (values_in l (entry_for m k)))

pub Grows-trans :
    (m n o : Entries) (vs ws : Visits) → Grows m vs n → Grows n ws o → Grows m (vs ++ ws) o
unfolding Grows
Grows-trans m n o vs ws g h l k =
    h l k
    ∙ (ap (λ x. x ++ lane l k ws) (g l k)
        ∙ (append_assoc (values_in l (entry_for m k)) (lane l k vs) (lane l k ws)
            ∙ ap (λ x. values_in l (entry_for m k) ++ x) (sym (lane-append l k vs ws))))
