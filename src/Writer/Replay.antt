-- ===== src/Writer/Replay.antt =====
-- The two passes of gsbm.Marshal over the calls of WriteCachedString, WriteCachedBytes and
-- WriteCachedAppendBytes (writer.go), in any order and at any callsites.
pub mod Once
pub mod Cache
pub mod Grown
pub mod SizePass
pub mod Ahead
pub mod WritePass
use gsbm.Common.{
  ℕ, zero, suc, ◌+◌, ◌-◌, ◌≤◌, ◌<◌, ◌≡◌, ◌≢◌, refl, sym, ap, ◌∙◌, Bool, true, false, ◌&&◌,
  Bool-cases, inl, inr, Option, none, some, List, [], ◌∷◌, ◌++◌, append_assoc, append-nil, map,
  arith,
}
use gsbm.Common.{
  ltb, ◌==◌, ==_iff, if◌then◌else◌, length, length-append, take, drop, drop-drop, get_or,
  get_or-drop, drop_all,
}
use gsbm.Errors.{Result, ok, err}
use gsbm.Varint.{varint_len, append_uvarint}
use gsbm.Writer.State.{Writer, ScratchEntry, new_writer, new_counting_writer, after_write}
use gsbm.Writer.Regions.{begin_length_delim, end_length_delim}
use gsbm.Writer.Calls.{Call, Calls, bytes, region, done, next, run_call}
use gsbm.Writer.Cached.{
  entry_for, put_entry, empty_entry, Visit, write_cached_string, write_cached_bytes,
  write_cached_append_bytes, rewind, adopt_scratch,
}

-- A call of one of the three methods, at a callsite: what the function that it gets would return.
pub data CachedCall : Type 0 where
  cached_string cached_bytes : ℕ → List ℕ → CachedCall
  cached_append : ℕ → Result (List ℕ) → CachedCall

abbrev pub Visits : Type 0
Visits = List CachedCall

unfoldable pub run_cached : CachedCall → Writer → Visit
run_cached (cached_string k g) w = write_cached_string w k g
run_cached (cached_bytes k g) w = write_cached_bytes w k g
run_cached (cached_append k r) w = write_cached_append_bytes w k r

abbrev pub plus_run : Bool → ℕ → ℕ
plus_run true n = n + 1
plus_run false n = n

-- What a MarshalGSBM method does: plain calls, cached ones, and regions around more of both.
mutual
  pub data Step : Type 0 where
    plain : Call → Step
    cached : CachedCall → Step
    block : Body → Step

  pub data Body : Type 0 where
    finish : Body
    step : Step → Body → Body

-- One pass: the Writer that it leaves, and how often a materializer ran.
unfoldable mutual
  pub step_pass : Step → Writer → Writer × ℕ
  step_pass (plain c) w = (run_call c w, 0)
  step_pass (cached c) w = let v = run_cached c w in (v.0, plus_run v.1 0)
  step_pass (block b) w =
      let (marker, w') = begin_length_delim w in
      let o = cached_pass b w' in (end_length_delim o.0 marker, o.1)

  pub cached_pass : Body → Writer → Writer × ℕ
  cached_pass finish w = (w, 0)
  cached_pass (step s b) w =
      let o = step_pass s w in let rest = cached_pass b o.0 in (rest.0, o.1 + rest.1)

-- The lanes of an entry: the strings, and the byte slices.
pub data Lane : Type 0 where
  strings_lane values_lane : Lane

abbrev pub same_lane : Lane → Lane → Bool
same_lane strings_lane strings_lane = true
same_lane strings_lane values_lane = false
same_lane values_lane strings_lane = false
same_lane values_lane values_lane = true

abbrev pub lane_of : CachedCall → Lane
lane_of (cached_string k g) = strings_lane
lane_of (cached_bytes k g) = values_lane
lane_of (cached_append k r) = values_lane

abbrev pub site_of : CachedCall → ℕ
site_of (cached_string k g) = k
site_of (cached_bytes k g) = k
site_of (cached_append k r) = k

abbrev pub made : CachedCall → List ℕ
made (cached_string k g) = g
made (cached_bytes k g) = g
made (cached_append k (ok g)) = g
made (cached_append k (err x)) = []

-- The function does not fail.
abbrev pub IsMade : CachedCall → Type 0
IsMade (cached_string k g) = Unit
IsMade (cached_bytes k g) = Unit
IsMade (cached_append k (ok g)) = Unit
IsMade (cached_append k (err x)) = ⊥

abbrev pub AllMade : Visits → Type 0
AllMade [] = Unit
AllMade (c ∷ vs) = IsMade c × AllMade vs

-- Same method and same callsite, whatever the functions return.
abbrev pub SameSite : CachedCall → CachedCall → Type 0
SameSite (cached_string k g) (cached_string j h) = k ≡ j
SameSite (cached_bytes k g) (cached_bytes j h) = k ≡ j
SameSite (cached_append k r) (cached_append j s) = k ≡ j
SameSite c d = ⊥

abbrev pub here : Lane → ℕ → CachedCall → Bool
here l k c = same_lane (lane_of c) l && site_of c == k

-- The values of one lane of a callsite, in order.
unfoldable pub lane : Lane → ℕ → Visits → List (List ℕ)
lane l k [] = []
lane l k (c ∷ vs) = if here l k c then made c ∷ lane l k vs else lane l k vs

pub lane-append :
    (l : Lane) (k : ℕ) (vs ws : Visits) → lane l k (vs ++ ws) ≡ lane l k vs ++ lane l k ws
unfolding lane
lane-append l k [] ws = refl
lane-append l k (c ∷ vs) ws = elim (Bool-cases (here l k c)) [
  | inl e ↦ rw e (ap (λ x. made c ∷ x) (lane-append l k vs ws))
  | inr e ↦ rw e (lane-append l k vs ws)
]

pub AllMade-append : (vs ws : Visits) → AllMade (vs ++ ws) → AllMade vs × AllMade ws
AllMade-append [] ws h = (tt, h)
AllMade-append (c ∷ vs) ws h = let (a, b) = AllMade-append vs ws h.1 in ((h.0, a), b)

-- The cached calls of a body, in order, and the body with the values written in place of them.
unfoldable mutual
  pub step_visits : Step → Visits
  step_visits (plain c) = []
  step_visits (cached c) = c ∷ []
  step_visits (block b) = visits b

  pub visits : Body → Visits
  visits finish = []
  visits (step s b) = step_visits s ++ visits b

unfoldable mutual
  pub step_call : Step → Call
  step_call (plain c) = c
  step_call (cached c) = bytes (made c)
  step_call (block b) = region (calls_of b)

  pub calls_of : Body → Calls
  calls_of finish = done
  calls_of (step s b) = next (step_call s) (calls_of b)

-- The same calls in the same order, the cached ones at the same callsites, whatever the functions of
-- these return.
unfoldable mutual
  pub SameStep : Step → Step → Type 0
  SameStep (plain c) (plain d) = c ≡ d
  SameStep (cached c) (cached d) = SameSite c d
  SameStep (block a) (block b) = SameBody a b
  SameStep s t = ⊥

  pub SameBody : Body → Body → Type 0
  SameBody finish finish = Unit
  SameBody (step s a) (step t b) = SameStep s t × SameBody a b
  SameBody a b = ⊥

pub entry_for-put_entry :
    (m : List (ℕ × ScratchEntry)) (k j : ℕ) (e : ScratchEntry)
    → entry_for (put_entry m k e) j ≡ (if k == j then e else entry_for m j)
unfolding entry_for put_entry
entry_for-put_entry [] k j e = refl
entry_for-put_entry ((l, d) ∷ m) k j e = ground (arith, entry_for-put_entry m k j e)

pub entry_for-rewind :
    (m : List (ℕ × ScratchEntry)) (k : ℕ)
    → entry_for (map rewind m) k ≡ record (entry_for m k) { strings_idx = 0; values_idx = 0 }
unfolding entry_for
entry_for-rewind [] k = refl
entry_for-rewind ((l, d) ∷ m) k = elim (Bool-cases (l == k)) [
  | inl here ↦ rw here refl
  | inr later ↦ rw later (entry_for-rewind m k)
]

abbrev pub stored : Writer → ℕ → ScratchEntry
stored w k = entry_for w.scratch k

abbrev pub values_in : Lane → ScratchEntry → List (List ℕ)
values_in strings_lane e = e.strings
values_in values_lane e = e.values

abbrev pub cursor : Lane → ScratchEntry → ℕ
cursor strings_lane e = e.strings_idx
cursor values_lane e = e.values_idx

abbrev pub materialized : Lane → ScratchEntry → List ℕ → ScratchEntry
materialized strings_lane e g = record e {
  strings = e.strings ++ g ∷ [];
  strings_idx = e.strings_idx + 1;
}
materialized values_lane e g = record e {
  values = e.values ++ g ∷ [];
  values_idx = e.values_idx + 1;
}

abbrev pub moved : Lane → ScratchEntry → ScratchEntry
moved strings_lane e = record e { strings_idx = e.strings_idx + 1 }
moved values_lane e = record e { values_idx = e.values_idx + 1 }

pub values_in-materialized :
    (l m : Lane) (e : ScratchEntry) (g : List ℕ)
    → values_in m (materialized l e g)
      ≡ (if same_lane l m then values_in m e ++ g ∷ [] else values_in m e)
values_in-materialized strings_lane strings_lane e g = refl
values_in-materialized strings_lane values_lane e g = refl
values_in-materialized values_lane strings_lane e g = refl
values_in-materialized values_lane values_lane e g = refl

pub cursor-materialized :
    (l m : Lane) (e : ScratchEntry) (g : List ℕ)
    → cursor m (materialized l e g) ≡ (if same_lane l m then cursor m e + 1 else cursor m e)
cursor-materialized strings_lane strings_lane e g = refl
cursor-materialized strings_lane values_lane e g = refl
cursor-materialized values_lane strings_lane e g = refl
cursor-materialized values_lane values_lane e g = refl

-- What is stored on a lane and not read yet
abbrev pub ahead_in : Lane → ScratchEntry → List (List ℕ)
ahead_in l e = drop (cursor l e) (values_in l e)

pub ahead_in-moved :
    (l m : Lane) (e : ScratchEntry)
    → ahead_in m (moved l e)
      ≡ (if same_lane l m then drop (cursor m e + 1) (values_in m e) else ahead_in m e)
ahead_in-moved strings_lane strings_lane e = refl
ahead_in-moved strings_lane values_lane e = refl
ahead_in-moved values_lane strings_lane e = refl
ahead_in-moved values_lane values_lane e = refl
