-- ===== src/Writer/Replay/SizePass.antt =====
-- The size pass over a body with cached calls: it counts, runs every function and keeps the values.
use gsbm.Common.{ℕ, ◌^◌, ◌<◌, ◌≡◌, refl, sym, none, List, [], ◌∷◌, ◌++◌, arith}
use gsbm.Common.{length, length-append}
use mathlib.Core.Path.{subst}
use gsbm.Varint.Encoding.{varint}
use gsbm.Writer.State.{Writer}
use gsbm.Writer.Regions.{begin_length_delim, end_length_delim}
use gsbm.Writer.Calls.{
  Call, run_call, encode_call, encode, IsLegalCall, IsLegal, call_sizes, region_sizes,
}
use gsbm.Writer.Counting.{run_call-Counts, Counts-trans, Counts-refl}
use gsbm.Writer.Counting.Methods.{
  IsCounting, Counts, write_bytes-Counts, begin_length_delim-Counting, begin_counted-IsCounting,
  region-Counts,
}
use gsbm.Writer.Replay.{
  CachedCall, Visits, Step, plain, cached, block, Body, finish, step, step_pass, cached_pass, Lane,
  lane_of, site_of, made, AllMade, AllMade-append, step_visits, visits, step_call, calls_of, stored,
  values_in, cursor,
}
use gsbm.Writer.Replay.Once.{run_cached-fresh, fresh_write}
use gsbm.Writer.Replay.Cache.{
  run_call-Leaves, bytes-Leaves, begin_length_delim-Leaves, end_length_delim-Leaves,
}
use gsbm.Writer.Replay.Grown.{
  AllVisited, Grows, added, added-AllVisited, added-Grows, Grows-refl, Grows-trans,
}

-- A Writer that counts, and what a pass over these bytes, regions and visits does to it.
pub record IsSizing (w : Writer) : Type 0 where
  pub counting : IsCounting w
  pub target : w.stream_target ≡ none
  pub visited : AllVisited w.scratch

pub record Sizes (w : Writer) (bs sizes : List ℕ) (vs : Visits) (o : Writer × ℕ) : Type 0 where
  pub counts : Counts w bs sizes o.0
  pub target : o.0.stream_target ≡ none
  pub visited : AllVisited o.0.scratch
  pub grows : Grows w.scratch vs o.0.scratch
  pub runs : o.1 ≡ length vs

again :
    (w : Writer) (bs sizes : List ℕ) (vs : Visits) (o : Writer × ℕ)
    → Sizes w bs sizes vs o
    → IsSizing o.0
again w bs sizes vs o m = record {
  counting = m.counts.ready;
  target = m.target;
  visited = m.visited;
}

plain-Sizes :
    (c : Call) (w : Writer)
    → IsSizing w
    → IsLegalCall c
    → Sizes w (encode_call c) (call_sizes c) [] (run_call c w, 0)
plain-Sizes c w r h =
    let left = run_call-Leaves c w r.target in
    record {
      counts = run_call-Counts c w r.counting h;
      target = left.1;
      visited = subst AllVisited (sym left.0) r.visited;
      grows = subst (λ m. Grows w.scratch [] m) (sym left.0) (Grows-refl w.scratch);
      runs = refl;
    }

cached-Sizes :
    (c : CachedCall) (w : Writer)
    → IsSizing w
    → length (made c) < 2 ^ 35
    → Sizes w
        (varint (length (made c)) ++ made c)
        []
        (c ∷ [])
        (fresh_write (lane_of c) (site_of c) (made c) w, 1)
cached-Sizes c w r h =
    let ready : Writer = record w { scratch = added c w.scratch } in
    let counts =
      write_bytes-Counts ready (made c)
        (record { live = r.counting.live; sized = r.counting.sized }) h in
    let left = bytes-Leaves ready (made c) r.target in
    record {
      counts = record {
        ready = counts.ready;
        size = counts.size;
        recording = counts.recording;
        stack = counts.stack;
        recorded = counts.recorded;
      };
      target = left.1;
      visited = subst AllVisited (sym left.0) (added-AllVisited c w.scratch r.visited);
      grows = subst (λ m. Grows w.scratch (c ∷ []) m) (sym left.0) (added-Grows c w.scratch);
      runs = refl;
    }

visited_at :
    (w : Writer) (l : Lane) (j : ℕ)
    → AllVisited w.scratch
    → cursor l (stored w j) ≡ length (values_in l (stored w j))
unfolding AllVisited
visited_at w l j h = h l j

block-Sizes :
    (w : Writer) (bs sizes : List ℕ) (vs : Visits) (o : Writer × ℕ)
    → IsSizing w
    → Sizes (begin_length_delim w).1 bs sizes vs o
    → length bs < 2 ^ 35
    → Sizes w
        (varint (length bs) ++ bs)
        (length bs ∷ sizes)
        vs
        (end_length_delim o.0 (begin_length_delim w).0, o.1)
block-Sizes w bs sizes vs o r m h =
    let opening = begin_length_delim-Counting w r.counting in
    let first = begin_length_delim-Leaves w r.target in
    let last = end_length_delim-Leaves o.0 (begin_length_delim w).0 m.target in
    record {
      counts =
          subst
            (λ x.
              Counts w (varint (length bs) ++ bs) (length bs ∷ sizes) (end_length_delim o.0 x.0))
            (sym opening)
            (region-Counts w o.0 bs sizes r.counting
              (subst (λ x. Counts x.1 bs sizes o.0) opening m.counts) h);
      target = last.1;
      visited = subst AllVisited (sym last.0) m.visited;
      grows =
          subst (λ x. Grows x vs (end_length_delim o.0 (begin_length_delim w).0).scratch) first.0
            (subst (λ x. Grows (begin_length_delim w).1.scratch vs x) (sym last.0) m.grows);
      runs = m.runs;
    }

opened-IsSizing : (w : Writer) → IsSizing w → IsSizing (begin_length_delim w).1
opened-IsSizing w r =
    let left = begin_length_delim-Leaves w r.target in
    record {
      counting =
          subst (λ x. IsCounting x.1) (sym (begin_length_delim-Counting w r.counting))
            (begin_counted-IsCounting w r.counting);
      target = left.1;
      visited = subst AllVisited (sym left.0) r.visited;
    }

mutual
  unfolding step_pass cached_pass step_visits visits step_call calls_of encode_call encode
      IsLegalCall IsLegal call_sizes region_sizes

  step_pass-Sizes :
      (s : Step) (w : Writer)
      → AllMade (step_visits s)
      → IsSizing w
      → IsLegalCall (step_call s)
      → Sizes w
          (encode_call (step_call s))
          (call_sizes (step_call s))
          (step_visits s)
          (step_pass s w)
  step_pass-Sizes (plain c) w k r h = plain-Sizes c w r h
  step_pass-Sizes (cached c) w k r h =
      rw (run_cached-fresh c w k.0 r.counting.live (visited_at w (lane_of c) (site_of c) r.visited))
        (cached-Sizes c w r h)
  step_pass-Sizes (block b) w k r h =
      block-Sizes w (encode (calls_of b)) (region_sizes (calls_of b)) (visits b)
        (cached_pass b (begin_length_delim w).1) r
        (cached_pass-Sizes b (begin_length_delim w).1 k (opened-IsSizing w r) h.0) h.1

  pub cached_pass-Sizes :
      (b : Body) (w : Writer)
      → AllMade (visits b)
      → IsSizing w
      → IsLegal (calls_of b)
      → Sizes w (encode (calls_of b)) (region_sizes (calls_of b)) (visits b) (cached_pass b w)
  cached_pass-Sizes finish w k r h = record {
    counts = Counts-refl w r.counting;
    target = r.target;
    visited = r.visited;
    grows = Grows-refl w.scratch;
    runs = refl;
  }
  cached_pass-Sizes (step s b) w k r h =
      let (now, later) = AllMade-append (step_visits s) (visits b) k in
      let m = step_pass-Sizes s w now r h.0 in
      let o = step_pass s w in
      let n = cached_pass-Sizes b o.0 later (again w _ _ _ o m) h.1 in
      record {
        counts =
            Counts-trans (encode_call (step_call s)) (encode (calls_of b))
              (call_sizes (step_call s)) (region_sizes (calls_of b)) m.counts n.counts;
        target = n.target;
        visited = n.visited;
        grows =
            Grows-trans w.scratch o.0.scratch (cached_pass b o.0).0.scratch (step_visits s)
              (visits b) m.grows n.grows;
        runs = omega (arith, m.runs, n.runs, length-append (step_visits s) (visits b));
      }
