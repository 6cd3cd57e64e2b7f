-- ===== src/Writer/Replay/WritePass.antt =====
-- The write pass over a body with cached calls: it reads the stored values and runs no function.
use gsbm.Common.{
  ℕ, ◌^◌, ◌<◌, ◌≡◌, refl, sym, ◌∙◌, false, none, List, [], ◌∷◌, ◌++◌, append_assoc, arith,
}
use gsbm.Common.{length}
use mathlib.Core.Path.{subst}
use gsbm.Varint.Encoding.{varint}
use gsbm.Writer.State.{Writer, new_writer, new_counting_writer}
use gsbm.Writer.Regions.{begin_length_delim, end_length_delim}
use gsbm.Writer.Calls.{Call, run_call, encode_call, encode, IsLegalCall, IsLegal}
use gsbm.Writer.Buffered.{
  IsReady, Emits, write_bytes-Emits, begin_length_delim-Buffered, region-Emits, Emits-trans,
  Emits-refl, run_call-Emits,
}
use gsbm.Writer.Cached.{adopt_scratch}
use gsbm.Writer.Replay.{
  CachedCall, Visits, run_cached, Step, plain, cached, block, Body, finish, step, step_pass,
  cached_pass, lane_of, site_of, made, AllMade, SameSite, SameStep, SameBody, lane, step_visits,
  visits, step_call, calls_of,
}
use gsbm.Writer.Replay.Once.{run_cached-stored, stored_write}
use gsbm.Writer.Replay.Cache.{
  run_call-Leaves, bytes-Leaves, begin_length_delim-Leaves, end_length_delim-Leaves,
}
use gsbm.Writer.Replay.SizePass.{cached_pass-Sizes}
use gsbm.Writer.Replay.Ahead.{
  IsAhead, SameSite-lem, read, read-IsAhead, next_stored, empty-AllVisited, rewound-IsAhead,
}

record Replays (w : Writer) (bs : List ℕ) (rest : Visits) (o : Writer × ℕ) : Type 0 where
  pub emits : Emits w bs o.0
  pub ahead : IsAhead o.0.scratch rest
  pub runs : o.1 ≡ 0

replay_visit :
    (c d : CachedCall) (w : Writer) (vs : Visits)
    → SameSite c d
    → IsReady w
    → IsAhead w.scratch (c ∷ vs)
    → run_cached d w ≡ (stored_write (lane_of c) (site_of c) (made c) w, false)
replay_visit c d w vs s r h =
    let (l, k) = SameSite-lem c d s in
    run_cached-stored d w (made c) (lane (lane_of c) (site_of c) vs) r.live
      (next_stored c d w vs s h)
    ∙ rw (l, k) refl

stored_write-Replays :
    (c : CachedCall) (w : Writer) (vs : Visits)
    → IsReady w
    → IsAhead w.scratch (c ∷ vs)
    → length (made c) < 2 ^ 35
    → Replays w
        (varint (length (made c)) ++ made c)
        vs
        (stored_write (lane_of c) (site_of c) (made c) w, 0)
stored_write-Replays c w vs r h g =
    let ready : Writer = record w { scratch = read c w.scratch } in
    let m =
      write_bytes-Emits ready (made c)
        (record { live = r.live; sized = r.sized; target = r.target }) g in
    record {
      emits = record { ready = m.ready; out = m.out };
      ahead =
          subst (λ x. IsAhead x vs) (sym (bytes-Leaves ready (made c) r.target).0)
            (read-IsAhead c w.scratch vs h);
      runs = refl;
    }

plain-Replays :
    (c : Call) (w : Writer) (vs : Visits)
    → IsReady w
    → IsAhead w.scratch vs
    → IsLegalCall c
    → Replays w (encode_call c) vs (run_call c w, 0)
plain-Replays c w vs r h g = record {
  emits = run_call-Emits c w r g;
  ahead = subst (λ x. IsAhead x vs) (sym (run_call-Leaves c w r.target).0) h;
  runs = refl;
}

opened-IsReady : (w : Writer) → IsReady w → IsReady (begin_length_delim w).1
opened-IsReady w r =
    rw (begin_length_delim-Buffered w r)
      (record { live = r.live; sized = r.sized; target = r.target })

block-Replays :
    (w : Writer) (bs : List ℕ) (vs : Visits) (o : Writer × ℕ)
    → IsReady w
    → Replays (begin_length_delim w).1 bs vs o
    → length bs < 2 ^ 35
    → Replays w (varint (length bs) ++ bs) vs (end_length_delim o.0 (begin_length_delim w).0, o.1)
block-Replays w bs vs o r m h =
    let opening = begin_length_delim-Buffered w r in
    record {
      emits =
          subst (λ x. Emits w (varint (length bs) ++ bs) (end_length_delim o.0 x.0)) (sym opening)
            (region-Emits w o.0 bs r (subst (λ x. Emits x.1 bs o.0) opening m.emits) h);
      ahead =
          subst (λ x. IsAhead x vs)
            (sym (end_length_delim-Leaves o.0 (begin_length_delim w).0 m.emits.ready.target).0)
            m.ahead;
      runs = m.runs;
    }

mutual
  unfolding step_pass cached_pass step_visits visits step_call calls_of encode_call encode
      IsLegalCall IsLegal SameStep SameBody

  step_pass-Replays :
      (s t : Step) (w : Writer) (rest : Visits)
      → SameStep s t
      → IsReady w
      → IsAhead w.scratch (step_visits s ++ rest)
      → IsLegalCall (step_call s)
      → Replays w (encode_call (step_call s)) rest (step_pass t w)
  step_pass-Replays (plain c) (plain d) w rest e r h g =
      subst (λ x. Replays w (encode_call c) rest (run_call x w, 0)) e (plain-Replays c w rest r h g)
  step_pass-Replays (cached c) (cached d) w rest e r h g =
      rw (replay_visit c d w rest e r h) (stored_write-Replays c w rest r h g)
  step_pass-Replays (block a) (block b) w rest e r h g =
      let left = begin_length_delim-Leaves w r.target in
      block-Replays w (encode (calls_of a)) rest (cached_pass b (begin_length_delim w).1) r
        (cached_pass-Replays a b (begin_length_delim w).1 rest e (opened-IsReady w r)
          (subst (λ x. IsAhead x (visits a ++ rest)) (sym left.0) h) g.0)
        g.1
  step_pass-Replays (plain c) (cached d) w rest e r h g = absurd e
  step_pass-Replays (plain c) (block b) w rest e r h g = absurd e
  step_pass-Replays (cached c) (plain d) w rest e r h g = absurd e
  step_pass-Replays (cached c) (block b) w rest e r h g = absurd e
  step_pass-Replays (block a) (plain d) w rest e r h g = absurd e
  step_pass-Replays (block a) (cached d) w rest e r h g = absurd e

  cached_pass-Replays :
      (a b : Body) (w : Writer) (rest : Visits)
      → SameBody a b
      → IsReady w
      → IsAhead w.scratch (visits a ++ rest)
      → IsLegal (calls_of a)
      → Replays w (encode (calls_of a)) rest (cached_pass b w)
  cached_pass-Replays finish finish w rest e r h g = record {
    emits = Emits-refl w r;
    ahead = h;
    runs = refl;
  }
  cached_pass-Replays finish (step t b) w rest e r h g = absurd e
  cached_pass-Replays (step s a) finish w rest e r h g = absurd e
  cached_pass-Replays (step s a) (step t b) w rest e r h g =
      let m =
        step_pass-Replays s t w (visits a ++ rest) e.0 r
          (subst (λ x. IsAhead w.scratch x) (append_assoc (step_visits s) (visits a) rest) h) g.0 in
      let n = cached_pass-Replays a b (step_pass t w).0 rest e.1 m.emits.ready m.ahead g.1 in
      record {
        emits = Emits-trans (encode_call (step_call s)) (encode (calls_of a)) m.emits n.emits;
        ahead = n.ahead;
        runs = omega (arith, m.runs, n.runs);
      }

-- Marshal's two passes over a body that mixes plain Writer calls, calls of WriteCachedString,
-- WriteCachedBytes and WriteCachedAppendBytes at any callsites, and regions around these, nested to any
-- depth. If no append function fails in the size pass, the calls are legal with the values of the
-- size pass, and the write pass makes the same calls at the same callsites, then the size pass runs
-- the function of every cached call once and counts the bytes, and the write pass runs none, leaves
-- no error and writes the wire form of the body with those values as byte slices, even if the
-- functions would by then return others or fail.
pub cached_pass-replay :
    (body again : Body)
    → AllMade (visits body)
    → IsLegal (calls_of body)
    → SameBody body again
    → let first = cached_pass body new_counting_writer in
      let second = cached_pass again (adopt_scratch (new_writer []) first.0).0 in
      (first.0.err ≡ none)
      × (first.1 ≡ length (visits body))
      × (first.0.size_acc ≡ length (encode (calls_of body)))
      × (second.1 ≡ 0)
      × (second.0.err ≡ none)
      × (second.0.buf ≡ encode (calls_of body))
unfolding adopt_scratch
cached_pass-replay body again k h s =
    let m =
      cached_pass-Sizes body new_counting_writer k
        (record {
          counting = record { live = refl; sized = refl };
          target = refl;
          visited = empty-AllVisited;
        })
        h in
    let first = cached_pass body new_counting_writer in
    let w = (adopt_scratch (new_writer []) first.0).0 in
    let r =
      cached_pass-Replays body again w [] s (record { live = refl; sized = refl; target = refl })
        (rewound-IsAhead first.0.scratch (visits body) m.grows) h in
    (
      m.counts.ready.live,
      m.runs,
      omega (arith, m.counts.size),
      r.runs,
      r.emits.ready.live,
      r.emits.out,
    )
