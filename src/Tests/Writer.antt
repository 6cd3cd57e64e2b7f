-- ===== src/Tests/Writer.antt =====
-- The three kinds of Writer on the same calls.
use gsbm.Common.{◌≡◌, refl, none, some, [], ◌∷◌, ◌++◌, length, arith}
use gsbm.Writer.State.{
  new_writer, new_counting_writer, new_recording_size_writer, new_streaming_writer, flush_all,
}
use gsbm.Writer.Calls.{run, encode, encode_call, region_sizes, tag, IsLegal, IsLegalCall}
use gsbm.Writer.Buffered.{run_buffered}
use gsbm.Writer.Counting.{run_recording}
use gsbm.Writer.Streaming.Flush.{delivered}
use gsbm.Writer.Streaming.Run.{run_streaming}
use gsbm.Errors.{Error}
use gsbm.Writer.Cached.{adopt_scratch}
use gsbm.Varint.Encoding.{leb128}
use gsbm.Errors.{ok, err}
use gsbm.Writer.Replay.{
  cached_string, cached_append, plain, cached, block, Body, finish, step, cached_pass, visits,
  step_visits, calls_of, step_call, SameBody, SameStep,
}
use gsbm.Writer.Replay.WritePass.{cached_pass-replay}
use gsbm.Writer.Sticky.{run-failed}
use gsbm.Tests.Values.{order, order-IsLegal, collector}

run_buffered_example :
    let w = run order (new_writer (9 ∷ [])) in (w.err ≡ none) × (w.buf ≡ 9 ∷ [] ++ encode order)
run_buffered_example =
    run_buffered order (new_writer (9 ∷ [])) (record { live = refl; sized = refl; target = refl })
      order-IsLegal

run_recording_example :
    let w = run order new_recording_size_writer in
    (w.err ≡ none)
    × (w.size_acc ≡ length (encode order))
    × (w.recorded_regions ≡ region_sizes order)
    × (w.region_stack ≡ [])
run_recording_example = run_recording order order-IsLegal

run_streaming_example :
    let w = flush_all (run order (new_streaming_writer collector (region_sizes order) 4)) in
    (w.err ≡ none) × (w.buf ≡ []) × (delivered w.stream_target ≡ collector.written ++ encode order)
run_streaming_example = run_streaming order collector 4 order-IsLegal (omega arith) (λ _ _. refl)

-- One callsite twice, the second time in a region, and an append function that would fail in the second
-- pass.
abbrev cached_order : Body
cached_order = step (plain (tag 1 2)) (
    step (cached (cached_string 4 (7 ∷ []))) (
      step (plain (tag 2 2)) (
        step (block (step (cached (cached_string 4 (9 ∷ []))) finish))
          (step (cached (cached_append 5 (ok (8 ∷ [])))) finish))))

abbrev cached_again : Body
cached_again = step (plain (tag 1 2)) (
    step (cached (cached_string 4 [])) (
      step (plain (tag 2 2)) (
        step (block (step (cached (cached_string 4 (1 ∷ 2 ∷ []))) finish))
          (step (cached (cached_append 5 (err Error.zero_tag))) finish))))

cached_order-IsLegal : IsLegal (calls_of cached_order)
unfolding calls_of step_call IsLegal IsLegalCall encode encode_call leb128
cached_order-IsLegal = ground arith

cached_pass-replay_example :
    let first = cached_pass cached_order new_counting_writer in
    let second = cached_pass cached_again (adopt_scratch (new_writer []) first.0).0 in
    (first.0.err ≡ none)
    × (first.1 ≡ length (visits cached_order))
    × (first.0.size_acc ≡ length (encode (calls_of cached_order)))
    × (second.1 ≡ 0)
    × (second.0.err ≡ none)
    × (second.0.buf ≡ encode (calls_of cached_order))
unfolding visits step_visits SameBody SameStep
cached_pass-replay_example =
    cached_pass-replay cached_order cached_again (tt, (tt, (tt, tt))) cached_order-IsLegal
      (refl, (refl, (refl, ((refl, tt), (refl, tt)))))

run-failed_example :
    let w = record (new_writer (9 ∷ [])) { err = some Error.zero_tag } in run order w ≡ w
run-failed_example =
    run-failed order (record (new_writer (9 ∷ [])) { err = some Error.zero_tag }) Error.zero_tag
      refl
