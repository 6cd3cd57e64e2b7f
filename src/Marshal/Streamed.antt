-- ===== src/Marshal/Streamed.antt =====
-- MarshalToWriter against MarshalWithOptions.
use gsbm.Common.{ℕ, inl, inr, ◌≡◌, refl, sym, ap, ◌∙◌, Bool-cases, none, List, ◌++◌, append_assoc}
use gsbm.Errors.{Result, ok, err, ◌>>=◌}
use gsbm.Writer.State.{Sink}
use gsbm.Compress.{compresses, valid_compression_method, Runtime}
use gsbm.Marshal.{
  Marshaler, Options, method, marshal_uncompressed, compressed_parts, marshal_compressed_streaming,
  marshal_compressed, marshal_with_options, marshal_to_writer, send, write_to, empty_buffer,
}

-- A `bytes.Buffer` or any `io.Writer` that accepts what it is sent.
send-accepts :
    (w : Sink) (p : List ℕ)
    → ((taken q : List ℕ) → w.fault taken q ≡ none)
    → send w p ≡ ok (record w { written = w.written ++ p })
unfolding send
send-accepts w p a = ap (λ x. write_to w p x) (a w.written p)

send_parts :
    (w : Sink) (parts : Result (List ℕ × List ℕ))
    → ((taken q : List ℕ) → w.fault taken q ≡ none)
    → (parts >>= λ p. send w p.0 >>= λ w'. send w' p.1)
      ≡ (parts >>= λ p. ok (record w { written = w.written ++ (p.0 ++ p.1) }))
send_parts w (err e) a = refl
send_parts w (ok (hdr, frame)) a =
    rw
      (
        send-accepts w hdr a,
        send-accepts (record w { written = w.written ++ hdr }) frame a,
        append_assoc w.written hdr frame,
      )
      refl

abbrev both_parts : Sink → List ℕ × List ℕ → Result Sink
both_parts w p = send w p.0 >>= λ w'. send w' p.1

abbrev appended : Sink → List ℕ → Result Sink
appended w b = ok (record w { written = w.written ++ b })

streamed_parts :
    (w : Sink) (parts : Result (List ℕ × List ℕ))
    → ((taken q : List ℕ) → w.fault taken q ≡ none)
    → (parts >>= both_parts w)
      ≡ (parts >>= both_parts empty_buffer >>= (λ b. ok b.written) >>= appended w)
streamed_parts w (err e) a = refl
streamed_parts w (ok (hdr, frame)) a =
    send_parts w (ok (hdr, frame)) a
    ∙ ap (λ o. o >>= (λ b. ok b.written) >>= appended w)
        (sym (send_parts empty_buffer (ok (hdr, frame)) (λ _ _. refl)))

sent :
    (w : Sink) (r : Result (List ℕ))
    → ((taken q : List ℕ) → w.fault taken q ≡ none)
    → (r >>= send w) ≡ (r >>= appended w)
sent w (err e) a = refl
sent w (ok b) a = send-accepts w b a

-- MarshalToWriter on an `io.Writer` that accepts every payload writes exactly what
-- MarshalWithOptions returns and has the same error, for any Marshaler, options and codecs.
pub marshal_to_writer-marshal_with_options :
    (rt : Runtime) (w : Sink) (v : Marshaler) (hint : ℕ) (opts : Options)
    → ((taken q : List ℕ) → w.fault taken q ≡ none)
    → marshal_to_writer rt w v hint opts
      ≡ (marshal_with_options rt v hint opts >>= λ b. ok (record w { written = w.written ++ b }))
unfolding marshal_to_writer marshal_with_options marshal_compressed marshal_compressed_streaming
marshal_to_writer-marshal_with_options rt w v hint opts a =
    elim (Bool-cases (valid_compression_method (method opts))) [
      | inr bad ↦ rw bad refl
      | inl good ↦ elim (Bool-cases (compresses (method opts))) [
        | inl codec ↦
            rw (good, codec) (streamed_parts w (compressed_parts rt v hint (method opts)) a)
        | inr plain ↦ rw (good, plain) (sent w (marshal_uncompressed v hint) a)
      ]
    ]
