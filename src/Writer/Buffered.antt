-- ===== src/Writer/Buffered.antt =====
-- The Writer over a caller's buffer: every call appends its wire form, and a region's length slot
-- is closed up around the body.
use gsbm.Common.{ℕ, ◌^◌, ◌<◌, ◌≡◌, refl, sym, ap, ◌∙◌, false, none, List, [], ◌∷◌, ◌++◌, arith}
use gsbm.Common.{length, append_assoc, append-nil, if◌then◌else◌}
use gsbm.Varint.{varint_len, append_uvarint}
use gsbm.Varint.Encoding.{varint, append_uvarint-varint}
use gsbm.Wire.{field_key, zigzag_encode64, le32, le64}
use gsbm.Wire.Keys.{field_key-lt}
use gsbm.Wire.ZigZag.{zigzag_encode64-lt}
use gsbm.Writer.State.{Writer, after_write}
use gsbm.Writer.Fields.{
  emit, write_tag, write_uvarint, write_varint, write_bool, write_fixed32, write_fixed64,
  write_bytes, write_presence, presence_nil, presence_non_zero, presence_zero, write_presence_nil,
  write_presence_non_zero, write_presence_zero,
}
use gsbm.Writer.Regions.{begin_length_delim, end_length_delim, end_buffered}
use gsbm.Writer.Regions.Slot.{slot, end_buffered-region}
use gsbm.Writer.Calls.{
  Call, Calls, tag, uvarint, svarint, fixed32, fixed64, bool, bytes, absent, present, zeroed,
  region, done, next,
}
use gsbm.Writer.Calls.{run_call, run, encode_call, encode, IsLegalCall, IsLegal}

-- A Writer with no error over a plain buffer.
pub record IsReady (w : Writer) : Type 0 where
  pub live : w.err ≡ none
  pub sized : w.size_only ≡ false
  pub target : w.stream_target ≡ none

pub record Emits (w : Writer) (bs : List ℕ) (w' : Writer) : Type 0 where
  pub ready : IsReady w'
  pub out : w'.buf ≡ w.buf ++ bs

emit-Emits :
    (w : Writer) (n : ℕ) (f : List ℕ → List ℕ) (bs : List ℕ)
    → IsReady w
    → f w.buf ≡ w.buf ++ bs
    → Emits w bs (emit w n f)
unfolding emit after_write
emit-Emits w n f bs r e = ground arith

write_uvarint-Emits :
    (w : Writer) (v : ℕ) → IsReady w → v < 2 ^ 64 → Emits w (varint v) (write_uvarint w v)
unfolding write_uvarint
write_uvarint-Emits w v r h =
    emit-Emits w (varint_len v) (λ b. append_uvarint b v) (varint v) r
      (append_uvarint-varint w.buf v h)

write_tag-Emits :
    (w : Writer) (t wt : ℕ)
    → IsReady w
    → IsLegalCall (tag t wt)
    → Emits w (varint (field_key t wt)) (write_tag w t wt)
unfolding write_tag IsLegalCall
write_tag-Emits w t wt r h = ground (
  arith,
  emit-Emits w (varint_len (field_key t wt)) (λ (b : List ℕ). append_uvarint b (field_key t wt))
      (varint (field_key t wt)),
  append_uvarint-varint w.buf (field_key t wt),
  field_key-lt t wt,
)

pub write_bytes-Emits :
    (w : Writer) (p : List ℕ)
    → IsReady w
    → length p < 2 ^ 35
    → Emits w (varint (length p) ++ p) (write_bytes w p)
unfolding write_bytes after_write
write_bytes-Emits w p r h =
    ground (arith, append_uvarint-varint w.buf (length p), append_assoc w.buf (varint (length p)) p)

write_varint-Emits :
    (w : Writer) (v : ℕ)
    → IsReady w
    → v < 2 ^ 64
    → Emits w (varint (zigzag_encode64 v)) (write_varint w v)
unfolding write_varint
write_varint-Emits w v r h =
    let u = zigzag_encode64 v in
    emit-Emits w (varint_len u) (λ b. append_uvarint b u) (varint u) r
      (append_uvarint-varint w.buf u (zigzag_encode64-lt v h))

write_presence-Emits :
    (w : Writer) (state : ℕ) → IsReady w → Emits w (state ∷ []) (write_presence w state)
unfolding write_presence
write_presence-Emits w state r = ground arith

pub begin_length_delim-Buffered :
    (w : Writer)
    → IsReady w
    → begin_length_delim w ≡ (length w.buf, record w { buf = w.buf ++ slot })
unfolding begin_length_delim
begin_length_delim-Buffered w r = ground arith

end_length_delim-Buffered :
    (w : Writer) (marker : ℕ) → IsReady w → end_length_delim w marker ≡ end_buffered w marker
unfolding end_length_delim
end_length_delim-Buffered w marker r = ground arith

-- Closing a region over what its body wrote.
pub region-Emits :
    (w w' : Writer) (body : List ℕ)
    → IsReady w
    → Emits (record w { buf = w.buf ++ slot }) body w'
    → length body < 2 ^ 35
    → Emits w (varint (length body) ++ body) (end_length_delim w' (length w.buf))
region-Emits w w' body r m h =
    let at : w'.buf ≡ w.buf ++ (slot ++ body) = m.out ∙ append_assoc w.buf slot body in
    rw (end_length_delim-Buffered w' (length w.buf) m.ready, end_buffered-region w' w.buf body at h)
      (record {
        ready = record { live = m.ready.live; sized = m.ready.sized; target = m.ready.target };
        out = refl;
      })

pub Emits-trans :
    {w w' w'' : Writer} (xs ys : List ℕ) → Emits w xs w' → Emits w' ys w'' → Emits w (xs ++ ys) w''
Emits-trans {w} xs ys m n = record {
  ready = n.ready;
  out = n.out ∙ ap (λ b. b ++ ys) m.out ∙ append_assoc w.buf xs ys;
}

pub Emits-refl : (w : Writer) → IsReady w → Emits w [] w
Emits-refl w r = record { ready = r; out = sym (append-nil w.buf) }

mutual
  unfolding run_call run encode_call encode IsLegalCall IsLegal write_bool write_fixed32
      write_fixed64 write_presence_nil write_presence_non_zero write_presence_zero

  pub run_call-Emits :
      (c : Call) (w : Writer) → IsReady w → IsLegalCall c → Emits w (encode_call c) (run_call c w)
  run_call-Emits (tag t wt) w r h = write_tag-Emits w t wt r h
  run_call-Emits (uvarint v) w r h = write_uvarint-Emits w v r h
  run_call-Emits (svarint v) w r h = write_varint-Emits w v r h
  run_call-Emits (fixed32 v) w r h = emit-Emits w 4 (λ b. b ++ le32 v) (le32 v) r refl
  run_call-Emits (fixed64 v) w r h = emit-Emits w 8 (λ b. b ++ le64 v) (le64 v) r refl
  run_call-Emits (bool b) w r h =
      let one = (if b then 1 else 0) ∷ [] in emit-Emits w 1 (λ buf. buf ++ one) one r refl
  run_call-Emits (bytes p) w r h = write_bytes-Emits w p r h
  run_call-Emits absent w r h = write_presence-Emits w presence_nil r
  run_call-Emits present w r h = write_presence-Emits w presence_non_zero r
  run_call-Emits zeroed w r h = write_presence-Emits w presence_zero r
  run_call-Emits (region cs) w r h =
      let opened : Writer = record w { buf = w.buf ++ slot } in
      rw (begin_length_delim-Buffered w r) (
        region-Emits w (run cs opened) (encode cs) r
          (run-Emits cs opened (record { live = r.live; sized = r.sized; target = r.target }) h.0)
          h.1)

  run-Emits : (cs : Calls) (w : Writer) → IsReady w → IsLegal cs → Emits w (encode cs) (run cs w)
  run-Emits done w r h = Emits-refl w r
  run-Emits (next c cs) w r h =
      let m = run_call-Emits c w r h.0 in
      Emits-trans (encode_call c) (encode cs) m (run-Emits cs (run_call c w) m.ready h.1)

-- Any sequence of legal calls on a buffered Writer without an error, with regions nested to any
-- depth, leaves no error and appends exactly the wire form of the calls.
pub run_buffered :
    (cs : Calls) (w : Writer)
    → IsReady w
    → IsLegal cs
    → ((run cs w).err ≡ none) × ((run cs w).buf ≡ w.buf ++ encode cs)
run_buffered cs w r h = let m = run-Emits cs w r h in (m.ready.live, m.out)
