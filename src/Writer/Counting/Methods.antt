-- ===== src/Writer/Counting/Methods.antt =====
-- What each Write method counts in size mode.
use gsbm.Common.{
  ℕ, suc, ◌+◌, ◌-◌, ◌^◌, ◌<◌, ◌≡◌, refl, sym, Bool, true, false, Bool-cases, inl, inr, none, List,
  [], ◌∷◌, ◌++◌, arith,
}
use gsbm.Common.{
  length, take, get_or, set, length-append, take_prefix, get_or-last, set-middle, append_assoc,
  append-nil, if◌then◌else◌,
}
use gsbm.Varint.{varint_len, append_uvarint}
use gsbm.Varint.Encoding.{varint, length-varint}
use gsbm.Wire.{field_key}
use gsbm.Wire.Keys.{field_key-lt}
use gsbm.Writer.State.{Writer}
use gsbm.Writer.Fields.{emit, write_tag, write_bytes, write_presence}
use gsbm.Writer.Regions.{begin_length_delim, begin_counted, end_length_delim, end_counted}
use gsbm.Writer.Calls.{tag}
use gsbm.Writer.Calls.{IsLegalCall}

pub record IsCounting (w : Writer) : Type 0 where
  pub live : w.err ≡ none
  pub sized : w.size_only ≡ true

-- The size grew by the bytes `bs`, and a recording Writer gained the regions `sizes`.
pub record Counts (w : Writer) (bs sizes : List ℕ) (w' : Writer) : Type 0 where
  pub ready : IsCounting w'
  pub size : w'.size_acc ≡ w.size_acc + length bs
  pub recording : w'.record_regions ≡ w.record_regions
  pub stack : w'.region_stack ≡ w.region_stack
  pub recorded :
      w'.recorded_regions
      ≡ (if w.record_regions then w.recorded_regions ++ sizes else w.recorded_regions)

pub unchanged : (b : Bool) (xs : List ℕ) → xs ≡ (if b then xs ++ [] else xs)
unchanged true xs = sym (append-nil xs)
unchanged false xs = refl

pub emit-Counts :
    (w : Writer) (n : ℕ) (f : List ℕ → List ℕ) (bs : List ℕ)
    → IsCounting w
    → n ≡ length bs
    → Counts w bs [] (emit w n f)
unfolding emit
emit-Counts w n f bs r e = ground (arith, unchanged w.record_regions w.recorded_regions)

pub write_tag-Counts :
    (w : Writer) (t wt : ℕ)
    → IsCounting w
    → IsLegalCall (tag t wt)
    → Counts w (varint (field_key t wt)) [] (write_tag w t wt)
unfolding write_tag IsLegalCall
write_tag-Counts w t wt r h = ground (
  arith,
  emit-Counts w (varint_len (field_key t wt)) (λ (b : List ℕ). append_uvarint b (field_key t wt))
      (varint (field_key t wt)),
  length-varint (field_key t wt),
  field_key-lt t wt,
)

pub varint-Counts :
    (w : Writer) (v : ℕ)
    → IsCounting w
    → v < 2 ^ 64
    → Counts w (varint v) [] (emit w (varint_len v) (λ b. append_uvarint b v))
varint-Counts w v r h =
    emit-Counts w (varint_len v) (λ b. append_uvarint b v) (varint v) r (sym (length-varint v h))

pub write_bytes-Counts :
    (w : Writer) (p : List ℕ)
    → IsCounting w
    → length p < 2 ^ 35
    → Counts w (varint (length p) ++ p) [] (write_bytes w p)
unfolding write_bytes
write_bytes-Counts w p r h = ground (
  arith,
  unchanged w.record_regions w.recorded_regions,
  length-varint (length p),
  length-append (varint (length p)) p,
)

pub write_presence-Counts :
    (w : Writer) (state : ℕ) → IsCounting w → Counts w (state ∷ []) [] (write_presence w state)
unfolding write_presence
write_presence-Counts w state r = ground (arith, unchanged w.record_regions w.recorded_regions)

pub begin_length_delim-Counting :
    (w : Writer) → IsCounting w → begin_length_delim w ≡ begin_counted w
unfolding begin_length_delim
begin_length_delim-Counting w r = ground arith

pub end_length_delim-Counting :
    (w : Writer) (marker : ℕ) → IsCounting w → end_length_delim w marker ≡ end_counted w marker
unfolding end_length_delim
end_length_delim-Counting w marker r = ground arith

pub begin_counted-IsCounting : (w : Writer) → IsCounting w → IsCounting (begin_counted w).1
begin_counted-IsCounting w r = ground arith

-- Closing a region in a recording Writer fills in the slot that its opening pushed.
pub end_counted-recording :
    (w' : Writer) (marker n : ℕ) (stack before sizes : List ℕ)
    → w'.record_regions ≡ true
    → w'.region_stack ≡ stack ++ length before ∷ []
    → w'.recorded_regions ≡ before ++ 0 ∷ sizes
    → w'.size_acc ≡ marker + n
    → end_counted w' marker ≡ record w' {
      size_acc = marker + n + varint_len n;
      region_stack = stack;
      recorded_regions = before ++ n ∷ sizes;
    }
end_counted-recording w' marker n stack before sizes hr hs hb hn =
    let depth : length w'.region_stack ≡ suc (length stack) =
      rw hs (omega (arith, length-append stack (length before ∷ []))) in
    let below : length w'.region_stack - 1 ≡ length stack = omega arith in
    let body : w'.size_acc - marker ≡ n = omega arith in
    let popped : take (length stack) w'.region_stack ≡ stack =
      rw hs (take_prefix (length stack) stack (length before ∷ []) refl) in
    let top : get_or w'.region_stack (length stack) 0 ≡ length before =
      rw hs (get_or-last stack (length before) 0) in
    let filled : set w'.recorded_regions (length before) n ≡ before ++ n ∷ sizes =
      rw hb (set-middle before 0 n sizes) in
    rw (below, body) (ground (arith, popped, top, filled))

pub end_counted-plain :
    (w' : Writer) (marker n : ℕ)
    → w'.record_regions ≡ false
    → w'.size_acc ≡ marker + n
    → end_counted w' marker ≡ record w' { size_acc = marker + n + varint_len n }
end_counted-plain w' marker n hr hn =
    let body : w'.size_acc - marker ≡ n = omega arith in rw body (ground arith)

-- Closing a region over what its body counted.
pub region-Counts :
    (w w' : Writer) (body sizes : List ℕ)
    → IsCounting w
    → Counts (begin_counted w).1 body sizes w'
    → length body < 2 ^ 35
    → Counts w
        (varint (length body) ++ body)
        (length body ∷ sizes)
        (end_length_delim w' (begin_counted w).0)
region-Counts w w' body sizes r m h = elim (Bool-cases w.record_regions) [
  | inl on ↦
      let before = w.recorded_regions in
      let closed =
        end_counted-recording w' w.size_acc (length body) w.region_stack before sizes
          (ground (arith, m.recording)) (ground (arith, m.stack))
          (ground (arith, m.recorded, append_assoc before (0 ∷ []) sizes))
          (ground (arith, m.size)) in
      rw (end_length_delim-Counting w' _ m.ready) (
        ground
          (arith, closed, length-varint (length body), length-append (varint (length body)) body))
  | inr off ↦
      let closed =
        end_counted-plain w' w.size_acc (length body) (ground (arith, m.recording))
          (ground (arith, m.size)) in
      rw (end_length_delim-Counting w' _ m.ready) (
        ground
          (arith, closed, length-varint (length body), length-append (varint (length body)) body))
]
