-- ===== src/Writer/Regions/Slot.antt =====
-- EndLengthDelim over a buffer: the reserved slot shrinks to the length varint.
use gsbm.Common.{
  ℕ, ◌+◌, ◌-◌, ◌^◌, ◌≤◌, ◌<◌, ◌≡◌, refl, ◌∙◌, Bool-cases, inl, inr, List, [], ◌∷◌, ◌++◌, arith,
}
use gsbm.Common.{
  length, take, drop, length-append, length-take, take_prefix, drop_prefix, take_past, drop_past,
  take_within, take_all, append_assoc, append-nil, ltb,
}
use gsbm.Varint.{varint_len}
use gsbm.Varint.Encoding.{varint}
use gsbm.Varint.Slots.{put_uvarint-varint}
use gsbm.Varint.Input.{varint_len-le}
use gsbm.Writer.State.{Writer}
use gsbm.Writer.Regions.{copy_down, shift_body, put_at, end_buffered}

abbrev pub slot : List ℕ
slot = 0 ∷ 0 ∷ 0 ∷ 0 ∷ 0 ∷ []

put_at-varint :
    (b front gap back : List ℕ) (at n v : ℕ)
    → b ≡ front ++ (gap ++ back)
    → at ≡ length front
    → n ≡ length gap
    → v < 2 ^ 64
    → n ≡ varint_len v
    → put_at b at n v ≡ front ++ (varint v ++ back)
unfolding put_at
put_at-varint b front gap back at n v eb ea en h ev = rw (
  eb,
  take_prefix at front (gap ++ back) ea,
  drop_prefix at front (gap ++ back) ea,
  take_prefix n gap back en,
  drop_past (at + n) n front (gap ++ back) (omega arith),
  drop_prefix n gap back en,
  ← append-nil gap,
  put_uvarint-varint gap [] v h (omega arith),
  append-nil (varint v),
)

copied :
    (b front gap body : List ℕ) (n : ℕ)
    → b ≡ front ++ (gap ++ body)
    → length gap ≡ 5
    → n ≤ 5
    → take (length b - (5 - n)) (copy_down b (length front + n) (length front + 5))
      ≡ front ++ (take n gap ++ body)
unfolding copy_down
copied b front gap body n eb h le =
    let kept : take (length front + n) b ≡ front ++ take n gap = rw eb (
      take_past (length front + n) n front (gap ++ body) refl
      ∙ rw (take_within n gap body (omega arith))) in
    let moved : drop (length front + 5) b ≡ body = rw eb (
      drop_past (length front + 5) 5 front (gap ++ body) refl
      ∙ drop_prefix 5 gap body (omega arith)) in
    let size : length b ≡ length front + (5 + length body) =
      rw eb (omega (arith, length-append front (gap ++ body), length-append gap body)) in
    let cut : length b - (5 - n) ≡ length (front ++ take n gap) + length body =
      omega (arith, length-append front (take n gap), length-take n gap) in
    rw (kept, moved)
      (take_past _ (length body) (front ++ take n gap) _ cut
        ∙ rw (take_prefix (length body) body _ refl, append_assoc front (take n gap) body))

shift_body-region :
    (b front gap body : List ℕ) (n : ℕ)
    → b ≡ front ++ (gap ++ body)
    → length gap ≡ 5
    → n ≤ 5
    → shift_body b (length front) n ≡ front ++ (take n gap ++ body)
unfolding shift_body
shift_body-region b front gap body n eb h le = elim (Bool-cases (ltb n 5)) [
  | inl short ↦ rw short (copied b front gap body n eb h le)
  | inr full ↦ rw (full, take_all n gap (ground arith)) eb
]

-- A region's body behind its slot becomes the body behind its length.
pub end_buffered-region :
    (w : Writer) (front body : List ℕ)
    → w.buf ≡ front ++ (slot ++ body)
    → length body < 2 ^ 35
    → end_buffered w (length front) ≡ record w { buf = front ++ (varint (length body) ++ body) }
unfolding end_buffered
end_buffered-region w front body e h =
    let n = varint_len (length body) in
    let size : length w.buf ≡ length front + (5 + length body) =
      rw e (omega (arith, length-append front (slot ++ body))) in
    let body_len : length w.buf - length front - 5 ≡ length body = omega arith in
    let narrow : n ≤ 5 = varint_len-le (length body) 5 (omega arith) (omega arith) (omega arith) in
    let shifted = shift_body-region w.buf front slot body n e refl narrow in
    let filled =
      put_at-varint (shift_body w.buf (length front) n) front (take n slot) body (length front) n
        (length body) shifted refl (omega (arith, length-take n slot)) (omega arith) refl in
    rw body_len (ground (arith, filled))
