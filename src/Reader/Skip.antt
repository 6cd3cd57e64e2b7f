-- ===== src/Reader/Skip.antt =====
-- Unknown fields: SkipField moves exactly past one value, and a decoder that knows no tag skips a
-- whole body.
use gsbm.Common.{ℕ, zero, suc, ◌^◌, ◌≤◌, ◌<◌, ◌≡◌, refl, sym, ◌∙◌, List, [], ◌++◌, arith}
use gsbm.Common.{length, take_all, length-append, append_assoc, append-nil, if◌then◌else◌, none}
use gsbm.Errors.{ok}
use gsbm.Varint.Encoding.{varint, varint_len_bounds, length-varint}
use gsbm.Wire.{WireType, max_tag, field_key}
use gsbm.Wire.Keys.{field_key-lt}
use gsbm.Reader.State.{new_reader, Reader, Outcome, after, has_more}
use gsbm.Reader.Fields.{read_tag}
use gsbm.Reader.Regions.{skip_field, skip_bytes}
use gsbm.Reader.Cursor.{At, At-room, At-advanced, advanced, guarded-live, next_uvarint-varint}
use gsbm.Reader.Shapes.Fields.{read_tag-key}

-- The bytes of one value of a wire type.
pub data Payload : WireType → List ℕ → Type 0 where
  varying : {wt : WireType} (v : ℕ) → wt ≡ 0 → v < 2 ^ 64 → Payload wt (varint v)
  eight : {wt : WireType} (bs : List ℕ) → wt ≡ 1 → length bs ≡ 8 → Payload wt bs
  sized :
      {wt : WireType} (p : List ℕ)
      → wt ≡ 2
      → length p < 2 ^ 35
      → Payload wt (varint (length p) ++ p)
  four : {wt : WireType} (bs : List ℕ) → wt ≡ 3 → length bs ≡ 4 → Payload wt bs

skip_varint :
    (r : Reader) (wt v : ℕ) (rest : List ℕ)
    → wt ≡ 0
    → v < 2 ^ 64
    → At r (varint v) rest
    → skip_field r wt ≡ (ok tt, advanced r (length (varint v)))
unfolding skip_field
skip_varint r wt v rest e h a =
    rw e (guarded-live r _ a.live ∙ rw (next_uvarint-varint r v rest h a))

skip_fixed :
    (r : Reader) (bs rest : List ℕ)
    → At r bs rest
    → skip_bytes (length bs) r ≡ (ok tt, advanced r (length bs))
unfolding skip_bytes
skip_fixed r bs rest a = ground (arith, At-room bs rest a)

skip_sized :
    (r : Reader) (wt : ℕ) (p rest : List ℕ)
    → wt ≡ 2
    → length p < 2 ^ 35
    → At r (varint (length p) ++ p) rest
    → skip_field r wt ≡ (ok tt, advanced r (length (varint (length p) ++ p)))
unfolding skip_field
skip_sized r wt p rest e h a =
    let prefix : At r (varint (length p)) (p ++ rest) = record {
      live = a.live;
      valid = a.valid;
      ahead = a.ahead ∙ append_assoc (varint (length p)) p rest;
    } in
    let body = At-advanced (varint (length p)) (p ++ rest) prefix p rest refl in
    rw e (
      guarded-live r _ a.live
      ∙ rw
          (
            next_uvarint-varint r (length p) (p ++ rest) (omega arith) prefix,
            skip_fixed (advanced r (length (varint (length p)))) p rest body,
          )
          (ground (arith, length-append (varint (length p)) p)))

skip_eight :
    (r : Reader) (wt : ℕ) (bs rest : List ℕ)
    → wt ≡ 1
    → length bs ≡ 8
    → At r bs rest
    → skip_field r wt ≡ (ok tt, advanced r (length bs))
unfolding skip_field
skip_eight r wt bs rest e h a = rw e (guarded-live r _ a.live ∙ rw (← h) (skip_fixed r bs rest a))

skip_four :
    (r : Reader) (wt : ℕ) (bs rest : List ℕ)
    → wt ≡ 3
    → length bs ≡ 4
    → At r bs rest
    → skip_field r wt ≡ (ok tt, advanced r (length bs))
unfolding skip_field
skip_four r wt bs rest e h a = rw e (guarded-live r _ a.live ∙ rw (← h) (skip_fixed r bs rest a))

-- SkipField of the value's own wire type succeeds and moves exactly past the value, whatever follows.
pub skip_field-Payload :
    (r : Reader) {wt : ℕ} {bs : List ℕ} (rest : List ℕ)
    → Payload wt bs
    → At r bs rest
    → skip_field r wt ≡ (ok tt, advanced r (length bs))
skip_field-Payload r {wt} rest (varying v e h) a = skip_varint r wt v rest e h a
skip_field-Payload r {wt} rest (eight bs e h) a = skip_eight r wt bs rest e h a
skip_field-Payload r {wt} rest (sized p e h) a = skip_sized r wt p rest e h a
skip_field-Payload r {wt} rest (four bs e h) a = skip_four r wt bs rest e h a

-- Fields of a body: a key and a value of the key's wire type.
pub data Fields : List ℕ → Type 0 where
  none_left : Fields []
  field :
      {bs more : List ℕ} (t wt : ℕ)
      → 1 ≤ t
      → t ≤ max_tag
      → wt ≤ 3
      → Payload wt bs
      → Fields more
      → Fields (varint (field_key t wt) ++ (bs ++ more))

-- The decode loop that codegen emits, with no known tag: while HasMore, ReadTag and SkipField. A round
-- takes a byte at least, so the bytes left are fuel enough.
unfoldable pub skip_all : ℕ → Reader → Outcome (Unit {0})
skip_all zero r = (ok tt, r)
skip_all (suc fuel) r =
    let rest =
      after (read_tag r) (λ k r'. after (skip_field r' k.1) (λ x r''. skip_all fuel r'')) in
    if has_more r then rest else (ok tt, r)

skip_all-done : (fuel : ℕ) (r : Reader) → At r [] [] → skip_all fuel r ≡ (ok tt, advanced r 0)
unfolding skip_all has_more
skip_all-done zero r a = ground arith
skip_all-done (suc fuel) r a = ground (arith, At-room [] [] a)

skip_all-step :
    (fuel : ℕ) (r : Reader)
    → r.err ≡ none
    → r.pos < r.end
    → skip_all (suc fuel) r
      ≡ after (read_tag r) (λ k r'. after (skip_field r' k.1) (λ x r''. skip_all fuel r''))
unfolding skip_all has_more
skip_all-step fuel r live more = ground arith

key_takes_a_byte : (t wt : ℕ) → t ≤ max_tag → wt ≤ 3 → 1 ≤ length (varint (field_key t wt))
key_takes_a_byte t wt hi w = omega (
  arith,
  length-varint (field_key t wt) (omega (arith, field_key-lt t wt hi)),
  varint_len_bounds (field_key t wt),
)

skip_all-Fields :
    (fuel : ℕ) (r : Reader) {bs : List ℕ}
    → Fields bs
    → At r bs []
    → length bs ≤ fuel
    → skip_all fuel r ≡ (ok tt, advanced r (length bs))
skip_all-Fields fuel r none_left a h = skip_all-done fuel r a
skip_all-Fields zero r (field {bs} {more} t wt lo hi w p fs) a h =
    let key = varint (field_key t wt) in
    absurd (omega (arith, key_takes_a_byte t wt hi w, length-append key (bs ++ more)))
skip_all-Fields (suc fuel) r (field {bs} {more} t wt lo hi w p fs) a h =
    let key = varint (field_key t wt) in
    let n = length key in
    let pos = key_takes_a_byte t wt hi w in
    let total = length-append key (bs ++ more) in
    let inner = length-append bs more in
    let first : At r key (bs ++ more) = record {
      live = a.live;
      valid = a.valid;
      ahead = a.ahead ∙ append-nil (key ++ (bs ++ more));
    } in
    let second = At-advanced key (bs ++ more) first bs more refl in
    let third = At-advanced bs more second more [] (sym (append-nil more)) in
    skip_all-step fuel r a.live (omega (arith, At-room key (bs ++ more) first))
    ∙ rw
        (
          read_tag-key r (bs ++ more) t wt lo hi w first,
          skip_field-Payload (advanced r n) more p second,
          skip_all-Fields fuel (advanced (advanced r n) (length bs)) fs third (omega arith),
        )
        (ground (arith, total, inner))

-- Forward compatibility: over any body of legal fields, whatever their tags, the loop that knows none
-- of them ends at the end of the body without an error.
pub skip_all-body :
    (bs : List ℕ)
    → Fields bs
    → skip_all (length bs) (new_reader bs) ≡ (ok tt, record (new_reader bs) { pos = length bs })
skip_all-body bs fs =
    skip_all-Fields (length bs) (new_reader bs) fs
      (record {
        live = refl;
        valid = record { before_end = omega arith; inside = omega arith };
        ahead = take_all (length bs) bs (omega arith) ∙ sym (append-nil bs);
      })
      (omega arith)
    ∙ ground arith
