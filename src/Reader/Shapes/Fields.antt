-- ===== src/Reader/Shapes/Fields.antt =====
-- Each Read method reads back what its Write method put there.
use gsbm.Common.{ℕ, ◌^◌, ◌≤◌, ◌<◌, ◌≡◌, refl, ◌∙◌, Bool, true, false, List, [], ◌∷◌, ◌++◌, arith}
use gsbm.Common.{
  get_or-drop, length, take, drop, length-append, get_or, if◌then◌else◌, append_assoc,
}
use gsbm.Errors.{ok}
use gsbm.Varint.Encoding.{leb128, varint}
use gsbm.Common.{◌⊎◌}
use gsbm.Wire.{max_tag, field_key, zigzag_encode64, le32, le64}
use gsbm.Wire.Keys.{field_key_lem, field_key-lt, low_three}
use gsbm.Wire.ZigZag.{zigzag_encode64-lt, zigzag_inverse}
use gsbm.Reader.State.{Reader}
use gsbm.Reader.Fields.{
  unpack_key, read_tag, read_uvarint_field, read_varint, read_bool, read_fixed32, read_fixed64,
  take_bytes, read_len_bytes, check_presence, read_presence_byte,
}
use gsbm.Reader.Cursor.{At, At-room, At-peek, At-advanced, advanced, next_uvarint-varint}

take_one : (xs : List ℕ) (b : ℕ) → take 1 xs ≡ b ∷ [] → (ys : List ℕ) × (xs ≡ b ∷ ys)
take_one [] b e = absurd (cc)
take_one (x ∷ xs) b e = (xs, ground arith)

module _ (r : Reader) (rest : List ℕ) where
  pub read_uvarint_field-varint :
      (v : ℕ)
      → v < 2 ^ 64
      → At r (varint v) rest
      → read_uvarint_field r ≡ (ok v, advanced r (length (varint v)))
  unfolding read_uvarint_field
  read_uvarint_field-varint v h a = ground (arith, a.live, next_uvarint-varint r v rest h a)

  pub read_varint-zigzag :
      (v : ℕ)
      → v < 2 ^ 64
      → At r (varint (zigzag_encode64 v)) rest
      → read_varint r ≡ (ok v, advanced r (length (varint (zigzag_encode64 v))))
  unfolding read_varint
  read_varint-zigzag v h a = ground (
    arith,
    a.live,
    next_uvarint-varint r (zigzag_encode64 v) rest (zigzag_encode64-lt v h) a,
    (zigzag_inverse v h).0,
  )

  pub read_bool-byte :
      (b : Bool) → At r ((if b then 1 else 0) ∷ []) rest → read_bool r ≡ (ok b, advanced r 1)
  unfolding read_bool leb128
  read_bool-byte true a = ground (arith, a.live, next_uvarint-varint r 1 rest (omega arith) a)
  read_bool-byte false a = ground (arith, a.live, next_uvarint-varint r 0 rest (omega arith) a)

  pub read_fixed32-le32 :
      (v : ℕ) → v < 2 ^ 32 → At r (le32 v) rest → read_fixed32 r ≡ (ok v, advanced r 4)
  unfolding read_fixed32
  read_fixed32-le32 v h a = ground (arith, a.live, At-peek (le32 v) rest a, At-room (le32 v) rest a)

  pub read_fixed64-le64 :
      (v : ℕ) → v < 2 ^ 64 → At r (le64 v) rest → read_fixed64 r ≡ (ok v, advanced r 8)
  unfolding read_fixed64
  read_fixed64-le64 v h a = ground (arith, a.live, At-peek (le64 v) rest a, At-room (le64 v) rest a)

  pub read_tag-key :
      (t wt : ℕ)
      → 1 ≤ t
      → t ≤ max_tag
      → wt ≤ 3
      → At r (varint (field_key t wt)) rest
      → read_tag r ≡ (ok (t, wt), advanced r (length (varint (field_key t wt))))
  unfolding read_tag unpack_key
  read_tag-key t wt lo hi w a = ground (
    arith,
    a.live,
    next_uvarint-varint r (field_key t wt) rest (omega (arith, field_key-lt t wt hi)) a,
    field_key_lem t wt hi,
    low_three (field_key t wt),
  )

  pub read_len_bytes-bytes :
      (p : List ℕ)
      → length p < 2 ^ 35
      → At r (varint (length p) ++ p) rest
      → read_len_bytes r ≡ (ok p, advanced r (length (varint (length p) ++ p)))
  unfolding read_len_bytes take_bytes
  read_len_bytes-bytes p h a =
      let prefix : At r (varint (length p)) (p ++ rest) = record {
        live = a.live;
        valid = a.valid;
        ahead = a.ahead ∙ append_assoc (varint (length p)) p rest;
      } in
      let body = At-advanced (varint (length p)) (p ++ rest) prefix p rest refl in
      ground (
        arith,
        next_uvarint-varint r (length p) (p ++ rest) (omega arith) prefix,
        At-peek p rest body,
        At-room p rest body,
        length-append (varint (length p)) p,
      )

  first_byte : (b : ℕ) → At r (b ∷ []) rest → get_or r.buf r.pos 0 ≡ b
  first_byte b a =
      let (ys, e) = take_one (drop r.pos r.buf) b (At-peek (b ∷ []) rest a) in
      (get_or-drop r.pos r.buf b 0 ys e).0

  pub read_presence_byte-byte :
      (b : ℕ)
      → (b ≡ 0) ⊎ (b ≡ 1) ⊎ (b ≡ 3)
      → At r (b ∷ []) rest
      → read_presence_byte r true ≡ (ok b, advanced r 1)
  unfolding read_presence_byte check_presence
  read_presence_byte-byte b h a =
      ground (arith, a.live, At-peek (b ∷ []) rest a, At-room (b ∷ []) rest a, first_byte b a)
