-- ===== src/Reader/Safety/Methods.antt =====
-- Every Read method is sound on a valid Reader.
use gsbm.Common.{ℕ, ◌+◌, ◌-◌, ◌/◌, ◌^◌, ◌≤◌, ◌≡◌, refl, Bool, false, arith}
use gsbm.Common.{ltb, ◌==◌, not, if◌then◌else◌, bit_and, get_or}
use gsbm.Errors.{ok, truncated, reserved_wire, zero_tag, tag_overflow, invalid_presence}
use gsbm.Wire.{
  wire_varint, wire_fixed64, wire_fixed32, wire_length_delim, WireType, max_tag, valid_wire_type,
  zigzag_decode64, uint32, uint64,
}
use gsbm.Reader.State.{Reader, IsValid, Outcome, fail, after, next_uvarint, peek}
use gsbm.Reader.Fields.{
  acquire_string, unpack_key, read_tag, read_uvarint_field, read_varint, read_bool, read_fixed32,
  read_fixed64, take_bytes, read_len_bytes, read_string, check_presence, read_presence_byte,
}
use gsbm.Reader.Regions.{read_length, begin_length_delim, skip_bytes, skip_field}
use gsbm.Writer.Fields.{presence_zero}
use gsbm.Reader.Safety.{
  Sound, fail-Sound, guarded-Sound, ok-Sound, if-Sound, after-Sound, next_uvarint-Sound,
  bounded-Sound,
}

unpack_key-Sound : (v : ℕ) (r : Reader) → IsValid r → Sound r (unpack_key v r)
unfolding unpack_key
unpack_key-Sound v r w =
    let wt = bit_and v 0x7 in
    let legal : Outcome (ℕ × WireType) = (ok (v / 2 ^ 3, wt), r) in
    let last = if not (valid_wire_type wt) then fail r reserved_wire else legal in
    let rest = if ltb max_tag (v / 2 ^ 3) then fail r tag_overflow else last in
    if-Sound (v / 2 ^ 3 == 0) r (fail r zero_tag) rest (λ _. fail-Sound r zero_tag w)
      (λ _.
        if-Sound (ltb max_tag (v / 2 ^ 3)) r (fail r tag_overflow) last
          (λ _. fail-Sound r tag_overflow w)
          (λ _.
            if-Sound (not (valid_wire_type wt)) r (fail r reserved_wire) legal
              (λ _. fail-Sound r reserved_wire w) (λ _. ok-Sound (v / 2 ^ 3, wt) r w)))

take_bytes-Sound : (n : ℕ) (r : Reader) → IsValid r → Sound r (take_bytes n r)
unfolding take_bytes
take_bytes-Sound n r v = bounded-Sound n r (peek r n) v

skip_bytes-Sound : (n : ℕ) (r : Reader) → IsValid r → Sound r (skip_bytes n r)
unfolding skip_bytes
skip_bytes-Sound n r v = bounded-Sound n r tt v

check_presence-Sound :
    (b : ℕ) (allow : Bool) (r : Reader) → IsValid r → Sound r (check_presence b allow r)
unfolding check_presence
check_presence-Sound b allow r v =
    ground
      (arith, fail-Sound {A = ℕ} r invalid_presence v, ok-Sound b r v, ok-Sound presence_zero r v)

-- A method that moves over one byte first.
past_byte :
    {A : Type 0} (r : Reader) (o : Outcome A)
    → IsValid r
    → 1 ≤ r.end - r.pos
    → (IsValid (record r { pos = r.pos + 1 }) → Sound (record r { pos = r.pos + 1 }) o)
    → Sound r o
past_byte r o v h k =
    let s = k (record { before_end = omega (arith, v.before_end); inside = v.inside }) in
    record {
      valid = s.valid;
      same = s.same;
      onward = omega (arith, s.onward);
      narrower = s.narrower;
      success = s.success;
      failure = s.failure;
    }

module _ (r : Reader) (v : IsValid r) where
  pub read_tag-Sound : Sound r (read_tag r)
  unfolding read_tag
  read_tag-Sound =
      guarded-Sound r _ v (after-Sound r _ unpack_key (next_uvarint-Sound r v) unpack_key-Sound)

  pub read_uvarint_field-Sound : Sound r (read_uvarint_field r)
  unfolding read_uvarint_field
  read_uvarint_field-Sound = guarded-Sound r _ v (next_uvarint-Sound r v)

  pub read_varint-Sound : Sound r (read_varint r)
  unfolding read_varint
  read_varint-Sound =
      guarded-Sound r _ v
        (after-Sound r _ _ (next_uvarint-Sound r v) (λ a r' w. ok-Sound (zigzag_decode64 a) r' w))

  pub read_bool-Sound : Sound r (read_bool r)
  unfolding read_bool
  read_bool-Sound =
      guarded-Sound r _ v
        (after-Sound r _ _ (next_uvarint-Sound r v) (λ a r' w. ok-Sound (not (a == 0)) r' w))

  pub read_fixed32-Sound : Sound r (read_fixed32 r)
  unfolding read_fixed32
  read_fixed32-Sound = guarded-Sound r _ v (bounded-Sound 4 r (uint32 (peek r 4)) v)

  pub read_fixed64-Sound : Sound r (read_fixed64 r)
  unfolding read_fixed64
  read_fixed64-Sound = guarded-Sound r _ v (bounded-Sound 8 r (uint64 (peek r 8)) v)

  pub read_len_bytes-Sound : Sound r (read_len_bytes r)
  unfolding read_len_bytes
  read_len_bytes-Sound = after-Sound r _ take_bytes (next_uvarint-Sound r v) take_bytes-Sound

  pub read_string-Sound : Sound r (read_string r)
  unfolding read_string
  read_string-Sound =
      after-Sound r _ _ read_len_bytes-Sound (λ b r' w. ok-Sound (acquire_string r' b) r' w)

  pub read_length-Sound : Sound r (read_length r)
  unfolding read_length
  read_length-Sound = after-Sound r _ _ (next_uvarint-Sound r v) λ n r' w.
      if-Sound (ltb (r'.end - r'.pos) n) r' (fail r' truncated) (ok n, r')
        (λ h. fail-Sound r' truncated w) (λ h. ok-Sound n r' w)

  pub read_presence_byte-Sound : (allow : Bool) → Sound r (read_presence_byte r allow)
  unfolding read_presence_byte
  read_presence_byte-Sound allow = guarded-Sound r _ v (
      if-Sound (ltb (r.end - r.pos) 1) r (fail r truncated)
        (check_presence (get_or r.buf r.pos 0) allow (record r { pos = r.pos + 1 }))
        (λ h. fail-Sound r truncated v)
        λ h.
          past_byte r _ v (ground arith)
            (check_presence-Sound (get_or r.buf r.pos 0) allow (record r { pos = r.pos + 1 })))

  pub skip_field-Sound : (wt : WireType) → Sound r (skip_field r wt)
  unfolding skip_field
  skip_field-Sound wt =
      let one : Outcome (Unit {0}) = after (next_uvarint r) (λ a r'. (ok tt, r')) in
      let sized : Outcome (Unit {0}) = after (next_uvarint r) skip_bytes in
      let other : Outcome (Unit {0}) = fail r reserved_wire in
      let last : Outcome (Unit {0}) = if wt == wire_length_delim then sized else other in
      let third : Outcome (Unit {0}) = if wt == wire_fixed32 then skip_bytes 4 r else last in
      let second : Outcome (Unit {0}) = if wt == wire_fixed64 then skip_bytes 8 r else third in
      guarded-Sound r _ v (
        if-Sound (wt == wire_varint) r one second
          (λ h. after-Sound r _ _ (next_uvarint-Sound r v) (λ a r' w. ok-Sound tt r' w))
          λ h.
            if-Sound (wt == wire_fixed64) r (skip_bytes 8 r) third (λ h. skip_bytes-Sound 8 r v)
              λ h.
                if-Sound (wt == wire_fixed32) r (skip_bytes 4 r) last (λ h. skip_bytes-Sound 4 r v)
                  λ h.
                    if-Sound (wt == wire_length_delim) r sized other
                      (λ h. after-Sound r _ skip_bytes (next_uvarint-Sound r v) skip_bytes-Sound)
                      (λ h. fail-Sound r reserved_wire v))

  narrowed :
      (r' : Reader) (n : ℕ)
      → IsValid r'
      → ltb (r'.end - r'.pos) n ≡ false
      → Sound r' (ok r'.end, record r' { end = r'.pos + n })
  narrowed r' n w h =
      let below : r'.pos + n ≤ r'.end = ground (arith, w.before_end) in
      record {
        valid = record { before_end = omega arith; inside = omega (arith, w.inside) };
        same = refl;
        onward = omega arith;
        narrower = below;
        success = λ b q. refl;
        failure = λ x q. cc;
      }

  pub begin_length_delim-Sound : Sound r (begin_length_delim r)
  unfolding begin_length_delim
  begin_length_delim-Sound = after-Sound r _ _ (next_uvarint-Sound r v) λ n r' w.
      if-Sound (ltb (r'.end - r'.pos) n) r' (fail r' truncated)
        (ok r'.end, record r' { end = r'.pos + n }) (λ h. fail-Sound r' truncated w)
        (narrowed r' n w)
