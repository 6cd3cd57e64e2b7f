-- ===== src/Reader/Shapes.antt =====
-- A decoder as data: which Read call follows which, regions nested. `read_shapes` makes the calls
-- and returns the values as the Writer calls that would write them.
pub mod Fields
pub mod Back
use gsbm.Common.{ℕ, Bool, true, false, List, [], ◌∷◌, ◌==◌, if◌then◌else◌}
use gsbm.Errors.{Error, Result, ok, err}
use gsbm.Writer.Fields.{presence_nil, presence_zero}
use gsbm.Writer.Calls.{Call, Calls, done, next}
use gsbm.Writer.Calls as W
use gsbm.Reader.State.{Reader, Outcome, after}
use gsbm.Reader.Fields.{
  read_tag, read_uvarint_field, read_varint, read_bool, read_fixed32, read_fixed64, read_len_bytes,
  read_presence_byte,
}
use gsbm.Reader.Regions.{begin_length_delim, end_length_delim}

mutual
  pub data Shape : Type 0 where
    tag uvarint svarint fixed32 fixed64 bool bytes presence : Shape
    region : Shapes → Shape

  pub data Shapes : Type 0 where
    stop : Shapes
    also : Shape → Shapes → Shapes

unfoldable mutual
  pub shape_of : Call → Shape
  shape_of (W.tag t wt) = tag
  shape_of (W.uvarint v) = uvarint
  shape_of (W.svarint v) = svarint
  shape_of (W.fixed32 v) = fixed32
  shape_of (W.fixed64 v) = fixed64
  shape_of (W.bool b) = bool
  shape_of (W.bytes p) = bytes
  shape_of W.absent = presence
  shape_of W.present = presence
  shape_of W.zeroed = presence
  shape_of (W.region cs) = region (shapes_of cs)

  pub shapes_of : Calls → Shapes
  shapes_of done = stop
  shapes_of (next c cs) = also (shape_of c) (shapes_of cs)

abbrev pub returns : {A : Type 0} → Outcome A → (A → Call) → Outcome Call
returns o f = after o (λ a r. (ok (f a), r))

abbrev pub presence_call : ℕ → Call
presence_call b =
    if b == presence_nil then W.absent else if b == presence_zero then W.zeroed else W.present

unfoldable mutual
  pub read_shape : Shape → Reader → Outcome Call
  read_shape tag r = returns (read_tag r) (λ k. W.tag k.0 k.1)
  read_shape uvarint r = returns (read_uvarint_field r) W.uvarint
  read_shape svarint r = returns (read_varint r) W.svarint
  read_shape fixed32 r = returns (read_fixed32 r) W.fixed32
  read_shape fixed64 r = returns (read_fixed64 r) W.fixed64
  read_shape bool r = returns (read_bool r) W.bool
  read_shape bytes r = returns (read_len_bytes r) W.bytes
  read_shape presence r = returns (read_presence_byte r true) presence_call
  read_shape (region ss) r = after (begin_length_delim r) (λ saved r'.
      after (read_shapes ss r')
        (λ cs r''. after (end_length_delim r'' saved) (λ x r'''. (ok (W.region cs), r'''))))

  pub read_shapes : Shapes → Reader → Outcome Calls
  read_shapes stop r = (ok done, r)
  read_shapes (also s ss) r =
      after (read_shape s r) (λ c r'. after (read_shapes ss r') (λ cs r''. (ok (next c cs), r'')))
