-- ===== src/Writer/Calls.antt =====
-- A MarshalGSBM body as data: the Writer calls that it makes, regions nested. `run` makes them,
-- `encode` is the wire form that docs/spec.md gives them.
use gsbm.Common.{ℕ, ◌^◌, ◌≤◌, ◌<◌, Bool, List, [], ◌∷◌, ◌++◌, length, if◌then◌else◌}
use gsbm.Varint.Encoding.{varint}
use gsbm.Wire.{WireType, max_tag, wire_fixed32, field_key, zigzag_encode64, le32, le64}
use gsbm.Writer.State.{Writer}
use gsbm.Writer.Fields.{
  write_tag, write_uvarint, write_varint, write_bool, write_fixed32, write_fixed64, write_bytes,
  write_presence_nil, write_presence_non_zero, write_presence_zero, presence_nil, presence_non_zero,
  presence_zero,
}
use gsbm.Writer.Regions.{begin_length_delim, end_length_delim}

mutual
  pub data Call : Type 0 where
    tag : ℕ → WireType → Call
    uvarint svarint fixed32 fixed64 : ℕ → Call
    bool : Bool → Call
    bytes : List ℕ → Call
    absent present zeroed : Call
    region : Calls → Call

  pub data Calls : Type 0 where
    done : Calls
    next : Call → Calls → Calls

unfoldable mutual
  pub run_call : Call → Writer → Writer
  run_call (tag t wt) w = write_tag w t wt
  run_call (uvarint v) w = write_uvarint w v
  run_call (svarint v) w = write_varint w v
  run_call (fixed32 v) w = write_fixed32 w v
  run_call (fixed64 v) w = write_fixed64 w v
  run_call (bool b) w = write_bool w b
  run_call (bytes p) w = write_bytes w p
  run_call absent w = write_presence_nil w
  run_call present w = write_presence_non_zero w
  run_call zeroed w = write_presence_zero w
  run_call (region cs) w =
      let (marker, w') = begin_length_delim w in end_length_delim (run cs w') marker

  pub run : Calls → Writer → Writer
  run done w = w
  run (next c cs) w = run cs (run_call c w)

unfoldable mutual
  pub encode_call : Call → List ℕ
  encode_call (tag t wt) = varint (field_key t wt)
  encode_call (uvarint v) = varint v
  encode_call (svarint v) = varint (zigzag_encode64 v)
  encode_call (fixed32 v) = le32 v
  encode_call (fixed64 v) = le64 v
  encode_call (bool b) = (if b then 1 else 0) ∷ []
  encode_call (bytes p) = varint (length p) ++ p
  encode_call absent = presence_nil ∷ []
  encode_call present = presence_non_zero ∷ []
  encode_call zeroed = presence_zero ∷ []
  encode_call (region cs) = varint (length (encode cs)) ++ encode cs

  pub encode : Calls → List ℕ
  encode done = []
  encode (next c cs) = encode_call c ++ encode cs

-- The arguments are in the ranges of their Go types, tags and wire types are legal, and payloads
-- and regions are below 2^35 bytes, which five bytes of length can say.
unfoldable mutual
  pub IsLegalCall : Call → Type 0
  IsLegalCall (tag t wt) = (1 ≤ t) × (t ≤ max_tag) × (wt ≤ wire_fixed32)
  IsLegalCall (uvarint v) = v < 2 ^ 64
  IsLegalCall (svarint v) = v < 2 ^ 64
  IsLegalCall (fixed32 v) = v < 2 ^ 32
  IsLegalCall (fixed64 v) = v < 2 ^ 64
  IsLegalCall (bool b) = Unit
  IsLegalCall (bytes p) = length p < 2 ^ 35
  IsLegalCall absent = Unit
  IsLegalCall present = Unit
  IsLegalCall zeroed = Unit
  IsLegalCall (region cs) = IsLegal cs × (length (encode cs) < 2 ^ 35)

  pub IsLegal : Calls → Type 0
  IsLegal done = Unit
  IsLegal (next c cs) = IsLegalCall c × IsLegal cs

-- The body sizes of the regions, in the order in which they begin.
unfoldable mutual
  pub call_sizes : Call → List ℕ
  call_sizes (region cs) = length (encode cs) ∷ region_sizes cs
  call_sizes (tag t wt) = []
  call_sizes (uvarint v) = []
  call_sizes (svarint v) = []
  call_sizes (fixed32 v) = []
  call_sizes (fixed64 v) = []
  call_sizes (bool b) = []
  call_sizes (bytes p) = []
  call_sizes absent = []
  call_sizes present = []
  call_sizes zeroed = []

  pub region_sizes : Calls → List ℕ
  region_sizes done = []
  region_sizes (next c cs) = call_sizes c ++ region_sizes cs
