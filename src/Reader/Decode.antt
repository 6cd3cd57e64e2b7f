-- ===== src/Reader/Decode.antt =====
-- storage/gsbm/decode_into.go. A root type's generated methods are a parameter.
use gsbm.Common.{ℕ, Option, none, some, List}
use gsbm.Errors.{Error, ok, err}
use gsbm.Compress.{Runtime}
use gsbm.Reader.State.{Reader, Outcome, new_reader}
use gsbm.Reader.Header.{Header, read_header}

-- GSBMRoot on values of A; UnmarshalGSBM gives its error and leaves the value and the Reader.
pub record GsbmRoot (A : Type 0) : Type 0 where
  pub reset : A → A
  pub unmarshal_gsbm : A → Reader → Option Error × A × Reader

module _ {A : Type 0} (root : GsbmRoot A) where
  -- The returned error, or else the Reader's sticky one.
  abbrev finished : Option Error × A × Reader → Option Error × A
  finished (none, a, r) = (r.err, a)
  finished (some e, a, r) = (some e, a)

  abbrev behind_header : A → Outcome Header → Option Error × A
  behind_header a (ok h, r) = finished (root.unmarshal_gsbm a r)
  behind_header a (err e, r) = (some e, a)

  -- DecodeInto
  unfoldable pub decode_into : Runtime → List ℕ → A → Option Error × A
  decode_into rt src dst = behind_header (root.reset dst) (read_header rt (new_reader src))

  -- DecodeBodyInto
  unfoldable pub decode_body_into : List ℕ → A → Option Error × A
  decode_body_into src dst = finished (root.unmarshal_gsbm (root.reset dst) (new_reader src))
