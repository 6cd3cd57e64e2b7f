-- ===== src/Reader/Safety/Session.antt =====
-- Any sequence of Read calls on any bytes: the panic-free rule for hostile input.
use gsbm.Common.{ℕ, ◌≤◌, ◌≡◌, refl, ap, ◌∙◌, Bool, Option, some, List, [], ◌∷◌, arith, length}
use gsbm.Errors.{Error, ok, err, trailing_bytes}
use gsbm.Wire.{WireType}
use gsbm.Reader.State.{Reader, IsValid, Outcome, fail, set_err, new_reader, next_uvarint}
use gsbm.Reader.Fields.{
  read_tag, read_uvarint_field, read_varint, read_bool, read_fixed32, read_fixed64, read_len_bytes,
  read_string, read_presence_byte,
}
use gsbm.Reader.Regions.{read_length, begin_length_delim, end_length_delim, skip_field}
use gsbm.Reader.Safety.{Sound}
use gsbm.Reader.Safety.Methods.{
  read_tag-Sound, read_uvarint_field-Sound, read_varint-Sound, read_bool-Sound, read_fixed32-Sound,
  read_fixed64-Sound, read_len_bytes-Sound, read_string-Sound, read_length-Sound,
  read_presence_byte-Sound, skip_field-Sound, begin_length_delim-Sound,
}

-- A call that a decoder may make. `leave` ends the innermost region that `enter` opened.
pub data ReadCall : Type 0 where
  tag uvarint svarint bool fixed32 fixed64 bytes string count enter leave : ReadCall
  presence : Bool → ReadCall
  skip : WireType → ReadCall

-- A Reader, and the bounds that BeginLengthDelim has handed out and not got back.
pub record Session : Type 0 where
  pub reader : Reader
  pub saved : List ℕ

abbrev entered : Outcome ℕ → List ℕ → Session
entered (ok bound, r) saved = record { reader = r; saved = bound ∷ saved }
entered (err e, r) saved = record { reader = r; saved = saved }

abbrev left_region : Outcome (Unit {0}) → ℕ → List ℕ → Session
left_region (ok x, r) bound saved = record { reader = r; saved = saved }
left_region (err e, r) bound saved = record { reader = r; saved = bound ∷ saved }

abbrev leave_from : Reader → List ℕ → Session
leave_from r [] = record { reader = r; saved = [] }
leave_from r (bound ∷ saved) = left_region (end_length_delim r bound) bound saved

unfoldable pub step : ReadCall → Session → Session
step tag s = record s { reader = (read_tag s.reader).1 }
step uvarint s = record s { reader = (read_uvarint_field s.reader).1 }
step svarint s = record s { reader = (read_varint s.reader).1 }
step bool s = record s { reader = (read_bool s.reader).1 }
step fixed32 s = record s { reader = (read_fixed32 s.reader).1 }
step fixed64 s = record s { reader = (read_fixed64 s.reader).1 }
step bytes s = record s { reader = (read_len_bytes s.reader).1 }
step string s = record s { reader = (read_string s.reader).1 }
step count s = record s { reader = (read_length s.reader).1 }
step enter s = entered (begin_length_delim s.reader) s.saved
step leave s = leave_from s.reader s.saved
step (presence allow) s = record s { reader = (read_presence_byte s.reader allow).1 }
step (skip wt) s = record s { reader = (skip_field s.reader wt).1 }

unfoldable pub steps : List ReadCall → Session → Session
steps [] s = s
steps (c ∷ cs) s = steps cs (step c s)

-- The saved bounds nest around the current one and stay inside the buffer.
abbrev Nested : ℕ → List ℕ → ℕ → Type 0
Nested end [] top = end ≤ top
Nested end (bound ∷ saved) top = (end ≤ bound) × Nested bound saved top

pub record IsSafe (src : List ℕ) (s : Session) : Type 0 where
  pub valid : IsValid s.reader
  pub same : s.reader.buf ≡ src
  pub nested : Nested s.reader.end s.saved (length src)

Nested-narrower :
    (a b : ℕ) (saved : List ℕ) (top : ℕ) → a ≤ b → Nested b saved top → Nested a saved top
Nested-narrower a b [] top h n = omega arith
Nested-narrower a b (bound ∷ saved) top h n = (omega arith, n.1)

Nested-top : (a : ℕ) (saved : List ℕ) (top : ℕ) → Nested a saved top → a ≤ top
Nested-top a [] top n = n
Nested-top a (bound ∷ saved) top n = let up = Nested-top bound saved top n.1 in omega arith

kept :
    {A : Type 0} (src : List ℕ) (s : Session) (o : Outcome A)
    → IsSafe src s
    → Sound s.reader o
    → IsSafe src (record s { reader = o.1 })
kept src s o h k = record {
  valid = k.valid;
  same = k.same ∙ h.same;
  nested = Nested-narrower o.1.end s.reader.end s.saved (length src) k.narrower h.nested;
}

begin-cases :
    (src : List ℕ) (s : Session) (o : Outcome ℕ)
    → IsSafe src s
    → Sound s.reader o
    → ((bound : ℕ) → o.0 ≡ ok bound → bound ≡ s.reader.end)
    → IsSafe src (entered o s.saved)
begin-cases src s (ok bound, r) h k outer =
    let e = outer bound refl in
    record {
      valid = k.valid;
      same = k.same ∙ h.same;
      nested = (omega (arith, k.narrower), rw e h.nested);
    }
begin-cases src s (err x, r) h k outer = kept src s (err x, r) h k

begin-outer : (r : Reader) (bound : ℕ) → (begin_length_delim r).0 ≡ ok bound → bound ≡ r.end
unfolding begin_length_delim next_uvarint fail
begin-outer r bound e = ground arith

-- Leaving a region that was entered restores a bound inside the buffer.
leave-cases :
    (src : List ℕ) (r : Reader) (saved : List ℕ)
    → IsSafe src (record { reader = r; saved = saved })
    → IsSafe src (leave_from r saved)
unfolding end_length_delim fail set_err
leave-cases src r [] h = h
leave-cases src r (bound ∷ saved) h =
    let top = Nested-top bound saved (length src) h.nested.1 in
    let size = ap (λ (b : List ℕ). length b) h.same in
    let restored : IsSafe src (record { reader = record r { end = bound }; saved = saved }) =
      record {
        valid = record {
          before_end = omega (arith, h.nested.0, h.valid.before_end);
          inside = omega (arith, top, size);
        };
        same = h.same;
        nested = h.nested.1;
      } in
    let failing : (x : Option Error)
        → IsSafe src (record { reader = record r { err = x }; saved = bound ∷ saved }) =
      λ x. record {
        valid = record { before_end = h.valid.before_end; inside = h.valid.inside };
        same = h.same;
        nested = h.nested;
      } in
    ground (arith, restored, failing (some trailing_bytes), h)

step-IsSafe : (src : List ℕ) (c : ReadCall) (s : Session) → IsSafe src s → IsSafe src (step c s)
unfolding step
step-IsSafe src tag s h = kept src s (read_tag s.reader) h (read_tag-Sound s.reader h.valid)
step-IsSafe src uvarint s h =
    kept src s (read_uvarint_field s.reader) h (read_uvarint_field-Sound s.reader h.valid)
step-IsSafe src svarint s h =
    kept src s (read_varint s.reader) h (read_varint-Sound s.reader h.valid)
step-IsSafe src bool s h = kept src s (read_bool s.reader) h (read_bool-Sound s.reader h.valid)
step-IsSafe src fixed32 s h =
    kept src s (read_fixed32 s.reader) h (read_fixed32-Sound s.reader h.valid)
step-IsSafe src fixed64 s h =
    kept src s (read_fixed64 s.reader) h (read_fixed64-Sound s.reader h.valid)
step-IsSafe src bytes s h =
    kept src s (read_len_bytes s.reader) h (read_len_bytes-Sound s.reader h.valid)
step-IsSafe src string s h =
    kept src s (read_string s.reader) h (read_string-Sound s.reader h.valid)
step-IsSafe src count s h = kept src s (read_length s.reader) h (read_length-Sound s.reader h.valid)
step-IsSafe src enter s h =
    begin-cases src s (begin_length_delim s.reader) h (begin_length_delim-Sound s.reader h.valid)
      (begin-outer s.reader)
step-IsSafe src leave s h = leave-cases src s.reader s.saved h
step-IsSafe src (presence allow) s h =
    kept src s (read_presence_byte s.reader allow) h
      (read_presence_byte-Sound s.reader h.valid allow)
step-IsSafe src (skip wt) s h =
    kept src s (skip_field s.reader wt) h (skip_field-Sound s.reader h.valid wt)

steps_keep :
    (src : List ℕ) (cs : List ReadCall) (s : Session) → IsSafe src s → IsSafe src (steps cs s)
unfolding steps
steps_keep src [] s h = h
steps_keep src (c ∷ cs) s h = steps_keep src cs (step c s) (step-IsSafe src c s h)

-- From a new Reader over any bytes, any sequence of Read calls, failed ones and calls after a failure
-- included, leaves the position at or before the bound and the bound inside the bytes, which are
-- unchanged; bounds that are still saved nest around the current one.
pub steps-IsSafe :
    (src : List ℕ) (cs : List ReadCall)
    → IsSafe src (steps cs (record { reader = new_reader src; saved = [] }))
steps-IsSafe src cs = steps_keep src cs _ (record {
  valid = record { before_end = omega arith; inside = omega arith };
  same = refl;
  nested = omega arith;
})
