-- ===== src/Reader/Safety.antt =====
-- On any bytes the Read methods stay inside the buffer: what each method keeps of a valid Reader.
pub mod Methods
pub mod Session
use gsbm.Common.{
  ℕ, ◌+◌, ◌-◌, ◌*◌, ◌^◌, ◌≤◌, ◌<◌, ◌≡◌, ◌≢◌, refl, sym, ap, ◌∙◌, Bool, true, false, Option, none,
  some, List, [], ◌∷◌, arith,
}
use gsbm.Common.{
  Option-cases, length, take, drop, length-take, min, ltb, leb, ◌==◌, not, if◌then◌else◌, bit_and,
  get_or, inl, inr, ◌⊎◌,
}
use gsbm.Errors.{Error, Result, ok, err, truncated, Result-cases}
use gsbm.Varint.{read_uvarint}
use gsbm.Varint.Input.{read_uvarint_bounds}
use gsbm.Wire.{WireType}
use gsbm.Reader.State.{
  Reader, IsValid, Outcome, set_err, fail, after, guarded, next_uvarint, guarded_by, sticky,
}
use gsbm.Reader.Fields.{
  unpack_key, read_tag, read_uvarint_field, read_varint, read_bool, read_fixed32, read_fixed64,
  take_bytes, read_len_bytes, read_string, check_presence, read_presence_byte,
}
use gsbm.Reader.Regions.{read_length, begin_length_delim, end_length_delim, skip_bytes, skip_field}

-- A method keeps the indices in order, leaves the bytes alone and only moves forward; it leaves the
-- error state alone when it succeeds, and has set it when it fails.
pub record Sound {A : Type 0} (r : Reader) (o : Outcome A) : Type 0 where
  pub valid : IsValid o.1
  pub same : o.1.buf ≡ r.buf
  pub onward : r.pos ≤ o.1.pos
  pub narrower : o.1.end ≤ r.end
  pub success : (a : A) → o.0 ≡ ok a → o.1.err ≡ r.err
  pub failure : (e : Error) → o.0 ≡ err e → o.1.err ≢ none

module _ {A : Type 0} where
  pub fail-Sound : (r : Reader) (e : Error) → IsValid r → Sound {A = A} r (fail r e)
  unfolding fail set_err
  fail-Sound r e v = record {
    valid = record { before_end = v.before_end; inside = v.inside };
    same = refl;
    onward = omega arith;
    narrower = omega arith;
    success = λ a h. cc;
    failure = λ x h. ground arith;
  }

  guarded_by-Sound :
      (x : Option Error) (r : Reader) (o : Outcome A)
      → r.err ≡ x
      → IsValid r
      → Sound r o
      → Sound r (guarded_by x r o)
  guarded_by-Sound none r o e v s = s
  guarded_by-Sound (some x) r o e v s = record {
    valid = v;
    same = refl;
    onward = omega arith;
    narrower = omega arith;
    success = λ a h. cc;
    failure = λ y h. cc;
  }

  pub guarded-Sound : (r : Reader) (o : Outcome A) → IsValid r → Sound r o → Sound r (guarded r o)
  guarded-Sound r o v s = guarded_by-Sound r.err r o refl v s

  -- Success that leaves the Reader where it is, or moves it over bytes that are there.
  pub ok-Sound : (a : A) (r : Reader) → IsValid r → Sound r (ok a, r)
  ok-Sound a r v = record {
    valid = v;
    same = refl;
    onward = omega arith;
    narrower = omega arith;
    success = λ b h. refl;
    failure = λ x h. cc;
  }

  pub advance-Sound :
      (a : A) (r : Reader) (n : ℕ)
      → IsValid r
      → n ≤ r.end - r.pos
      → Sound r (ok a, record r { pos = r.pos + n })
  advance-Sound a r n v h = record {
    valid = record { before_end = omega (arith, v.before_end); inside = v.inside };
    same = refl;
    onward = omega arith;
    narrower = omega arith;
    success = λ b q. refl;
    failure = λ x q. cc;
  }

  pub if-Sound :
      (b : Bool) (r : Reader) (o p : Outcome A)
      → (b ≡ true → Sound r o)
      → (b ≡ false → Sound r p)
      → Sound r (if b then o else p)
  if-Sound true r o p s t = s refl
  if-Sound false r o p s t = t refl

module _ {A B : Type 0} where
  pub after-Sound :
      (r : Reader) (o : Outcome A) (k : A → Reader → Outcome B)
      → Sound r o
      → ((a : A) (r' : Reader) → IsValid r' → Sound r' (k a r'))
      → Sound r (after o k)
  after-Sound r (ok a, r') k s rest =
      let t = rest a r' s.valid in
      record {
        valid = t.valid;
        same = t.same ∙ s.same;
        onward = omega (arith, s.onward, t.onward);
        narrower = omega (arith, s.narrower, t.narrower);
        success = λ b h. t.success b h ∙ s.success a refl;
        failure = t.failure;
      }
  after-Sound r (err e, r') k s rest = record {
    valid = s.valid;
    same = s.same;
    onward = s.onward;
    narrower = s.narrower;
    success = λ b h. cc;
    failure = λ x h. s.failure e refl;
  }

pub next_uvarint-Sound : (r : Reader) → IsValid r → Sound r (next_uvarint r)
unfolding next_uvarint set_err
next_uvarint-Sound r v = elim (Result-cases (read_uvarint (take r.end r.buf) r.pos)) [
  | inl ((x, n), e) ↦
      let b = read_uvarint_bounds (take r.end r.buf) r.pos x n e in
      rw e (record {
        valid = record { before_end = omega (arith, length-take r.end r.buf); inside = v.inside };
        same = refl;
        onward = omega arith;
        narrower = omega arith;
        success = λ a h. refl;
        failure = λ y h. cc;
      })
  | inr (x, e) ↦ rw e (record {
    valid = record { before_end = v.before_end; inside = v.inside };
    same = refl;
    onward = omega arith;
    narrower = omega arith;
    success = λ a h. cc;
    failure = λ y h. ground arith;
  })
]

-- The test for `n` bytes before they are taken.
abbrev pub bounded : {A : Type 0} → ℕ → Reader → A → Outcome A
bounded n r a =
    if ltb (r.end - r.pos) n then fail r truncated else (ok a, record r { pos = r.pos + n })

pub bounded-Sound : {A : Type 0} (n : ℕ) (r : Reader) (a : A) → IsValid r → Sound r (bounded n r a)
bounded-Sound n r a v =
    if-Sound (ltb (r.end - r.pos) n) r _ _ (λ h. fail-Sound r truncated v)
      (λ h. advance-Sound a r n v (ground arith))
